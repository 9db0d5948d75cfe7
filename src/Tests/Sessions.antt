-- ===== src/Tests/Sessions.antt =====
-- The SOCKS5 sessions at concrete inputs.
use amgi_net_tools.Base.{
  ℕ, suc, ◌+◌, ◌≡◌, ◌≢◌, ◌<◌, get_elem?, refl, zero, Bytes, [], ◌∷◌, take, some, ok, arith,
  ◌>>=◌ as bind,
}
use amgi_net_tools.Base.Table
use amgi_net_tools.Base.Table.{find-empty}
use amgi_net_tools.Transport.Buffer.{length-zeroed_buffer}
use amgi_net_tools.Transport.ServerStream.{tls}
use amgi_net_tools.Transport.ClientStream
use amgi_net_tools.Proxy.Store.{Pair, StreamManager, no_sessions}
use amgi_net_tools.Proxy.Local.{hold, find-hold_self}
use amgi_net_tools.Proxy.Events.{goes_on, server_write, commit}
use amgi_net_tools.Proxy.Network.{server_received, take_off, handle}
use amgi_net_tools.Socks5.Packet.Hello.{IsGood}
use amgi_net_tools.Socks5.State.{
  State, auth_request, connection_request, connection_established, data_transfer_mode,
}
use amgi_net_tools.Socks5.Automaton.{react}
use amgi_net_tools.Socks5.Callbacks.{callback}
use amgi_net_tools.Socks5.Refinement.{callback-react}
use amgi_net_tools.Socks5.Discipline.{IsTidy, Reaches-IsTidy}
use amgi_net_tools.Socks5.Relay.{refused_hello_goes_on}
use amgi_net_tools.Proxy.Isolation.{KeysAgree}
use amgi_net_tools.Tests.Greeting.{waiting, waiting-Reaches}
use amgi_net_tools.Tests.Samples.{sample_inet, linux_errors, session_in}

Reaches-IsTidy_example : IsTidy (waiting 1)
Reaches-IsTidy_example = Reaches-IsTidy sample_inet linux_errors tls 1 waiting-Reaches

-- A session that relays.
abbrev relaying : Pair State
relaying = session_in data_transfer_mode [] 1 0 1 []

relaying-IsTidy : IsTidy relaying
relaying-IsTidy = record {
  phase = (refl, refl, refl, refl, refl);
  response = tt;
  server_buffer = length-zeroed_buffer;
  client_buffer = length-zeroed_buffer;
}

abbrev request : Bytes
request = 5 ∷ 1 ∷ 0 ∷ 1 ∷ 127 ∷ 0 ∷ 0 ∷ 1 ∷ 0 ∷ 80 ∷ []

-- A session that connects.
abbrev connecting : Pair State
connecting = session_in connection_established request 0 1 0 []

connecting-IsTidy : IsTidy connecting
connecting-IsTidy = record {
  phase = (refl, refl, refl, refl, refl);
  response = (omega arith, omega arith);
  server_buffer = length-zeroed_buffer;
  client_buffer = length-zeroed_buffer;
}

-- A hello that offers nothing but a user name and a password.
abbrev bad_hello : Bytes
bad_hello = 5 ∷ 1 ∷ 2 ∷ []

bad_hello-refused : ¬ IsGood bad_hello
bad_hello-refused g =
    let (j, from, to, found) = g.offers in other j found (ground (arith, to, g.counted))
  where
    other : (j : ℕ) → get_elem? bad_hello (2 + j) ≡ some 0 → ¬ (j < 1)
    other zero h below = ground (arith, h)
    other (suc j) h below = omega (arith, below)

abbrev greeting : Pair State
greeting = session_in auth_request [] 1 0 0 []

greeting-IsTidy : IsTidy greeting
greeting-IsTidy = record {
  phase = (refl, refl, (refl, refl, refl, refl));
  response = tt;
  server_buffer = length-zeroed_buffer;
  client_buffer = length-zeroed_buffer;
}

refused_hello_goes_on_example :
    let q : Pair State = session_in auth_request [] 0 0 0 [] in
    (r : Pair State) × (handle (react sample_inet linux_errors) (server_received bad_hello) q
      ≡ ok (goes_on r))
    × (r.server.writes ≡ 2 ∷ [])
    × (take 2 r.server.write_buffer ≡ 5 ∷ 255 ∷ [])
    × (r.session.state ≡ connection_request)
unfolding take_off
refused_hello_goes_on_example =
    refused_hello_goes_on sample_inet linux_errors greeting bad_hello bad_hello-refused
      greeting-IsTidy refl refl

-- The same session when its write to the local side is done: it reads the remote side again.
abbrev relayed : Pair State
relayed = session_in data_transfer_mode [] 1 0 2 []

-- A manager that holds one session.
abbrev one_session : StreamManager State
one_session = hold 7 relaying no_sessions

callback-react_example :
    callback sample_inet linux_errors server_write 7 one_session
    ≡ bind
        (react sample_inet linux_errors server_write relaying)
        (λ o. ok (tt, commit 7 o one_session))
callback-react_example =
    callback-react sample_inet linux_errors relaying one_session server_write
      (find-hold_self 7 relaying no_sessions)

one_session-KeysAgree : KeysAgree one_session
unfolding hold Table.find Table.put no_sessions Table.empty
one_session-KeysAgree id p found = ground (arith, found)

served :
    callback sample_inet linux_errors server_write 7 one_session
    ≡ ok (tt, hold 7 relayed one_session)
unfolding react ClientStream.do_read commit
served = callback-react_example

eight : ◌≢◌ {A = ℕ} 8 7
eight h = omega (arith, h)
