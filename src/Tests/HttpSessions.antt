-- ===== src/Tests/HttpSessions.antt =====
-- The HTTP sessions at concrete inputs.
use amgi_net_tools.Base.{
  ◌≡◌, refl, Bytes, [], ◌∷◌, codes, length, text_eq, none, ok, arith, ◌>>=◌ as bind, drop, ◌++◌,
}
use amgi_net_tools.Transport.Buffer.{zeroed_buffer, length-zeroed_buffer, copy_into-fits}
use amgi_net_tools.Transport.ServerStream.{tls}
use amgi_net_tools.Transport.ServerStream
use amgi_net_tools.Transport.ClientStream
use amgi_net_tools.Proxy.Store.{Pair, StreamManager, no_sessions}
use amgi_net_tools.Proxy.Local.{hold, find-hold_self}
use amgi_net_tools.Proxy.Events.{goes_on, server_write, commit}
use amgi_net_tools.Proxy.Network.{
  server_handshaken, client_received, client_connected, here, next, Reaches, take_off, handle,
}
use amgi_net_tools.Proxy.StreamManager
use amgi_net_tools.Http.State.{
  State, connection_established, ready_to_transfer_data, data_transfer_mode, k_http_done,
}
use amgi_net_tools.Http.Automaton.{react, first_to_remote}
use amgi_net_tools.Http.Callbacks.{callback}
use amgi_net_tools.Http.Refinement.{callback-react_http}
use amgi_net_tools.Http.Discipline.{IsTidy, accepted, Reaches-IsTidy_http}
use amgi_net_tools.Http.Plain.{IsPlain, response_never_read}
use amgi_net_tools.Tests.Samples.{session_in}

abbrev start : Pair State
start = accepted (ServerStream.make tls 7)

-- The session once the TLS handshake is done.
abbrev shaken : Pair State
shaken = record start { server = ServerStream.do_read (ServerStream.make tls 7) }

shaken-Reaches : Reaches react start shaken
unfolding accepted StreamManager.new_pair ServerStream.do_start ServerStream.make take_off handle
shaken-Reaches = next server_handshaken here refl refl

Reaches-IsTidy_http_example : IsTidy shaken
Reaches-IsTidy_http_example = Reaches-IsTidy_http tls 7 shaken-Reaches

-- A session that relays for a tunnel.
abbrev relaying : Pair State
relaying = session_in data_transfer_mode [] 1 0 1 []

abbrev one_session : StreamManager State
one_session = hold 7 relaying no_sessions

callback-react_http_example :
    callback server_write 7 one_session
    ≡ bind (react server_write relaying) (λ o. ok (tt, commit 7 o one_session))
callback-react_http_example =
    callback-react_http relaying one_session server_write (find-hold_self 7 relaying no_sessions)

abbrev request : Bytes
request = codes "GET http: HTTP/1.1\r\nHost: a\r\n\r\n"

-- A plain request that connects.
abbrev connecting : Pair State
connecting = session_in connection_established request 0 1 0 []

connecting-IsTidy : IsTidy connecting
connecting-IsTidy = record {
  phase = (refl, refl, refl, refl, refl, refl);
  response = omega arith;
  server_buffer = length-zeroed_buffer;
  client_buffer = length-zeroed_buffer;
}

-- Its connection is made, and the request is on its way.
abbrev sending : Pair State
sending = record (session_in ready_to_transfer_data request 0 0 0 (length request ∷ [])) {
  client = record (session_in ready_to_transfer_data request 0 0 0 (length request ∷ [])).client {
    write_buffer = request ++ drop (length request) zeroed_buffer;
  };
}

request_sent :
    handle react client_connected (session_in connection_established request 0 0 0 [])
    ≡ ok (goes_on sending)
unfolding handle react first_to_remote ClientStream.do_write text_eq k_http_done
request_sent = rw (copy_into-fits request zeroed_buffer (omega (arith, length-zeroed_buffer)))

response_never_read_example :
    ((buffer : Bytes) → take_off (client_received buffer) sending ≡ none)
    × (length sending.server.writes ≡ 0)
    × (sending.session.context.transferred_bytes_to_local ≡ 0)
unfolding take_off text_eq k_http_done
response_never_read_example = response_never_read connecting-IsTidy refl refl refl request_sent here

sending-IsPlain : IsPlain sending
sending-IsPlain = record {
  phase = (refl, refl, refl, refl);
  no_handshake = refl;
  no_resolve = refl;
  no_connect = refl;
}
