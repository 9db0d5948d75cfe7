-- ===== src/Socks5/Lossless.antt =====
-- SOCKS5 sessions that relay pass on all bytes, in their order.
use amgi_net_tools.Base.{ℕ, ◌≡◌, [], ◌∷◌, ok, some, arith}
use amgi_net_tools.Base.Pipe.{Wire, first_or}
use amgi_net_tools.Transport.ServerStream
use amgi_net_tools.Transport.ServerStream.{Kind}
use amgi_net_tools.Transport.ClientStream
use amgi_net_tools.Proxy.Errors.{NetErrors}
use amgi_net_tools.Proxy.Store.{Pair}
use amgi_net_tools.Proxy.Events.{goes_on}
use amgi_net_tools.Proxy.Network.{
  Completion, server_sent, server_received, client_sent, client_received, take_off, handle, Reaches,
  next,
}
use amgi_net_tools.Proxy.Carry.{
  Relays, Carries, takes_out, takes_in, gives_out, gives_in, InOrder, IsCarrying, fresh-IsCarrying,
  relays_on, IsCarrying-InOrder,
}
use amgi_net_tools.Socks5.Packet.{Inet}
use amgi_net_tools.Socks5.State.{State, data_transfer_mode}
use amgi_net_tools.Socks5.Automaton.{react, finish}
use amgi_net_tools.Socks5.Answers.{to_remote-Relayed, to_local-RelayedIn}
use amgi_net_tools.Socks5.Discipline.{IsTidy, accepted, Reaches-IsTidy}

module _ (inet : Inet) (errors : NetErrors) (p q : Pair State) {r : Pair State} where
  -- Only reads and writes can complete in a session that relays, and each is carried on.
  transfer-Carries :
      (c : Completion)
      → p.session.state ≡ data_transfer_mode
      → IsTidy p
      → take_off c p ≡ some q
      → handle (react inet errors) c q ≡ ok (goes_on r)
      → Carries p r c × (r.session.state ≡ data_transfer_mode)
  unfolding take_off handle react finish ServerStream.do_read ClientStream.do_read first_or
  transfer-Carries (server_received bytes) s t taken h =
      let w = to_remote-Relayed q {r = r} bytes (ground arith) in
      (
        takes_out bytes (ground arith) (ground (arith, w)) (ground (arith, w, w.written))
            (ground (arith, w.written)) (ground (arith, w)),
        ground (arith, w),
      )
  transfer-Carries (client_received (b ∷ bs)) s t taken h =
      let w = to_local-RelayedIn q {r = r} (b ∷ bs) (ground arith) in
      (
        takes_in b bs (ground arith) (ground (arith, w)) (ground (arith, w, w.written))
            (ground (arith, w.written)) (ground (arith, w)),
        ground (arith, w),
      )
  transfer-Carries server_sent s t taken h =
      (gives_in (ground arith) (ground arith) (ground arith) (ground arith), ground arith)
  transfer-Carries client_sent s t taken h =
      (gives_out (ground arith) (ground arith) (ground arith) (ground arith), ground arith)
  transfer-Carries _ s t taken h = absurd (ground arith)

module _ (inet : Inet) (errors : NetErrors) (kind : Kind) (id : ℕ) (start : Pair State) where
  abbrev pub Reached : Pair State → Type 0
  Reached p = Reaches (react inet errors) (accepted (ServerStream.make kind id)) p

  abbrev IsRelaying : Pair State → Type 0
  IsRelaying p = Reached p × (p.session.state ≡ data_transfer_mode)

  IsRelaying-Carries :
      (p q r : Pair State) (c : Completion)
      → IsRelaying p
      → take_off c p ≡ some q
      → handle (react inet errors) c q ≡ ok (goes_on r)
      → Carries p r c × IsRelaying r
  IsRelaying-Carries p q r c (reached, state) taken answered =
      let tidy = Reaches-IsTidy inet errors kind id reached in
      let (carried, still) = transfer-Carries inet errors p q {r = r} c state tidy taken answered in
      (carried, (next c reached taken answered, still))

  -- A session that relays goes on to do so, in order.
  pub Relays-relaying :
      (p : Pair State) (w : Wire)
      → Reached start
      → start.session.state ≡ data_transfer_mode
      → start.server.writes ≡ []
      → start.client.writes ≡ []
      → Relays (react inet errors) start p w
      → Reached p × (p.session.state ≡ data_transfer_mode) × IsCarrying p w
  Relays-relaying p w reached relays no_local_write no_remote_write history =
      let tidy = Reaches-IsTidy inet errors kind id reached in
      let fresh =
        fresh-IsCarrying start (ground (arith, relays, tidy.phase))
          (ground (arith, relays, tidy.phase)) no_local_write no_remote_write in
      let ((there, still), carrying) =
        relays_on (react inet errors) start IsRelaying IsRelaying-Carries (reached, relays) fresh p
          w history in
      (there, still, carrying)

  -- From the moment that a reachable SOCKS5 session relays, with no write under way, and for any order of completions after
  -- it: what left on each side is a beginning of what came in on the other, in its order, and no more than one buffer
  -- is still to leave.
  pub Relays-InOrder :
      (p : Pair State) (w : Wire)
      → Reached start
      → start.session.state ≡ data_transfer_mode
      → start.server.writes ≡ []
      → start.client.writes ≡ []
      → Relays (react inet errors) start p w
      → InOrder w
  Relays-InOrder p w reached relays no_local_write no_remote_write history =
      let (_, _, carrying) =
        Relays-relaying p w reached relays no_local_write no_remote_write history in
      IsCarrying-InOrder p w carrying
