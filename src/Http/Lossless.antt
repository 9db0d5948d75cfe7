-- ===== src/Http/Lossless.antt =====
-- HTTP sessions that tunnel pass on all bytes, in their order.
use amgi_net_tools.Base.{ℕ, ◌≡◌, [], ◌∷◌, ok, some, >>=-eq-ok, arith}
use amgi_net_tools.Base.Pipe.{Wire, first_or}
use amgi_net_tools.Transport.ServerStream
use amgi_net_tools.Transport.ServerStream.{Kind}
use amgi_net_tools.Transport.ClientStream
use amgi_net_tools.Proxy.Store.{Pair}
use amgi_net_tools.Proxy.Events.{goes_on}
use amgi_net_tools.Proxy.Network.{
  Completion, server_sent, server_received, client_sent, client_received, take_off, handle, Reaches,
  next,
}
use amgi_net_tools.Proxy.Carry.{
  Relays, Carries, takes_out, takes_in, gives_out, gives_in, InOrder, IsCarrying, fresh-IsCarrying,
  relays_on, IsCarrying-InOrder,
}
use amgi_net_tools.Http.State.{State, data_transfer_mode}
use amgi_net_tools.Http.Automaton.{react, finish, to_remote, to_local}
use amgi_net_tools.Transport.Effects.{server_wrote, client_wrote}
use amgi_net_tools.Http.Discipline.{IsTidy, accepted, Reaches-IsTidy_http}

module _ (p q : Pair State) {r : Pair State} where
  -- Only reads and writes can complete in a session that relays, and each is carried on.
  transfer-Carries :
      (c : Completion)
      → p.session.state ≡ data_transfer_mode
      → IsTidy p
      → take_off c p ≡ some q
      → handle react c q ≡ ok (goes_on r)
      → Carries p r c × (r.session.state ≡ data_transfer_mode)
  unfolding take_off handle react to_remote to_local finish ServerStream.do_read
      ClientStream.do_read first_or
  transfer-Carries (server_received bytes) s t taken h =
      let answer : to_remote bytes q ≡ ok (goes_on r) = ground arith in
      let (c, wrote, last) = >>=-eq-ok (ClientStream.do_write bytes q.client) _ answer in
      let w = client_wrote bytes q.client {t = c} wrote in
      (
        takes_out bytes (ground arith) (ground (arith, last)) (ground (arith, last, w))
            (ground (arith, last, w)) (ground (arith, last)),
        ground (arith, last),
      )
  transfer-Carries (client_received (b ∷ bs)) s t taken h =
      let answer : to_local (b ∷ bs) q ≡ ok (goes_on r) = ground arith in
      let (c, wrote, last) = >>=-eq-ok (ServerStream.do_write (b ∷ bs) q.server) _ answer in
      let w = server_wrote (b ∷ bs) q.server {t = c} wrote in
      (
        takes_in b bs (ground arith) (ground (arith, last)) (ground (arith, last, w))
            (ground (arith, last, w)) (ground (arith, last)),
        ground (arith, last),
      )
  transfer-Carries server_sent s t taken h =
      (gives_in (ground arith) (ground arith) (ground arith) (ground arith), ground arith)
  transfer-Carries client_sent s t taken h =
      (gives_out (ground arith) (ground arith) (ground arith) (ground arith), ground arith)
  transfer-Carries _ s t taken h = absurd (ground arith)

module _ (kind : Kind) (id : ℕ) (start : Pair State) where
  abbrev pub Reached : Pair State → Type 0
  Reached p = Reaches react (accepted (ServerStream.make kind id)) p

  abbrev IsRelaying : Pair State → Type 0
  IsRelaying p = Reached p × (p.session.state ≡ data_transfer_mode)

  IsRelaying-Carries :
      (p q r : Pair State) (c : Completion)
      → IsRelaying p
      → take_off c p ≡ some q
      → handle react c q ≡ ok (goes_on r)
      → Carries p r c × IsRelaying r
  IsRelaying-Carries p q r c (reached, state) taken answered =
      let tidy = Reaches-IsTidy_http kind id reached in
      let (carried, still) = transfer-Carries p q {r = r} c state tidy taken answered in
      (carried, (next c reached taken answered, still))

  -- A session that tunnels goes on to do so, in order.
  pub Relays-relaying :
      (p : Pair State) (w : Wire)
      → Reached start
      → start.session.state ≡ data_transfer_mode
      → start.server.reads ≡ 1
      → start.client.reads ≡ 1
      → start.server.writes ≡ []
      → start.client.writes ≡ []
      → Relays react start p w
      → Reached p × (p.session.state ≡ data_transfer_mode) × IsCarrying p w
  Relays-relaying p w reached relays local_read remote_read no_local_write no_remote_write history =
      let fresh = fresh-IsCarrying start local_read remote_read no_local_write no_remote_write in
      let ((there, still), carrying) =
        relays_on react start IsRelaying IsRelaying-Carries (reached, relays) fresh p w history in
      (there, still, carrying)

  -- From the moment that a reachable HTTP session relays, with a read of each side and no write under way, and for any order of completions after
  -- it: what left on each side is a beginning of what came in on the other, in its order, and no more than one buffer
  -- is still to leave.
  pub Relays-InOrder_http :
      (p : Pair State) (w : Wire)
      → Reached start
      → start.session.state ≡ data_transfer_mode
      → start.server.reads ≡ 1
      → start.client.reads ≡ 1
      → start.server.writes ≡ []
      → start.client.writes ≡ []
      → Relays react start p w
      → InOrder w
  Relays-InOrder_http p w reached relays local_read remote_read no_local_write no_remote_write
        history =
      let (_, _, carrying) =
        Relays-relaying p w reached relays local_read remote_read no_local_write no_remote_write
          history in
      IsCarrying-InOrder p w carrying
