-- ===== src/Http/Counts.antt =====
-- The counts of the bytes that a HTTP session relays.
use amgi_net_tools.Base.{ℕ, ◌≡◌, [], ◌∷◌, ok, some, >>=-eq-ok, arith}
use amgi_net_tools.Base.Table
use amgi_net_tools.Base.Pipe.{Wire}
use amgi_net_tools.Transport.ServerStream
use amgi_net_tools.Transport.ServerStream.{Kind}
use amgi_net_tools.Transport.ClientStream
use amgi_net_tools.Proxy.Store.{Pair, StreamManager}
use amgi_net_tools.Proxy.Events.{goes_on}
use amgi_net_tools.Proxy.Network.{
  Completion, server_sent, server_received, client_sent, client_received, take_off, handle,
}
use amgi_net_tools.Proxy.Acceptor.{Acceptor}
use amgi_net_tools.Proxy.Deliver.{Runs}
use amgi_net_tools.Proxy.Traffic.{Traffic}
use amgi_net_tools.Proxy.Carry.{Relays, IsCarrying}
use amgi_net_tools.Proxy.Counts.{IsCounted, Tallies, IsSmall, Relays-IsCounted}
use amgi_net_tools.Http.State.{State, data_transfer_mode}
use amgi_net_tools.Http.Automaton.{react, finish, to_remote, to_local}
use amgi_net_tools.Http.Discipline.{IsTidy, Reaches-IsTidy_http}
use amgi_net_tools.Http.Lossless.{Reached}
use amgi_net_tools.Http.Traffic.{so_far, Traffic-own}
use amgi_net_tools.Http.Protocol.{http}

transfer-Tallies :
    (p q : Pair State) {r : Pair State} (c : Completion)
    → p.session.state ≡ data_transfer_mode
    → IsTidy p
    → IsSmall p.session.context
    → take_off c p ≡ some q
    → handle react c q ≡ ok (goes_on r)
    → Tallies p.session.context r.session.context c
unfolding take_off handle react finish to_remote to_local
transfer-Tallies p q {r} (server_received bytes) state tidy small taken h =
    let answer : to_remote bytes q ≡ ok (goes_on r) = ground arith in
    let (c, wrote, last) = >>=-eq-ok (ClientStream.do_write bytes q.client) _ answer in
    record { to_remote = ground (arith, last); to_local = ground (arith, last) }
transfer-Tallies p q {r} (client_received (b ∷ bs)) state tidy small taken h =
    let answer : to_local (b ∷ bs) q ≡ ok (goes_on r) = ground arith in
    let (c, wrote, last) = >>=-eq-ok (ServerStream.do_write (b ∷ bs) q.server) _ answer in
    record { to_remote = ground (arith, last); to_local = ground (arith, last) }
transfer-Tallies p q server_sent state tidy small taken h = record {
  to_remote = ground arith;
  to_local = ground arith;
}
transfer-Tallies p q client_sent state tidy small taken h = record {
  to_remote = ground arith;
  to_local = ground arith;
}
transfer-Tallies p q _ state tidy small taken h = absurd (ground arith)

-- In a running server, from the moment that a held session tunnels, with a read of each side, no write under way and counts of 64 bits, and while
-- it is held: its two counts have grown by the numbers of the bytes that came in for the other side, modulo 2 ^ 64,
-- whatever else the server does.
pub Traffic-IsCounted_by_http :
    (kind : Kind) (id : ℕ) (start now : Pair State) {first a : Acceptor}
    {before m : StreamManager State} {w : Wire}
    → Runs http kind first before
    → Table.find id before.sessions ≡ some start
    → start.session.state ≡ data_transfer_mode
    → start.server.reads ≡ 1
    → start.client.reads ≡ 1
    → start.server.writes ≡ []
    → start.client.writes ≡ []
    → IsSmall start.session.context
    → Traffic http kind id first before a m w
    → Table.find id m.sessions ≡ some now
    → IsCounted start.session.context now.session.context w
Traffic-IsCounted_by_http kind id start now {w} running found relays local_read remote_read
      no_local_write no_remote_write small traffic at =
    let history : (p : Pair State) (w : Wire)
        → Relays react start p w
        → Reached kind id start p × (p.session.state ≡ data_transfer_mode) × IsCarrying p w =
      so_far kind id start running found relays local_read remote_read no_local_write
        no_remote_write in
    Relays-IsCounted react start
      (λ p. Reached kind id start p × (p.session.state ≡ data_transfer_mode))
      (λ p w h. let (there, still, _) = history p w h in (there, still))
      (λ p q r c (there, still) few taken answered.
        transfer-Tallies p q {r = r} c still (Reaches-IsTidy_http kind id there) few taken answered)
      small now w
      (Traffic-own kind id start running found relays local_read remote_read no_local_write
        no_remote_write traffic at)
