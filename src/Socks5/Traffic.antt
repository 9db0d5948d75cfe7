-- ===== src/Socks5/Traffic.antt =====
-- A running SOCKS5 server, and the bytes of one of its streams that relays.
use amgi_net_tools.Base.{ℕ, ◌≡◌, [], ◌∷◌, ok, some, >>=-eq-ok, arith}
use amgi_net_tools.Base.Table
use amgi_net_tools.Base.Pipe.{Wire}
use amgi_net_tools.Transport.ClientStream
use amgi_net_tools.Transport.ServerStream
use amgi_net_tools.Transport.ServerStream.{Kind}
use amgi_net_tools.Proxy.StreamManager
use amgi_net_tools.Proxy.Errors.{NetErrors}
use amgi_net_tools.Proxy.Store.{Pair, StreamManager}
use amgi_net_tools.Proxy.Events.{ends}
use amgi_net_tools.Proxy.Network.{
  Completion, server_received, server_failed, client_received, client_failed, take_off, handle,
}
use amgi_net_tools.Proxy.Acceptor.{Acceptor}
use amgi_net_tools.Proxy.Deliver.{Runs}
use amgi_net_tools.Proxy.Traffic.{Traffic}
use amgi_net_tools.Proxy.Follows.{Traffic-Relays}
use amgi_net_tools.Proxy.Histories.{Runs-Held}
use amgi_net_tools.Proxy.Carry.{Cut, Relays, InOrder, IsCarrying, observe, cut_off-InOrder}
use amgi_net_tools.Socks5.Packet.{Inet}
use amgi_net_tools.Socks5.State.{State, data_transfer_mode}
use amgi_net_tools.Socks5.Automaton.{react, finish, to_remote, to_local}
use amgi_net_tools.Socks5.Discipline.{IsTidy, accepted, Reaches-IsTidy}
use amgi_net_tools.Socks5.Lossless.{Relays-InOrder, Reached, Relays-relaying}
use amgi_net_tools.Socks5.Protocol.{socks5}

module _ (inet : Inet) (errors : NetErrors) where
  -- A session that relays ends by an error alone, with which at most the bytes of a write that fails have passed.
  at_end-InOrder :
      (k : Cut) (p q : Pair State) {r : Pair State} (w : Wire) (c : Completion)
      → p.session.state ≡ data_transfer_mode
      → IsTidy p
      → take_off c p ≡ some q
      → handle (react inet errors) c q ≡ ok (ends r)
      → IsCarrying p w
      → InOrder (observe k c p w)
  unfolding take_off handle react finish to_remote to_local
  at_end-InOrder k p q w (server_failed op ec) state tidy taken answered carrying =
      cut_off-InOrder k p w carrying
  at_end-InOrder k p q w (client_failed op ec) state tidy taken answered carrying =
      cut_off-InOrder k p w carrying
  at_end-InOrder k p q w (client_received []) state tidy taken answered carrying =
      cut_off-InOrder k p w carrying
  at_end-InOrder k p q {r} w (server_received bytes) state tidy taken answered carrying =
      let answer : to_remote bytes q ≡ ok (ends r) = ground arith in
      let (c, wrote, last) = >>=-eq-ok (ClientStream.do_write bytes q.client) _ answer in
      absurd (cc last)
  at_end-InOrder k p q {r} w (client_received (b ∷ bs)) state tidy taken answered carrying =
      let answer : to_local (b ∷ bs) q ≡ ok (ends r) = ground arith in
      let (c, wrote, last) = >>=-eq-ok (ServerStream.do_write (b ∷ bs) q.server) _ answer in
      absurd (cc last)
  at_end-InOrder k p q w c state tidy taken answered carrying = absurd (ground arith)

  module _ (kind : Kind) (id : ℕ) (start : Pair State) {first : Acceptor}
      {before : StreamManager State} (running : Runs (socks5 inet errors) kind first before)
      (found : Table.find id before.sessions ≡ some start)
      (relays : start.session.state ≡ data_transfer_mode)
      (no_local_write : start.server.writes ≡ []) (no_remote_write : start.client.writes ≡ []) where
    pub so_far :
        (p : Pair State) (w : Wire)
        → Relays (react inet errors) start p w
        → Reached inet errors kind id start p
          × (p.session.state ≡ data_transfer_mode)
          × IsCarrying p w
    unfolding accepted StreamManager.new_pair
    so_far p w =
        let (_, reached) = Runs-Held (socks5 inet errors) kind running id start found in
        Relays-relaying inet errors kind id start p w reached relays no_local_write no_remote_write

    at_end :
        (k : Cut) (p q r : Pair State) (w : Wire) (c : Completion)
        → Relays (react inet errors) start p w
        → take_off c p ≡ some q
        → handle (react inet errors) c q ≡ ok (ends r)
        → InOrder (observe k c p w)
    at_end k p q r w c history taken answered =
        let (there, still, carrying) = so_far p w history in
        at_end-InOrder k p q {r = r} w c still (Reaches-IsTidy inet errors kind id there) taken
          answered carrying

    in_order : (p : Pair State) (w : Wire) → Relays (react inet errors) start p w → InOrder w
    unfolding accepted StreamManager.new_pair
    in_order p w =
        let (_, reached) = Runs-Held (socks5 inet errors) kind running id start found in
        Relays-InOrder inet errors kind id start p w reached relays no_local_write no_remote_write

    -- While the session is held, it has gone through its own completions alone.
    pub Traffic-own :
        {a : Acceptor} {m : StreamManager State} {w : Wire} {now : Pair State}
        → Traffic (socks5 inet errors) kind id first before a m w
        → Table.find id m.sessions ≡ some now
        → Relays (react inet errors) start now w
    Traffic-own traffic at =
        Traffic-Relays (socks5 inet errors) kind id start in_order at_end running found traffic at
