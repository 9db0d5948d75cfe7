-- ===== src/Tunnel/Writes.antt =====
-- amgi_tunnel/session.hpp: a write that completes or fails in a session that relays.
use amgi_net_tools.Base.{ℕ, zero, suc, ◌≡◌, sym, List, ◌∷◌, some}
use mathlib.Core.Path.{subst}
use mathlib.Core.List.{append-nil}
use amgi_net_tools.Tunnel.Session.{
  Session, max_buff_size, close, do_read_from_local, do_read_from_remote,
}
use amgi_net_tools.Tunnel.Events.{
  remote_sent, local_sent, remote_cut, local_cut, take_off, handle, written, settle, done,
}
use amgi_net_tools.Base.Pipe.{first_or}
use amgi_net_tools.Base.Pipe.{Pipe, Pipe-sent, Pipe-write_failed, Pipe-cut}
use amgi_net_tools.Tunnel.Relay.{observe}
use amgi_net_tools.Base.Pipe.{Wire}
use amgi_net_tools.Tunnel.Completion.{later-some}
use amgi_net_tools.Tunnel.Relaying.{IsRelaying, close-IsRelaying, After}

module _ (s t : Session) (w : Wire) (r : IsRelaying s w) where
  remote_sent_of-IsRelaying :
      (m : ℕ) (ms : List ℕ)
      → s.remote_writes ≡ m ∷ ms
      → IsRelaying
          (settle (handle remote_sent m (record s { remote_writes = ms })))
          (observe remote_sent m (record s { remote_writes = ms }) w)
  unfolding settle handle do_read_from_local
  remote_sent_of-IsRelaying zero ms one =
      let ended = Pipe-write_failed zero one r.outwards in
      close-IsRelaying (record s { remote_writes = ms }) _
        (record {
          no_step = r.no_step;
          outwards =
              subst (λ l. Pipe max_buff_size s.local_reads ms s.local_buffer w.from_local l)
                (sym (append-nil w.to_remote)) ended;
          inwards = r.inwards;
        })
  remote_sent_of-IsRelaying (suc m) ms one =
      let went = Pipe-sent (suc m) one r.outwards in
      record { no_step = r.no_step; outwards = went; inwards = r.inwards }

  pub remote_sent-IsRelaying : take_off remote_sent s ≡ some t → After s t w remote_sent
  unfolding take_off done written first_or
  remote_sent-IsRelaying taken =
      later-some
        (λ u.
          IsRelaying (settle (handle remote_sent (first_or 0 s.remote_writes) u))
            (observe remote_sent (first_or 0 s.remote_writes) u w))
        (λ ns. record s { remote_writes = ns }) s.remote_writes taken
        λ m ms one.
          let v = record s { remote_writes = ms } in
          subst
            (λ ns.
              IsRelaying (settle (handle remote_sent (first_or 0 ns) v))
                (observe remote_sent (first_or 0 ns) v w))
            (sym one) (remote_sent_of-IsRelaying m ms one)

  local_sent_of-IsRelaying :
      (m : ℕ) (ms : List ℕ)
      → s.local_writes ≡ m ∷ ms
      → IsRelaying
          (settle (handle local_sent m (record s { local_writes = ms })))
          (observe local_sent m (record s { local_writes = ms }) w)
  unfolding settle handle do_read_from_remote
  local_sent_of-IsRelaying zero ms one =
      let ended = Pipe-write_failed zero one r.inwards in
      close-IsRelaying (record s { local_writes = ms }) _
        (record {
          no_step = r.no_step;
          outwards = r.outwards;
          inwards =
              subst (λ l. Pipe max_buff_size s.remote_reads ms s.remote_buffer w.from_remote l)
                (sym (append-nil w.to_local)) ended;
        })
  local_sent_of-IsRelaying (suc m) ms one =
      let went = Pipe-sent (suc m) one r.inwards in
      record { no_step = r.no_step; outwards = r.outwards; inwards = went }

  pub local_sent-IsRelaying : take_off local_sent s ≡ some t → After s t w local_sent
  unfolding take_off done written first_or
  local_sent-IsRelaying taken =
      later-some
        (λ u.
          IsRelaying (settle (handle local_sent (first_or 0 s.local_writes) u))
            (observe local_sent (first_or 0 s.local_writes) u w))
        (λ ns. record s { local_writes = ns }) s.local_writes taken
        λ m ms one.
          let v = record s { local_writes = ms } in
          subst
            (λ ns.
              IsRelaying (settle (handle local_sent (first_or 0 ns) v))
                (observe local_sent (first_or 0 ns) v w))
            (sym one) (local_sent_of-IsRelaying m ms one)

  pub remote_cut-IsRelaying :
      (k : ℕ) → take_off (remote_cut k) s ≡ some t → After s t w (remote_cut k)
  unfolding take_off done written first_or settle handle
  remote_cut-IsRelaying k taken =
      later-some
        (λ u. IsRelaying (close u) (observe (remote_cut k) (first_or 0 s.remote_writes) u w))
        (λ ns. record s { remote_writes = ns }) s.remote_writes taken
        λ m ms one.
          let v = record s { remote_writes = ms } in
          let cut = Pipe-cut k m one r.outwards in
          subst (λ ns. IsRelaying (close v) (observe (remote_cut k) (first_or 0 ns) v w)) (sym one)
            (close-IsRelaying v (observe (remote_cut k) m v w)
              (record { no_step = r.no_step; outwards = cut; inwards = r.inwards }))

  pub local_cut-IsRelaying : (k : ℕ) → take_off (local_cut k) s ≡ some t → After s t w (local_cut k)
  unfolding take_off done written first_or settle handle
  local_cut-IsRelaying k taken =
      later-some (λ u. IsRelaying (close u) (observe (local_cut k) (first_or 0 s.local_writes) u w))
        (λ ns. record s { local_writes = ns }) s.local_writes taken
        λ m ms one.
          let v = record s { local_writes = ms } in
          let cut = Pipe-cut k m one r.inwards in
          subst (λ ns. IsRelaying (close v) (observe (local_cut k) (first_or 0 ns) v w)) (sym one)
            (close-IsRelaying v (observe (local_cut k) m v w)
              (record { no_step = r.no_step; outwards = r.outwards; inwards = cut }))
