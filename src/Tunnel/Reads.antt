-- ===== src/Tunnel/Reads.antt =====
-- amgi_tunnel/session.hpp: a read that completes in a session that relays.
use amgi_net_tools.Base.{◌≡◌, sym, [], ◌∷◌, ◌++◌, Bytes, some, length, leb, arith}
use mathlib.Core.Path.{subst}
use mathlib.Core.List.{append-nil}
use amgi_net_tools.Tunnel.Session.{
  Session, max_buff_size, close, do_write_to_remote, do_write_to_local,
}
use amgi_net_tools.Tunnel.Events.{
  local_received, remote_received, take_off, handle, written, settle,
}
use amgi_net_tools.Tunnel.Events.{fill}
use amgi_net_tools.Base.Pipe.{Pipe, Pipe-receive, Pipe-read_failed}
use amgi_net_tools.Base.Pipe.{Wire}
use amgi_net_tools.Tunnel.Completion.{fewer-some, guarded-some}
use amgi_net_tools.Tunnel.Relaying.{IsRelaying, close-IsRelaying, take-fill, After}

module _ (s t : Session) (w : Wire) (r : IsRelaying s w) where
  pub local_received-IsRelaying :
      (bytes : Bytes)
      → take_off (local_received bytes) s ≡ some t
      → After s t w (local_received bytes)
  unfolding take_off settle handle do_write_to_remote written
  local_received-IsRelaying [] taken =
      fewer-some (λ u. IsRelaying (close u) (record w { from_local = w.from_local ++ [] }))
        (λ n. record s { local_reads = n }) s.local_reads (ground (arith, taken))
        λ k one.
          let ended = Pipe-read_failed one r.outwards in
          close-IsRelaying _ _ (record {
            no_step = r.no_step;
            outwards =
                subst (λ l. Pipe max_buff_size k s.remote_writes s.local_buffer l w.to_remote)
                  (sym (append-nil w.from_local)) ended;
            inwards = r.inwards;
          })
  local_received-IsRelaying (b ∷ bs) taken =
      let (fits, was_some) = guarded-some (leb (length (b ∷ bs)) max_buff_size) taken in
      fewer-some
        (λ u.
          IsRelaying (handle (local_received (b ∷ bs)) 0 u).0
            (record w { from_local = w.from_local ++ b ∷ bs }))
        (λ n. record s { local_reads = n }) s.local_reads was_some
        λ k one.
          let filled =
            Pipe-receive (b ∷ bs) (fill (b ∷ bs) s.local_buffer) (take-fill (b ∷ bs) s.local_buffer)
              (ground (arith, fits)) one r.outwards in
          record { no_step = r.no_step; outwards = filled; inwards = r.inwards }

  pub remote_received-IsRelaying :
      (bytes : Bytes)
      → take_off (remote_received bytes) s ≡ some t
      → After s t w (remote_received bytes)
  unfolding take_off settle handle do_write_to_local written
  remote_received-IsRelaying [] taken =
      fewer-some (λ u. IsRelaying (close u) (record w { from_remote = w.from_remote ++ [] }))
        (λ n. record s { remote_reads = n }) s.remote_reads (ground (arith, taken))
        λ k one.
          let ended = Pipe-read_failed one r.inwards in
          close-IsRelaying _ _ (record {
            no_step = r.no_step;
            outwards = r.outwards;
            inwards =
                subst (λ l. Pipe max_buff_size k s.local_writes s.remote_buffer l w.to_local)
                  (sym (append-nil w.from_remote)) ended;
          })
  remote_received-IsRelaying (b ∷ bs) taken =
      let (fits, was_some) = guarded-some (leb (length (b ∷ bs)) max_buff_size) taken in
      fewer-some
        (λ u.
          IsRelaying (handle (remote_received (b ∷ bs)) 0 u).0
            (record w { from_remote = w.from_remote ++ b ∷ bs }))
        (λ n. record s { remote_reads = n }) s.remote_reads was_some
        λ k one.
          let filled =
            Pipe-receive (b ∷ bs) (fill (b ∷ bs) s.remote_buffer)
              (take-fill (b ∷ bs) s.remote_buffer) (ground (arith, fits)) one r.inwards in
          record { no_step = r.no_step; outwards = r.outwards; inwards = filled }
