-- ===== src/Tunnel/Step.antt =====
-- amgi_tunnel/session.hpp: whatever completes in a session that relays, it goes on to relay.
use amgi_net_tools.Base.{◌≡◌, false, some, arith}
use amgi_net_tools.Tunnel.Session.{Session}
use amgi_net_tools.Tunnel.Events.{
  Op, read_local, read_remote, write_remote, write_local, Event, local_received, remote_received,
  remote_sent, local_sent, remote_cut, local_cut, failed, shut_down, take_off, handle, settle, done,
}
use amgi_net_tools.Base.Pipe.{Pipe-read_failed, Pipe-write_failed}
use amgi_net_tools.Base.Pipe.{Wire}
use amgi_net_tools.Tunnel.Completion.{fewer-some, later-some}
use amgi_net_tools.Tunnel.Relaying.{IsRelaying, close-IsRelaying, After}
use amgi_net_tools.Tunnel.Reads.{local_received-IsRelaying, remote_received-IsRelaying}
use amgi_net_tools.Tunnel.Writes.{
  remote_sent-IsRelaying, local_sent-IsRelaying, remote_cut-IsRelaying, local_cut-IsRelaying,
}

module _ (s t : Session) (w : Wire) (r : IsRelaying s w) where
  failed-IsRelaying : (op : Op) → done op s ≡ some t → IsRelaying t w
  unfolding done
  failed-IsRelaying read_local taken =
      fewer-some (λ u. IsRelaying u w) (λ n. record s { local_reads = n }) s.local_reads taken
        λ k one. record {
          no_step = r.no_step;
          outwards = Pipe-read_failed one r.outwards;
          inwards = r.inwards;
        }
  failed-IsRelaying read_remote taken =
      fewer-some (λ u. IsRelaying u w) (λ n. record s { remote_reads = n }) s.remote_reads taken
        λ k one. record {
          no_step = r.no_step;
          outwards = r.outwards;
          inwards = Pipe-read_failed one r.inwards;
        }
  failed-IsRelaying write_remote taken =
      later-some (λ u. IsRelaying u w) (λ ns. record s { remote_writes = ns }) s.remote_writes taken
        λ m ms one. record {
          no_step = r.no_step;
          outwards = Pipe-write_failed m one r.outwards;
          inwards = r.inwards;
        }
  failed-IsRelaying write_local taken =
      later-some (λ u. IsRelaying u w) (λ ns. record s { local_writes = ns }) s.local_writes taken
        λ m ms one. record {
          no_step = r.no_step;
          outwards = r.outwards;
          inwards = Pipe-write_failed m one r.inwards;
        }
  failed-IsRelaying _ taken = absurd (ground (arith, taken))

  pub IsRelaying-step : (e : Event) → take_off e s ≡ some t → After s t w e
  unfolding take_off settle handle done
  IsRelaying-step (local_received bytes) taken = local_received-IsRelaying s t w r bytes taken
  IsRelaying-step (remote_received bytes) taken = remote_received-IsRelaying s t w r bytes taken
  IsRelaying-step remote_sent taken = remote_sent-IsRelaying s t w r taken
  IsRelaying-step local_sent taken = local_sent-IsRelaying s t w r taken
  IsRelaying-step (remote_cut k) taken = remote_cut-IsRelaying s t w r k taken
  IsRelaying-step (local_cut k) taken = local_cut-IsRelaying s t w r k taken
  IsRelaying-step (failed op) taken = close-IsRelaying t w (failed-IsRelaying op taken)
  IsRelaying-step shut_down taken =
      fewer-some (λ u. IsRelaying (record u { remote_is_open = false }) w)
        (λ n. record s { closings = n }) s.closings taken
        λ k one. record { no_step = r.no_step; outwards = r.outwards; inwards = r.inwards }
  IsRelaying-step _ taken = absurd (ground (arith, taken))
