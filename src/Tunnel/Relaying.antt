-- ===== src/Tunnel/Relaying.antt =====
-- amgi_tunnel/session.hpp: a session once the TLS handshake with the remote side is done.
use amgi_net_tools.Base.{◌+◌, ◌≡◌, Bytes, length}
use amgi_net_tools.Tunnel.Session.{Session, max_buff_size, close}
use amgi_net_tools.Tunnel.Events.{Event, handle, written, settle}
use amgi_net_tools.Base.{take, take-append, drop}
use amgi_net_tools.Tunnel.Events.{fill}
use amgi_net_tools.Base.Pipe.{Pipe}
use amgi_net_tools.Tunnel.Relay.{observe}
use amgi_net_tools.Base.Pipe.{Wire}
use amgi_net_tools.Tunnel.Completion.{if-either}

-- Each direction goes on by itself.
pub record IsRelaying (s : Session) (w : Wire) : Type 0 where
  pub no_step : s.resolves + s.connects + s.handshakes ≡ 0
  pub outwards :
      Pipe max_buff_size s.local_reads s.remote_writes s.local_buffer w.from_local w.to_remote
  pub inwards :
      Pipe max_buff_size s.remote_reads s.local_writes s.remote_buffer w.from_remote w.to_local

pub take-fill : (bytes buffer : Bytes) → take (length bytes) (fill bytes buffer) ≡ bytes
unfolding fill
take-fill bytes buffer = take-append bytes (drop (length bytes) buffer)

-- Closing changes nothing of this.
pub close-IsRelaying : (s : Session) (w : Wire) → IsRelaying s w → IsRelaying (close s) w
unfolding close
close-IsRelaying s w r =
    if-either (λ u. IsRelaying u w) s.remote_is_open
      (record { no_step = r.no_step; outwards = r.outwards; inwards = r.inwards })
      (record { no_step = r.no_step; outwards = r.outwards; inwards = r.inwards })

-- After the completion of an event, which left the session `t`.
abbrev pub After : (s t : Session) → Wire → Event → Type 0
After s t w e = IsRelaying (settle (handle e (written e s) t)) (observe e (written e s) t w)
