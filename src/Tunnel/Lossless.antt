-- ===== src/Tunnel/Lossless.antt =====
-- amgi_tunnel/session.hpp: what a session of the tunnel passes on, in any order of events.
use amgi_net_tools.Base.{inl, inr, [], arith}
use amgi_net_tools.Tunnel.Session.{Session, max_buff_size}
use amgi_net_tools.Base.Pipe.{Pipe-rest, Passes}
use amgi_net_tools.Tunnel.Relay.{Relays}
use amgi_net_tools.Base.Pipe.{Wire}
use amgi_net_tools.Tunnel.Order.{Relays-IsOrderly}

-- In any order of the events of a session, what left on each side is a beginning of what came in on the other, in its
-- order, and no more than one buffer is still to leave.
pub Relays-Passes :
    (s : Session) (w : Wire)
    → Relays s w
    → Passes max_buff_size w.from_local w.to_remote × Passes max_buff_size w.from_remote w.to_local
Relays-Passes s w history = elim (Relays-IsOrderly history) [
  | inl o ↦ (([], ground arith, omega arith), ([], ground arith, omega arith))
  | inr r ↦
      let (out, out_same, out_fits) = Pipe-rest r.outwards in
      let (inn, in_same, in_fits) = Pipe-rest r.inwards in
      ((out, out_same, out_fits), (inn, in_same, in_fits))
]
