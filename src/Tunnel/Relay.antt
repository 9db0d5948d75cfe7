-- ===== src/Tunnel/Relay.antt =====
-- What a session of the tunnel passes on: the bytes that come from each side, and those that leave on the other.
use amgi_net_tools.Base.{ℕ, ◌≡◌, ◌++◌, some, take}
use amgi_net_tools.Base.Pipe.{Wire, silence}
use amgi_net_tools.Tunnel.Session.{Session, create, start}
use amgi_net_tools.Tunnel.Events.{
  Event, local_received, remote_received, remote_sent, local_sent, remote_cut, local_cut, take_off,
  handle, written, settle,
}

-- A write sends the first bytes of its buffer, as they are when it completes, and a write that fails may have sent some
-- of them.
abbrev pub observe : Event → ℕ → Session → Wire → Wire
observe (local_received bytes) n s w = record w { from_local = w.from_local ++ bytes }
observe (remote_received bytes) n s w = record w { from_remote = w.from_remote ++ bytes }
observe remote_sent n s w = record w { to_remote = w.to_remote ++ take n s.local_buffer }
observe local_sent n s w = record w { to_local = w.to_local ++ take n s.remote_buffer }
observe (remote_cut k) n s w = record w {
  to_remote = w.to_remote ++ take k (take n s.local_buffer);
}
observe (local_cut k) n s w = record w { to_local = w.to_local ++ take k (take n s.remote_buffer) }
observe _ n s w = w

-- The sessions that an accepted one goes through, and the bytes that have passed.
pub data Relays : Session → Wire → Type 0 where
  accepted : Relays (start create) silence
  completed :
      {s t : Session} {w : Wire} (e : Event)
      → Relays s w
      → take_off e s ≡ some t
      → Relays (settle (handle e (written e s) t)) (observe e (written e s) t w)
