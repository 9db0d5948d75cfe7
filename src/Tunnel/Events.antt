-- ===== src/Tunnel/Events.antt =====
-- amgi_tunnel/session.hpp: what asio reports to a session, and what the completion handlers do with it. Only an
-- operation that was started completes, each once.
use amgi_net_tools.Base.{
  ℕ, zero, suc, Bool, true, false, [], ◌∷◌, ◌++◌, Bytes, Option, none, length, drop, leb,
  if◌then◌else◌,
}
use amgi_net_tools.Base.Pipe.{first_or}
use amgi_net_tools.Proxy.Network.{fewer, later, map_option}
use amgi_net_tools.Tunnel.Session.{
  Session, max_buff_size, do_connect, handshake, do_read_from_local, do_read_from_remote,
  do_write_to_remote, do_write_to_local, close,
}

-- The operations that can fail.
pub data Op : Type 0 where
  resolve connect shake read_local read_remote write_remote write_local : Op

pub data Event : Type 0 where
  resolved connected handshaken : Event
  local_received remote_received : Bytes → Event
  remote_sent local_sent : Event
  failed : Op → Event
  remote_cut local_cut : ℕ → Event  -- a write that fails once some of its bytes went out
  shut_down : Event

unfoldable pub done : Op → Session → Option Session
done resolve s = map_option (λ n. record s { resolves = n }) (fewer s.resolves)
done connect s = map_option (λ n. record s { connects = n }) (fewer s.connects)
done shake s = map_option (λ n. record s { handshakes = n }) (fewer s.handshakes)
done read_local s = map_option (λ n. record s { local_reads = n }) (fewer s.local_reads)
done read_remote s = map_option (λ n. record s { remote_reads = n }) (fewer s.remote_reads)
done write_remote s = map_option (λ ns. record s { remote_writes = ns }) (later s.remote_writes)
done write_local s = map_option (λ ns. record s { local_writes = ns }) (later s.local_writes)

-- The session with the completed operation taken off, `none` where no such operation was started. A read
-- brings no more than its buffer holds.
unfoldable pub take_off : Event → Session → Option Session
unfolding done
take_off resolved s = done resolve s
take_off connected s = done connect s
take_off handshaken s = done shake s
take_off (local_received bytes) s =
    if leb (length bytes) max_buff_size then done read_local s else none
take_off (remote_received bytes) s =
    if leb (length bytes) max_buff_size then done read_remote s else none
take_off remote_sent s = done write_remote s
take_off local_sent s = done write_local s
take_off (failed op) s = done op s
take_off (remote_cut k) s = done write_remote s
take_off (local_cut k) s = done write_local s
take_off shut_down s = map_option (λ n. record s { closings = n }) (fewer s.closings)

-- A buffer once a read has filled its beginning.
unfoldable pub fill : Bytes → Bytes → Bytes
fill bytes buffer = bytes ++ drop (length bytes) buffer

-- What a completion handler does, and whether it has the session leave the manager. `n` is the length of the
-- write that completes.
unfoldable pub handle : Event → ℕ → Session → Session × Bool
unfolding fill
handle resolved n s = (do_connect s, false)
handle connected n s = (handshake s, false)
handle handshaken n s = (do_read_from_remote (do_read_from_local s), false)
handle (local_received []) n s = (s, true)
handle (local_received (b ∷ bs)) n s = (
  do_write_to_remote (length (b ∷ bs)) (record s { local_buffer = fill (b ∷ bs) s.local_buffer }),
  false,
)
handle (remote_received []) n s = (s, true)
handle (remote_received (b ∷ bs)) n s = (
  do_write_to_local (length (b ∷ bs)) (record s { remote_buffer = fill (b ∷ bs) s.remote_buffer }),
  false,
)
handle remote_sent zero s = (s, true)
handle remote_sent (suc n) s = (do_read_from_local s, false)
handle local_sent zero s = (s, true)
handle local_sent (suc n) s = (do_read_from_remote s, false)
handle (failed op) n s = (s, true)
handle (remote_cut k) n s = (s, true)
handle (local_cut k) n s = (s, true)
handle shut_down n s = (record s { remote_is_open = false }, false)

-- The length of the write that an event completes, 0 if it completes none.
unfoldable pub written : Event → Session → ℕ
unfolding first_or
written remote_sent s = first_or 0 s.remote_writes
written local_sent s = first_or 0 s.local_writes
written (remote_cut k) s = first_or 0 s.remote_writes
written (local_cut k) s = first_or 0 s.local_writes
written _ s = 0

-- `manager_.leave` stops the session.
unfoldable pub settle : Session × Bool → Session
settle (s, leaves) = if leaves then close s else s
