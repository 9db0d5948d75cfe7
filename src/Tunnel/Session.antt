-- ===== src/Tunnel/Session.antt =====
-- amgi_tunnel/session.hpp: the data of a session, and the operations that it starts. An asynchronous operation
-- that is started and not yet completed is counted. What is printed is left out, and so is `close_ssl`, which
-- nothing calls.
use amgi_net_tools.Base.{
  ℕ, ◌+◌, Bool, true, false, List, [], ◌∷◌, ◌++◌, Bytes, replicate, if◌then◌else◌,
}

abbrev pub max_buff_size : ℕ
max_buff_size = 0x4000

-- The array as the constructor leaves it.
pub zeroed_buffer : Bytes
zeroed_buffer = replicate max_buff_size 0

pub record Session : Type 0 where
  pub local_is_open : Bool
  pub remote_is_open : Bool
  pub resolves : ℕ
  pub connects : ℕ
  pub handshakes : ℕ
  pub local_reads : ℕ
  pub remote_reads : ℕ
  pub remote_writes : List ℕ  -- the lengths of the writes under way, oldest first
  pub local_writes : List ℕ
  pub closings : ℕ  -- the TLS shutdown and the empty write that forces it out
  pub local_buffer : Bytes
  pub remote_buffer : Bytes

-- A session as `create` makes it.
unfoldable pub create : Session
create = record {
  local_is_open = false;
  remote_is_open = false;
  resolves = 0;
  connects = 0;
  handshakes = 0;
  local_reads = 0;
  remote_reads = 0;
  remote_writes = [];
  local_writes = [];
  closings = 0;
  local_buffer = zeroed_buffer;
  remote_buffer = zeroed_buffer;
}

unfoldable pub do_resolve : Session → Session
do_resolve s = record s { resolves = s.resolves + 1 }

-- `async_connect` opens the socket.
unfoldable pub do_connect : Session → Session
do_connect s = record s { connects = s.connects + 1; remote_is_open = true }

unfoldable pub handshake : Session → Session
handshake s = record s { handshakes = s.handshakes + 1 }

unfoldable pub do_read_from_local : Session → Session
do_read_from_local s = record s { local_reads = s.local_reads + 1 }

unfoldable pub do_read_from_remote : Session → Session
do_read_from_remote s = record s { remote_reads = s.remote_reads + 1 }

unfoldable pub do_write_to_remote : ℕ → Session → Session
do_write_to_remote n s = record s { remote_writes = s.remote_writes ++ n ∷ [] }

unfoldable pub do_write_to_local : ℕ → Session → Session
do_write_to_local n s = record s { local_writes = s.local_writes ++ n ∷ [] }

-- `start`, but for the call of the manager: the accepted socket is open.
unfoldable pub start : Session → Session
unfolding do_resolve
start s = do_resolve (record s { local_is_open = true })

close_remote : Session → Session
close_remote s = if s.remote_is_open then record s { closings = s.closings + 2 } else s

-- The local socket is closed at once, the remote one by the handlers of the shutdown. The operations that this
-- cancels complete with an error.
unfoldable pub close : Session → Session
unfolding close_remote
close s = close_remote (record s { local_is_open = false })
