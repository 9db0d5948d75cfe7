-- ===== src/Transport/ServerStream.antt =====
-- The accepted side of a session: tcp_server_stream.cpp and tls/tls_server_stream.cpp behind the
-- interface of stream.h. An asynchronous operation that is started and not yet completed is counted.
use amgi_net_tools.Base.{
  ℕ, ◌+◌, Bool, true, false, List, [], ◌∷◌, ◌++◌, Bytes, length, Result, ok, ◌>>=◌, if◌then◌else◌,
}
use amgi_net_tools.Transport.Buffer.{copy_into, zeroed_buffer}

pub data Kind : Type 0 where
  tcp tls : Kind

pub record ServerStream : Type 0 where
  pub id : ℕ
  pub kind : Kind
  pub is_open : Bool
  pub is_shut : Bool
  pub handshakes : ℕ
  pub reads : ℕ
  pub writes : List ℕ  -- the lengths of the writes under way, oldest first
  pub write_buffer : Bytes
  pub shutdowns : ℕ  -- the TLS shutdown and the empty write that forces it out

-- A stream as `async_accept` hands it over: connected, with nothing started on it.
unfoldable pub make : Kind → ℕ → ServerStream
make kind id = record {
  id = id;
  kind = kind;
  is_open = true;
  is_shut = false;
  handshakes = 0;
  reads = 0;
  writes = [];
  write_buffer = zeroed_buffer;
  shutdowns = 0;
}

unfoldable pub do_read : ServerStream → ServerStream
do_read s = record s { reads = s.reads + 1 }

unfoldable pub do_write : Bytes → ServerStream → Result ServerStream
do_write event s = do
  buffer ← copy_into event s.write_buffer
  ok (record s { write_buffer = buffer; writes = s.writes ++ length event ∷ [] })

unfoldable pub do_handshake : ServerStream → ServerStream
do_handshake s = record s { handshakes = s.handshakes + 1 }

-- `tcp_server_stream` reads at once, `tls_server_stream` after its handshake.
start_as : Kind → ServerStream → ServerStream
unfolding do_read do_handshake
start_as tcp s = do_read s
start_as tls s = do_handshake s

unfoldable pub do_start : ServerStream → ServerStream
unfolding start_as
do_start s = start_as s.kind s

stop_as : Kind → ServerStream → ServerStream
stop_as tcp s = record s { is_shut = true }
stop_as tls s = if s.is_open then record s { is_shut = true; shutdowns = s.shutdowns + 2 } else s

unfoldable pub do_stop : ServerStream → ServerStream
unfolding stop_as
do_stop s = stop_as s.kind s
