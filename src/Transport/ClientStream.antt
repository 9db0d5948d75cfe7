-- ===== src/Transport/ClientStream.antt =====
-- The side that connects to the remote host: tcp_client_stream.cpp. An asynchronous operation that
-- is started and not yet completed is counted.
use amgi_net_tools.Base.{
  ℕ, ◌+◌, Bool, true, false, List, [], ◌∷◌, ◌++◌, Bytes, length, Result, ok, ◌>>=◌,
}
use amgi_net_tools.Transport.Buffer.{copy_into, zeroed_buffer}

pub record ClientStream : Type 0 where
  pub id : ℕ
  pub host : Bytes
  pub port : Bytes
  pub is_shut : Bool
  pub resolves : ℕ
  pub connects : ℕ
  pub reads : ℕ
  pub writes : List ℕ  -- the lengths of the writes under way, oldest first
  pub write_buffer : Bytes

unfoldable pub make : ℕ → ClientStream
make id = record {
  id = id;
  host = [];
  port = [];
  is_shut = false;
  resolves = 0;
  connects = 0;
  reads = 0;
  writes = [];
  write_buffer = zeroed_buffer;
}

unfoldable pub do_start : ClientStream → ClientStream
do_start s = record s { resolves = s.resolves + 1 }

unfoldable pub do_connect : ClientStream → ClientStream
do_connect s = record s { connects = s.connects + 1 }

unfoldable pub do_stop : ClientStream → ClientStream
do_stop s = record s { is_shut = true }

unfoldable pub do_read : ClientStream → ClientStream
do_read s = record s { reads = s.reads + 1 }

unfoldable pub do_write : Bytes → ClientStream → Result ClientStream
do_write event s = do
  buffer ← copy_into event s.write_buffer
  ok (record s { write_buffer = buffer; writes = s.writes ++ length event ∷ [] })

unfoldable pub do_set_host : Bytes → ClientStream → ClientStream
do_set_host host s = record s { host = host }

unfoldable pub do_set_service : Bytes → ClientStream → ClientStream
do_set_service service s = record s { port = service }
