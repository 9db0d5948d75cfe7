-- ===== src/Tests/Samples.antt =====
-- Sessions to state the theorems at.
use amgi_net_tools.Base.{ℕ, Bytes, List, [], codes, some, true, false}
use amgi_net_tools.Transport.Buffer.{zeroed_buffer}
use amgi_net_tools.Transport.ServerStream.{tls}
use amgi_net_tools.Proxy.Errors.{NetErrors}
use amgi_net_tools.Proxy.Store.{Pair}
use amgi_net_tools.Socks5.Packet.{Inet}

-- An `inet_ntop` that always answers one text.
abbrev pub sample_inet : Inet
sample_inet = record { ntop4 = λ b. some (codes "127.0.0.1"); ntop6 = λ b. some (codes "::1") }

-- The numbers of Linux.
abbrev pub linux_errors : NetErrors
linux_errors = record {
  network_unreachable = 101;
  host_unreachable = 113;
  host_not_found = 1;
  no_data = 4;
  connection_refused = 111;
  connection_aborted = 103;
  connection_reset = 104;
  timed_out = 110;
}

-- A session of stream 7 in a state, with a response to send and the numbers of reads of the local side,
-- connects, reads of the remote side, and the lengths of the writes to the remote side.
abbrev pub session_in : {S : Type 0} → S → Bytes → ℕ → ℕ → ℕ → List ℕ → Pair S
session_in state response reads connects remote_reads remote_writes = record {
  id = 7;
  server = record {
    id = 7;
    kind = tls;
    is_open = true;
    is_shut = false;
    handshakes = 0;
    reads = reads;
    writes = [];
    write_buffer = zeroed_buffer;
    shutdowns = 0;
  };
  client = record {
    id = 7;
    host = codes "example.org";
    port = codes "443";
    is_shut = false;
    resolves = 0;
    connects = connects;
    reads = remote_reads;
    writes = remote_writes;
    write_buffer = zeroed_buffer;
  };
  session = record {
    context = record {
      id = 7;
      response = response;
      host = codes "example.org";
      service = codes "443";
      transferred_bytes_to_remote = 0;
      transferred_bytes_to_local = 0;
    };
    state = state;
  };
}
