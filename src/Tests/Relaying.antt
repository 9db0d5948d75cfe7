-- ===== src/Tests/Relaying.antt =====
-- A SOCKS5 session over TLS from its connection request to the relay of a byte.
use amgi_net_tools.Base.{
  ℕ, List, ◌≡◌, refl, Bytes, [], ◌∷◌, ◌++◌, codes, drop, length-drop, ok, arith,
}
use amgi_net_tools.Transport.Buffer.{zeroed_buffer, length-zeroed_buffer, copy_into, copy_into-fits}
use amgi_net_tools.Transport.ServerStream.{tls}
use amgi_net_tools.Transport.ServerStream
use amgi_net_tools.Transport.ClientStream
use amgi_net_tools.Proxy.Store.{Pair}
use amgi_net_tools.Proxy.StreamManager
use amgi_net_tools.Proxy.Events.{goes_on}
use amgi_net_tools.Proxy.Network.{
  server_sent, server_received, client_resolved, client_connected, client_sent, next, Reaches,
  take_off, handle,
}
use amgi_net_tools.Decimal.{decimal}
use amgi_net_tools.Socks5.Packet.{is_valid_request_packet, get_remote_address_info}
use amgi_net_tools.Socks5.State.{
  State, connection_established, ready_to_transfer_data, data_transfer_mode, with_command,
}
use amgi_net_tools.Socks5.Automaton.{react, on_request, dial, reply, to_remote}
use amgi_net_tools.Socks5.Discipline.{accepted}
use amgi_net_tools.Tests.Samples.{sample_inet, linux_errors}
use amgi_net_tools.Tests.Greeting.{start, waiting, waiting-Reaches}

abbrev request : Bytes
request = 5 ∷ 1 ∷ 0 ∷ 1 ∷ 127 ∷ 0 ∷ 0 ∷ 1 ∷ 0 ∷ 80 ∷ []

abbrev answer : Bytes
answer = 5 ∷ 0 ∷ 0 ∷ 1 ∷ 127 ∷ 0 ∷ 0 ∷ 1 ∷ 0 ∷ 80 ∷ []

-- The session that resolves, connects, or has just done so.
abbrev dialling : ℕ → ℕ → Pair State
dialling resolves connects = record (waiting 0) {
  client = record (waiting 0).client {
    host = codes "127.0.0.1";
    port = codes "80";
    resolves = resolves;
    connects = connects;
  };
  session = record {
    context = record (waiting 0).session.context {
      host = codes "127.0.0.1";
      service = codes "80";
      response = request;
    };
    state = connection_established;
  };
}

dialling_step :
    handle (react sample_inet linux_errors) (server_received request) (waiting 0)
    ≡ ok (goes_on (dialling 1 0))
unfolding accepted StreamManager.new_pair ServerStream.make ClientStream.make handle react
    on_request dial ClientStream.do_start ClientStream.do_set_host ClientStream.do_set_service
    is_valid_request_packet get_remote_address_info decimal
dialling_step = refl

resolved_step :
    handle (react sample_inet linux_errors) client_resolved (dialling 0 0)
    ≡ ok (goes_on (dialling 0 1))
unfolding accepted StreamManager.new_pair ServerStream.make ClientStream.make handle
    ClientStream.do_connect
resolved_step = refl

abbrev replying : List ℕ → Pair State
replying writes = record (dialling 0 0) {
  server = record (waiting 0).server {
    writes = writes;
    write_buffer = answer ++ drop 8 (drop 2 zeroed_buffer);
  };
  session = record {
    context = record (dialling 0 0).session.context { response = answer };
    state = ready_to_transfer_data;
  };
}

answer_fits :
    copy_into answer (5 ∷ 0 ∷ drop 2 zeroed_buffer) ≡ ok (answer ++ drop 8 (drop 2 zeroed_buffer))
answer_fits =
    copy_into-fits answer (5 ∷ 0 ∷ drop 2 zeroed_buffer)
      (omega (arith, length-drop 2 zeroed_buffer, length-zeroed_buffer))

connected_step :
    handle (react sample_inet linux_errors) client_connected (dialling 0 0)
    ≡ ok (goes_on (replying (10 ∷ [])))
unfolding accepted StreamManager.new_pair ServerStream.make ClientStream.make handle react reply
    with_command ServerStream.do_write
connected_step = rw answer_fits refl

-- The session that relays, with reads of the two sides under way and the lengths of the writes to the remote side.
abbrev pub relaying : ℕ → ℕ → Bytes → List ℕ → Pair State
relaying reads remote_reads buffer writes = record (replying []) {
  server = record (replying []).server { reads = reads };
  client = record (replying []).client {
    reads = remote_reads;
    writes = writes;
    write_buffer = buffer;
  };
  session = record { context = (replying []).session.context; state = data_transfer_mode };
}

replied_step :
    handle (react sample_inet linux_errors) server_sent (replying [])
    ≡ ok (goes_on (relaying 1 1 zeroed_buffer []))
unfolding accepted StreamManager.new_pair ServerStream.make ClientStream.make handle react
    ServerStream.do_read ClientStream.do_read
replied_step = refl

pub relaying-Reaches :
    Reaches (react sample_inet linux_errors) start (relaying 1 1 zeroed_buffer [])
unfolding accepted StreamManager.new_pair ServerStream.make ClientStream.make take_off
relaying-Reaches =
    next {q = replying []} server_sent
      (next {q = dialling 0 0} client_connected
        (next {q = dialling 0 0} client_resolved
          (next {q = waiting 0} (server_received request) waiting-Reaches refl dialling_step) refl
          resolved_step)
        refl connected_step)
      refl replied_step

-- The session that has counted a byte for the remote side.
abbrev pub counted : ℕ → ℕ → Bytes → List ℕ → Pair State
counted reads remote_reads buffer writes = record (relaying reads remote_reads buffer writes) {
  session = record {
    context = record (replying []).session.context { transferred_bytes_to_remote = 1 };
    state = data_transfer_mode;
  };
}

byte_fits : copy_into (7 ∷ []) zeroed_buffer ≡ ok (7 ∷ drop 1 zeroed_buffer)
byte_fits = copy_into-fits (7 ∷ []) zeroed_buffer (omega (arith, length-zeroed_buffer))

pub received_step :
    handle
      (react sample_inet linux_errors)
      (server_received (7 ∷ []))
      (relaying 0 1 zeroed_buffer [])
    ≡ ok (goes_on (counted 0 1 (7 ∷ drop 1 zeroed_buffer) (1 ∷ [])))
unfolding accepted StreamManager.new_pair ServerStream.make ClientStream.make handle react to_remote
    ClientStream.do_write
received_step = rw byte_fits refl

pub sent_step :
    handle (react sample_inet linux_errors) client_sent (counted 0 1 (7 ∷ drop 1 zeroed_buffer) [])
    ≡ ok (goes_on (counted 1 1 (7 ∷ drop 1 zeroed_buffer) []))
unfolding accepted StreamManager.new_pair ServerStream.make ClientStream.make handle react
    ServerStream.do_read
sent_step = refl
