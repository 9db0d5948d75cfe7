-- ===== src/Tests/Tunnelling.antt =====
-- An HTTP session over TLS from its CONNECT request to the relay of a byte.
use amgi_net_tools.Base.{
  ℕ, List, ◌≡◌, refl, Bytes, [], ◌∷◌, ◌++◌, codes, drop, length, ok, text_eq_iff, arith,
}
use amgi_net_tools.Transport.Buffer.{zeroed_buffer, length-zeroed_buffer, copy_into, copy_into-fits}
use amgi_net_tools.Transport.ServerStream.{tls}
use amgi_net_tools.Transport.ServerStream
use amgi_net_tools.Transport.ClientStream
use amgi_net_tools.Proxy.Store.{Pair}
use amgi_net_tools.Proxy.StreamManager
use amgi_net_tools.Proxy.Events.{goes_on}
use amgi_net_tools.Proxy.Network.{
  server_sent, server_received, client_resolved, client_connected, client_sent, next, Reaches,
  take_off, handle,
}
use amgi_net_tools.Http.Request.{k_connect, get_headers, get_host, get_service}
use amgi_net_tools.Http.Request.Connect.{connect_request, get_headers-connect_request}
use amgi_net_tools.Http.Text.{is_one_of}
use amgi_net_tools.Http.State.{
  State, connection_established, ready_to_transfer_data, data_transfer_mode, k_http_done,
}
use amgi_net_tools.Http.Automaton.{react, on_request, dial, first_to_local, to_remote}
use amgi_net_tools.Http.Discipline.{accepted}
use amgi_net_tools.Tests.HttpRequests.{start, shaken, shaken-Reaches}

abbrev request : Bytes
request = connect_request (codes "a.org") (codes "443") (codes "Host: a.org")

request_read :
    ((get_headers request).method ≡ k_connect)
    × (get_host (get_headers request) ≡ ok (codes "a.org"))
    × (get_service (get_headers request) ≡ ok (codes "443"))
unfolding is_one_of
request_read =
    get_headers-connect_request 97 (codes ".org") 52 (codes "43") 72 (codes "ost: a.org")
      (refl, (refl, (refl, (refl, (refl, tt))))) (refl, (refl, (refl, tt)))
      (refl, (refl, (refl, (refl, (refl, (refl, (refl, (refl, (refl, (refl, (refl, tt)))))))))))

-- The session that resolves, connects, or has just done so.
abbrev dialling : ℕ → ℕ → Pair State
dialling resolves connects = record (shaken 0) {
  client = record (shaken 0).client {
    host = codes "a.org";
    port = codes "443";
    resolves = resolves;
    connects = connects;
  };
  session = record {
    context = record (shaken 0).session.context {
      host = codes "a.org";
      service = codes "443";
      response = k_http_done;
    };
    state = connection_established;
  };
}

dialling_step : handle react (server_received request) (shaken 0) ≡ ok (goes_on (dialling 1 0))
unfolding accepted StreamManager.new_pair ServerStream.make ServerStream.do_start ClientStream.make
    handle react on_request dial ClientStream.do_start ClientStream.do_set_host
    ClientStream.do_set_service
dialling_step = let (method, host, service) = request_read in rw (host, service, method) refl

resolved_step : handle react client_resolved (dialling 0 0) ≡ ok (goes_on (dialling 0 1))
unfolding handle ClientStream.do_connect
resolved_step = refl

abbrev replying : List ℕ → Pair State
replying writes = record (dialling 0 0) {
  server = record (shaken 0).server {
    writes = writes;
    write_buffer = k_http_done ++ drop (length k_http_done) zeroed_buffer;
  };
  session = record { context = (dialling 0 0).session.context; state = ready_to_transfer_data };
}

done_fits :
    copy_into k_http_done zeroed_buffer
    ≡ ok (k_http_done ++ drop (length k_http_done) zeroed_buffer)
unfolding k_http_done
done_fits = copy_into-fits k_http_done zeroed_buffer (omega (arith, length-zeroed_buffer))

connected_step :
    handle react client_connected (dialling 0 0) ≡ ok (goes_on (replying (length k_http_done ∷ [])))
unfolding accepted StreamManager.new_pair ServerStream.make ServerStream.do_start ClientStream.make
    handle react first_to_local ServerStream.do_write
connected_step =
    let same = (text_eq_iff k_http_done k_http_done).1 refl in rw (same, done_fits) refl

-- The session that tunnels, with reads of the two sides under way, a buffer, the lengths of the writes to the remote
-- side, and the count of the bytes for it.
abbrev pub tunnelling : ℕ → ℕ → Bytes → List ℕ → ℕ → Pair State
tunnelling reads remote_reads buffer writes count = record (replying []) {
  server = record (replying []).server { reads = reads };
  client = record (replying []).client {
    reads = remote_reads;
    writes = writes;
    write_buffer = buffer;
  };
  session = record {
    context = record (replying []).session.context { transferred_bytes_to_remote = count };
    state = data_transfer_mode;
  };
}

replied_step :
    handle react server_sent (replying []) ≡ ok (goes_on (tunnelling 1 1 zeroed_buffer [] 0))
unfolding accepted StreamManager.new_pair ServerStream.make ServerStream.do_start ClientStream.make
    handle react ServerStream.do_read ClientStream.do_read
replied_step = refl

pub tunnelling-Reaches : Reaches react start (tunnelling 1 1 zeroed_buffer [] 0)
unfolding accepted StreamManager.new_pair ServerStream.make ServerStream.do_start ClientStream.make
    take_off
tunnelling-Reaches =
    next {q = replying []} server_sent
      (next {q = dialling 0 0} client_connected
        (next {q = dialling 0 0} client_resolved
          (next {q = shaken 0} (server_received request) shaken-Reaches refl dialling_step) refl
          resolved_step)
        refl connected_step)
      refl replied_step

byte_fits : copy_into (7 ∷ []) zeroed_buffer ≡ ok (7 ∷ drop 1 zeroed_buffer)
byte_fits = copy_into-fits (7 ∷ []) zeroed_buffer (omega (arith, length-zeroed_buffer))

pub received_step :
    handle react (server_received (7 ∷ [])) (tunnelling 0 1 zeroed_buffer [] 0)
    ≡ ok (goes_on (tunnelling 0 1 (7 ∷ drop 1 zeroed_buffer) (1 ∷ []) 1))
unfolding accepted StreamManager.new_pair ServerStream.make ServerStream.do_start ClientStream.make
    handle react to_remote ClientStream.do_write
received_step = rw byte_fits refl

pub sent_step :
    handle react client_sent (tunnelling 0 1 (7 ∷ drop 1 zeroed_buffer) [] 1)
    ≡ ok (goes_on (tunnelling 1 1 (7 ∷ drop 1 zeroed_buffer) [] 1))
unfolding accepted StreamManager.new_pair ServerStream.make ServerStream.do_start ClientStream.make
    handle react ServerStream.do_read
sent_step = refl
