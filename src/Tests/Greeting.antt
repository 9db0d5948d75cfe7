-- ===== src/Tests/Greeting.antt =====
-- A SOCKS5 session over TLS from its handshake to its connection request.
use amgi_net_tools.Base.{ℕ, ◌≡◌, refl, Bytes, [], ◌∷◌, drop, none, ok, fault, over_read, arith}
use amgi_net_tools.Transport.Buffer.{zeroed_buffer, length-zeroed_buffer, copy_into, copy_into-fits}
use amgi_net_tools.Transport.ServerStream.{tls}
use amgi_net_tools.Transport.ServerStream
use amgi_net_tools.Proxy.Store.{Pair}
use amgi_net_tools.Proxy.StreamManager
use amgi_net_tools.Proxy.Events.{goes_on}
use amgi_net_tools.Proxy.Network.{
  server_handshaken, server_sent, server_received, here, next, Reaches, take_off, handle,
}
use amgi_net_tools.Socks5.Packet.{
  is_socks5_auth_request, is_valid_request_packet, get_remote_address_info,
}
use amgi_net_tools.Socks5.State.{State, connection_request}
use amgi_net_tools.Socks5.Automaton.{react, on_hello, on_request}
use amgi_net_tools.Socks5.Discipline.{accepted}
use amgi_net_tools.Tests.Samples.{sample_inet, linux_errors}

abbrev pub start : Pair State
start = accepted (ServerStream.make tls 1)

-- The session once the TLS handshake is done, with a read under way or with none.
abbrev pub shaken : ℕ → Pair State
shaken reads = record start { server = record (ServerStream.make tls 1) { reads = reads } }

pub shaken_step :
    handle (react sample_inet linux_errors) server_handshaken (shaken 0) ≡ ok (goes_on (shaken 1))
unfolding accepted StreamManager.new_pair ServerStream.do_start ServerStream.make handle
    ServerStream.do_read
shaken_step = refl

abbrev pub hello : Bytes
hello = 5 ∷ 1 ∷ 0 ∷ []

-- The session that waits for its connection request.
abbrev pub waiting : ℕ → Pair State
waiting reads = record start {
  server = record (ServerStream.make tls 1) {
    reads = reads;
    write_buffer = 5 ∷ 0 ∷ drop 2 zeroed_buffer;
  };
  session = record {
    context = record start.session.context { response = 5 ∷ 0 ∷ [] };
    state = connection_request;
  };
}

-- The session once a good hello is answered.
abbrev pub greeted : Pair State
greeted = record (waiting 0) { server = record (waiting 0).server { writes = 2 ∷ [] } }

two_fit : copy_into (5 ∷ 0 ∷ []) zeroed_buffer ≡ ok (5 ∷ 0 ∷ drop 2 zeroed_buffer)
two_fit = copy_into-fits (5 ∷ 0 ∷ []) zeroed_buffer (omega (arith, length-zeroed_buffer))

hello_accepted : is_socks5_auth_request hello ≡ ok none
unfolding is_socks5_auth_request
hello_accepted = refl

pub greeted_step :
    handle (react sample_inet linux_errors) (server_received hello) (shaken 0)
    ≡ ok (goes_on greeted)
unfolding accepted StreamManager.new_pair ServerStream.do_start ServerStream.make handle react
    on_hello ServerStream.do_write
greeted_step = rw (hello_accepted, two_fit)

pub waiting_step :
    handle (react sample_inet linux_errors) server_sent (waiting 0) ≡ ok (goes_on (waiting 1))
unfolding accepted StreamManager.new_pair ServerStream.make handle react ServerStream.do_read
waiting_step = refl

pub waiting-Reaches : Reaches (react sample_inet linux_errors) start (waiting 1)
unfolding accepted StreamManager.new_pair ServerStream.do_start ServerStream.make take_off
waiting-Reaches =
    next server_sent
      (next (server_received hello) (next {q = shaken 0} server_handshaken here refl shaken_step)
        refl greeted_step)
      refl waiting_step

-- A connection request that announces a name of 200 bytes in a packet of 10.
abbrev pub cut_request : Bytes
cut_request = 5 ∷ 1 ∷ 0 ∷ 3 ∷ 200 ∷ 97 ∷ 98 ∷ 99 ∷ 0 ∷ 80 ∷ []

pub cut_request_fails :
    handle (react sample_inet linux_errors) (server_received cut_request) (waiting 0)
    ≡ fault over_read
unfolding handle react on_request is_valid_request_packet get_remote_address_info
cut_request_fails = refl
