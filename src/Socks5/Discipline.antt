-- ===== src/Socks5/Discipline.antt =====
-- Which operations of a SOCKS5 session are under way in each of its states.
use amgi_net_tools.Base.{ℕ, ◌+◌, ◌≤◌, ◌≡◌, refl, Bytes, ◌∷◌, length, some, ok, arith}
use amgi_net_tools.Transport.Buffer.{max_buffer_size, length-zeroed_buffer}
use amgi_net_tools.Transport.ServerStream
use amgi_net_tools.Transport.ServerStream.{ServerStream, Kind, tcp, tls}
use amgi_net_tools.Transport.ClientStream
use amgi_net_tools.Proxy.Errors.{NetErrors}
use amgi_net_tools.Proxy.Store.{Pair}
use amgi_net_tools.Proxy.StreamManager
use amgi_net_tools.Proxy.Events.{goes_on}
use amgi_net_tools.Proxy.Load.{Load, load, ClientIdle}
use amgi_net_tools.Proxy.Network.{
  Completion, server_handshaken, server_sent, server_received, client_connected, client_received,
  client_failed, take_off, handle, Reaches, here, next,
}
use amgi_net_tools.Socks5.Packet.{Inet}
use amgi_net_tools.Socks5.State.{
  State, auth_request, connection_request, connection_established, ready_to_transfer_data,
  data_transfer_mode, succeeded, get_response_error_code,
}
use amgi_net_tools.Socks5.Automaton.{reply, finish, react}
use amgi_net_tools.Socks5.Answers.{
  on_hello-Wrote, reply-Wrote, reply-response, on_request-Dialled, to_remote-Relayed,
  to_local-Wrote,
}

-- What is under way in a state. While data is relayed, the bytes of each direction are either awaited
-- from one side or on their way to the other, never both.
abbrev pub Phase : State → Load → Type 0
Phase auth_request l = (l.handshakes + l.server_reads ≡ 1) × (l.server_writes ≡ 0) × ClientIdle l
Phase connection_request l =
    (l.handshakes ≡ 0) × (l.server_reads + l.server_writes ≡ 1) × ClientIdle l
Phase connection_established l =
    (l.handshakes ≡ 0)
    × (l.server_reads ≡ 0)
    × (l.resolves + l.connects + l.server_writes ≡ 1)
    × (l.client_reads ≡ 0)
    × (l.client_writes ≡ 0)
Phase ready_to_transfer_data l =
    (l.handshakes ≡ 0) × (l.server_reads ≡ 0) × (l.server_writes ≡ 1) × ClientIdle l
Phase data_transfer_mode l =
    (l.handshakes ≡ 0)
    × (l.resolves ≡ 0)
    × (l.connects ≡ 0)
    × (l.server_reads + l.client_writes ≡ 1)
    × (l.client_reads + l.server_writes ≡ 1)

-- The response that a state may still send fits the write buffer and has a second byte.
abbrev pub Response : State → Bytes → Type 0
Response connection_established response =
    (2 ≤ length response) × (length response ≤ max_buffer_size)
Response _ response = Unit {0}

pub record IsTidy (p : Pair State) : Type 0 where
  pub phase : Phase p.session.state (load p)
  pub response : Response p.session.state p.session.context.response
  pub server_buffer : length p.server.write_buffer ≡ max_buffer_size
  pub client_buffer : length p.client.write_buffer ≡ max_buffer_size

-- A pair as `on_accept` puts it into the table.
unfoldable pub accepted : ServerStream → Pair State
accepted upstream = StreamManager.new_pair auth_request (ServerStream.do_start upstream)

module _ (inet : Inet) (errors : NetErrors) (p q : Pair State) {r : Pair State} where
  hello-IsTidy :
      (c : Completion)
      → p.session.state ≡ auth_request
      → IsTidy p
      → take_off c p ≡ some q
      → handle (react inet errors) c q ≡ ok (goes_on r)
      → IsTidy r
  unfolding take_off handle react finish ServerStream.do_read
  hello-IsTidy server_handshaken s t taken h = ground arith
  hello-IsTidy (server_received buffer) s t taken h =
      let w = on_hello-Wrote q {r = r} buffer (ground (arith)) in ground (arith, w, w.written)
  hello-IsTidy _ s t taken h = ground arith

  request-IsTidy :
      (c : Completion)
      → p.session.state ≡ connection_request
      → IsTidy p
      → take_off c p ≡ some q
      → handle (react inet errors) c q ≡ ok (goes_on r)
      → IsTidy r
  unfolding take_off handle react finish ServerStream.do_read
  request-IsTidy (server_received buffer) s t taken h =
      let (d, request) = on_request-Dialled q {r = r} inet buffer (ground arith) in
      ground (arith, d, request.long)
  request-IsTidy server_sent s t taken h = ground arith
  request-IsTidy _ s t taken h = ground arith

  established-IsTidy :
      (c : Completion)
      → p.session.state ≡ connection_established
      → IsTidy p
      → take_off c p ≡ some q
      → handle (react inet errors) c q ≡ ok (goes_on r)
      → IsTidy r
  unfolding take_off handle react finish ClientStream.do_connect
  established-IsTidy client_connected s t taken h =
      let w = reply-Wrote q {r = r} succeeded ready_to_transfer_data (ground arith) in
      ground (arith, w, w.written)
  established-IsTidy (client_failed op ec) s t taken h =
      let code = get_response_error_code errors ec in
      let answer : reply code q.session.state q ≡ ok (goes_on r) = ground arith in
      let w = reply-Wrote q {r = r} code q.session.state answer in
      let kept = reply-response q {r = r} code q.session.state answer in
      ground (arith, w, w.written, kept)
  established-IsTidy _ s t taken h = ground arith

  ready-IsTidy :
      (c : Completion)
      → p.session.state ≡ ready_to_transfer_data
      → IsTidy p
      → take_off c p ≡ some q
      → handle (react inet errors) c q ≡ ok (goes_on r)
      → IsTidy r
  unfolding take_off handle react finish ServerStream.do_read ClientStream.do_read
  ready-IsTidy server_sent s t taken h = ground arith
  ready-IsTidy _ s t taken h = ground arith

  transfer-IsTidy :
      (c : Completion)
      → p.session.state ≡ data_transfer_mode
      → IsTidy p
      → take_off c p ≡ some q
      → handle (react inet errors) c q ≡ ok (goes_on r)
      → IsTidy r
  unfolding take_off handle react finish ServerStream.do_read ClientStream.do_read
  transfer-IsTidy (server_received buffer) s t taken h =
      let w = to_remote-Relayed q {r = r} buffer (ground arith) in ground (arith, w, w.written)
  transfer-IsTidy (client_received (b ∷ bs)) s t taken h =
      let w = to_local-Wrote q {r = r} (b ∷ bs) (ground arith) in ground (arith, w, w.written)
  transfer-IsTidy _ s t taken h = ground arith

  step_in-IsTidy :
      (s : State) (c : Completion)
      → p.session.state ≡ s
      → IsTidy p
      → take_off c p ≡ some q
      → handle (react inet errors) c q ≡ ok (goes_on r)
      → IsTidy r
  step_in-IsTidy auth_request = hello-IsTidy
  step_in-IsTidy connection_request = request-IsTidy
  step_in-IsTidy connection_established = established-IsTidy
  step_in-IsTidy ready_to_transfer_data = ready-IsTidy
  step_in-IsTidy data_transfer_mode = transfer-IsTidy

accepted-IsTidy : (kind : Kind) (id : ℕ) → IsTidy (accepted (ServerStream.make kind id))
unfolding accepted StreamManager.new_pair ServerStream.do_start ServerStream.make ClientStream.make
accepted-IsTidy tcp id = ground (arith, length-zeroed_buffer)
accepted-IsTidy tls id = ground (arith, length-zeroed_buffer)

-- Whatever the network does to an accepted connection, plain or over TLS, the session has in each state just the
-- operations under way that the state allows.
pub Reaches-IsTidy :
    (inet : Inet) (errors : NetErrors) (kind : Kind) (id : ℕ) {p : Pair State}
    → Reaches (react inet errors) (accepted (ServerStream.make kind id)) p
    → IsTidy p
Reaches-IsTidy inet errors kind id here = accepted-IsTidy kind id
Reaches-IsTidy inet errors kind id (next {p} {q} c reached taken answered) =
    step_in-IsTidy inet errors p q p.session.state c refl
      (Reaches-IsTidy inet errors kind id reached) taken answered
