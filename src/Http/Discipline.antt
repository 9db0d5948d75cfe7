-- ===== src/Http/Discipline.antt =====
-- Which operations of an HTTP session are under way in each of its states.
use amgi_net_tools.Base.{
  ℕ, suc, ◌+◌, ◌≤◌, ◌≡◌, ◌⊎◌, refl, Bool-cases, inl, inr, Bytes, [], ◌∷◌, length, text_eq, some, ok,
  >>=-eq-ok, arith,
}
use amgi_net_tools.Transport.Buffer.{max_buffer_size, length-zeroed_buffer}
use amgi_net_tools.Transport.Effects.{server_wrote, client_wrote}
use amgi_net_tools.Transport.ServerStream
use amgi_net_tools.Transport.ServerStream.{ServerStream, Kind, tcp, tls}
use amgi_net_tools.Transport.ClientStream
use amgi_net_tools.Proxy.Store.{Pair}
use amgi_net_tools.Proxy.StreamManager
use amgi_net_tools.Proxy.Events.{goes_on}
use amgi_net_tools.Proxy.Load.{Load, load, ClientIdle}
use amgi_net_tools.Proxy.Network.{
  Completion, server_handshaken, server_sent, server_received, client_connected, client_received,
  take_off, handle, Reaches, here, next,
}
use amgi_net_tools.Http.Request.{RequestMethod, k_connect, get_headers, get_host, get_service}
use amgi_net_tools.Http.State.{
  State, wait_request, connection_established, ready_to_transfer_data, data_transfer_mode,
  k_http_done, first_message,
}
use amgi_net_tools.Http.Automaton.{
  finish, turn_away, dial, on_request, first_to_local, first_to_remote, to_remote, to_local, react,
}

-- A tunnel awaits the bytes of each direction from one side or has them on their way to the other.
abbrev pub Tunnel : Load → Type 0
Tunnel l = (l.server_reads + l.client_writes ≡ 1) × (l.client_reads + l.server_writes ≡ 1)

-- A plain request leaves two reads of the local side in turn, and nothing of the other direction.
abbrev pub OneWay : Load → Type 0
OneWay l = (l.server_reads + l.client_writes ≡ 2) × (l.client_reads ≡ 0) × (l.server_writes ≡ 0)

abbrev pub Phase : State → Load → Type 0
Phase wait_request l = (l.handshakes + l.server_reads ≡ 1) × (l.server_writes ≡ 0) × ClientIdle l
Phase connection_established l =
    (l.handshakes ≡ 0)
    × (l.server_reads ≡ 0)
    × (l.server_writes ≡ 0)
    × (l.resolves + l.connects ≡ 1)
    × (l.client_reads ≡ 0)
    × (l.client_writes ≡ 0)
Phase ready_to_transfer_data l =
    (l.handshakes ≡ 0)
    × (l.server_reads ≡ 0)
    × (l.resolves ≡ 0)
    × (l.connects ≡ 0)
    × (l.client_reads ≡ 0)
    × (l.server_writes + l.client_writes ≡ 1)
Phase data_transfer_mode l =
    (l.handshakes ≡ 0) × (l.resolves ≡ 0) × (l.connects ≡ 0) × (Tunnel l ⊎ OneWay l)

abbrev pub Response : State → Bytes → Type 0
Response connection_established response = length response ≤ max_buffer_size
Response _ response = Unit {0}

pub record IsTidy (p : Pair State) : Type 0 where
  pub phase : Phase p.session.state (load p)
  pub response : Response p.session.state p.session.context.response
  pub server_buffer : length p.server.write_buffer ≡ max_buffer_size
  pub client_buffer : length p.client.write_buffer ≡ max_buffer_size

-- A pair as `on_accept` puts it into the table.
unfoldable pub accepted : ServerStream → Pair State
accepted upstream = StreamManager.new_pair wait_request (ServerStream.do_start upstream)

-- A request that goes on was dialled.
pub record Dialled (buffer : Bytes) (p r : Pair State) : Type 0 where
  pub server_kept : r.server ≡ p.server
  pub resolves_more : r.client.resolves ≡ suc p.client.resolves
  pub connects_kept : r.client.connects ≡ p.client.connects
  pub reads_kept : r.client.reads ≡ p.client.reads
  pub writes_kept : r.client.writes ≡ p.client.writes
  pub buffer_kept : r.client.write_buffer ≡ p.client.write_buffer
  pub response_is : r.session.context.response ≡ first_message (get_headers buffer).method buffer
  pub state_is : r.session.state ≡ connection_established

pub done_fits : length k_http_done ≤ 100
unfolding k_http_done
done_fits = omega arith

first_message_fits :
    (m : RequestMethod) (buffer : Bytes)
    → length buffer ≤ max_buffer_size
    → length (first_message m buffer) ≤ max_buffer_size
first_message_fits k_connect buffer h = omega (arith, done_fits)
first_message_fits _ buffer h = h

module _ (p : Pair State) {r : Pair State} where
  pub on_request-Dialled :
      (buffer : Bytes) → on_request buffer p ≡ ok (goes_on r) → Dialled buffer p r
  unfolding on_request turn_away finish dial ClientStream.do_start ClientStream.do_set_service
      ClientStream.do_set_host
  on_request-Dialled buffer h =
      let (host, _, rest) = >>=-eq-ok (get_host (get_headers buffer)) _ h in
      let (service, _, last) = >>=-eq-ok (get_service (get_headers buffer)) _ rest in
      ground (arith, last)

module _ (p q : Pair State) {r : Pair State} where
  wait-IsTidy :
      (c : Completion)
      → p.session.state ≡ wait_request
      → IsTidy p
      → take_off c p ≡ some q
      → handle react c q ≡ ok (goes_on r)
      → IsTidy r
  unfolding take_off handle react finish ServerStream.do_read
  wait-IsTidy server_handshaken s t taken h = ground arith
  wait-IsTidy (server_received buffer) s t taken h =
      let d = on_request-Dialled q {r = r} buffer (ground arith) in
      ground (arith, d, first_message_fits (get_headers buffer).method buffer)
  wait-IsTidy _ s t taken h = ground arith

  established-IsTidy :
      (c : Completion)
      → p.session.state ≡ connection_established
      → IsTidy p
      → take_off c p ≡ some q
      → handle react c q ≡ ok (goes_on r)
      → IsTidy r
  unfolding take_off handle react first_to_local first_to_remote finish ClientStream.do_connect
  established-IsTidy client_connected s t taken h =
      elim (Bool-cases (text_eq q.session.context.response k_http_done)) [
        | inl done ↦
            let answer : first_to_local q ≡ ok (goes_on r) = ground (arith, done) in
            let (c, wrote, last) =
              >>=-eq-ok (ServerStream.do_write q.session.context.response q.server) _ answer in
            ground (arith, last, server_wrote q.session.context.response q.server wrote)
        | inr other ↦
            let answer : first_to_remote q ≡ ok (goes_on r) = ground (arith, other) in
            let (c, wrote, last) =
              >>=-eq-ok (ClientStream.do_write q.session.context.response q.client) _ answer in
            ground (arith, last, client_wrote q.session.context.response q.client wrote)
      ]
  established-IsTidy (client_received []) s t taken h = ground arith
  established-IsTidy _ s t taken h = ground arith

  ready-IsTidy :
      (c : Completion)
      → p.session.state ≡ ready_to_transfer_data
      → IsTidy p
      → take_off c p ≡ some q
      → handle react c q ≡ ok (goes_on r)
      → IsTidy r
  unfolding take_off handle react finish ServerStream.do_read ClientStream.do_read
  ready-IsTidy server_sent s t taken h = ground arith
  ready-IsTidy _ s t taken h = ground arith

  transfer-IsTidy :
      (c : Completion)
      → p.session.state ≡ data_transfer_mode
      → IsTidy p
      → take_off c p ≡ some q
      → handle react c q ≡ ok (goes_on r)
      → IsTidy r
  unfolding take_off handle react to_remote to_local finish ServerStream.do_read
      ClientStream.do_read
  transfer-IsTidy (server_received buffer) s t taken h =
      let answer : to_remote buffer q ≡ ok (goes_on r) = ground arith in
      let (c, wrote, last) = >>=-eq-ok (ClientStream.do_write buffer q.client) _ answer in
      ground (arith, last, client_wrote buffer q.client wrote)
  transfer-IsTidy (client_received (b ∷ bs)) s t taken h =
      let answer : to_local (b ∷ bs) q ≡ ok (goes_on r) = ground arith in
      let (c, wrote, last) = >>=-eq-ok (ServerStream.do_write (b ∷ bs) q.server) _ answer in
      ground (arith, last, server_wrote (b ∷ bs) q.server wrote)
  transfer-IsTidy _ s t taken h = ground arith

  step_in-IsTidy :
      (s : State) (c : Completion)
      → p.session.state ≡ s
      → IsTidy p
      → take_off c p ≡ some q
      → handle react c q ≡ ok (goes_on r)
      → IsTidy r
  step_in-IsTidy wait_request = wait-IsTidy
  step_in-IsTidy connection_established = established-IsTidy
  step_in-IsTidy ready_to_transfer_data = ready-IsTidy
  step_in-IsTidy data_transfer_mode = transfer-IsTidy

accepted-IsTidy : (kind : Kind) (id : ℕ) → IsTidy (accepted (ServerStream.make kind id))
unfolding accepted StreamManager.new_pair ServerStream.do_start ServerStream.make ClientStream.make
accepted-IsTidy tcp id = ground (arith, length-zeroed_buffer)
accepted-IsTidy tls id = ground (arith, length-zeroed_buffer)

-- Whatever the network does to an accepted connection, plain or over TLS, the session has in each state just
-- the operations under way that the state allows, and keeps its buffers at their size.
pub Reaches-IsTidy_http :
    (kind : Kind) (id : ℕ) {p : Pair State}
    → Reaches react (accepted (ServerStream.make kind id)) p
    → IsTidy p
Reaches-IsTidy_http kind id here = accepted-IsTidy kind id
Reaches-IsTidy_http kind id (next {p} {q} c reached taken answered) =
    step_in-IsTidy p q p.session.state c refl (Reaches-IsTidy_http kind id reached) taken answered
