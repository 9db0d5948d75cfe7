-- ===== src/Proxy/Network.antt =====
-- What asio reports to the two streams of a session, and what the streams' completion handlers do
-- with it: tcp_server_stream.cpp, tls_server_stream.cpp and tcp_client_stream.cpp. Only an operation
-- that was started completes, each once.
use amgi_net_tools.Base.{
  ℕ, zero, suc, ◌≡◌, Bytes, List, [], ◌∷◌, Option, none, some, length, leb, if◌then◌else◌, Result,
  ok,
}
use amgi_net_tools.Transport.Buffer.{max_buffer_size}
use amgi_net_tools.Transport.ServerStream.{ServerStream}
use amgi_net_tools.Transport.ServerStream
use amgi_net_tools.Transport.ClientStream.{ClientStream}
use amgi_net_tools.Transport.ClientStream
use amgi_net_tools.Proxy.Errors.{ErrorCode}
use amgi_net_tools.Proxy.Store.{Pair}
use amgi_net_tools.Proxy.Events.{
  Event, server_read, server_write, server_error, client_connect, client_read, client_write,
  client_error, Outcome, goes_on,
}

pub data ServerOp : Type 0 where
  handshake read write : ServerOp

pub data ClientOp : Type 0 where
  resolve connect read write : ClientOp

pub data Completion : Type 0 where
  server_handshaken server_sent : Completion
  server_received : Bytes → Completion
  server_failed : ServerOp → ErrorCode → Completion
  client_resolved client_connected client_sent : Completion
  client_received : Bytes → Completion
  client_failed : ClientOp → ErrorCode → Completion

-- One operation of a kind less, if there is one.
abbrev pub fewer : ℕ → Option ℕ
fewer zero = none
fewer (suc n) = some n

-- Writes complete in the order in which they were started.
abbrev pub later : List ℕ → Option (List ℕ)
later [] = none
later (n ∷ ns) = some ns

abbrev pub map_option {ℓ κ} : {A : Type ℓ} {B : Type κ} → (A → B) → Option A → Option B
map_option f none = none
map_option f (some a) = some (f a)

unfoldable pub server_done : ServerOp → ServerStream → Option ServerStream
server_done handshake s = map_option (λ n. record s { handshakes = n }) (fewer s.handshakes)
server_done ServerOp.read s = map_option (λ n. record s { reads = n }) (fewer s.reads)
server_done ServerOp.write s = map_option (λ ns. record s { writes = ns }) (later s.writes)

unfoldable pub client_done : ClientOp → ClientStream → Option ClientStream
client_done resolve s = map_option (λ n. record s { resolves = n }) (fewer s.resolves)
client_done connect s = map_option (λ n. record s { connects = n }) (fewer s.connects)
client_done ClientOp.read s = map_option (λ n. record s { reads = n }) (fewer s.reads)
client_done ClientOp.write s = map_option (λ ns. record s { writes = ns }) (later s.writes)

-- A read of the client stream that brings nothing goes to `handle_error`, with its code of no error.
abbrev client_read_event : Bytes → Event
client_read_event [] = client_error (record { value = 0; message = [] })
client_read_event (b ∷ bs) = client_read (b ∷ bs)

module _ {S : Type 0} where
  on_server : ServerOp → Pair S → Option (Pair S)
  unfolding server_done
  on_server op p = map_option (λ s. record p { server = s }) (server_done op p.server)

  on_client : ClientOp → Pair S → Option (Pair S)
  unfolding client_done
  on_client op p = map_option (λ c. record p { client = c }) (client_done op p.client)

  -- The pair with the completed operation taken off, `none` where no such operation was started. A read
  -- brings no more than the stream's buffer holds.
  unfoldable pub take_off : Completion → Pair S → Option (Pair S)
  unfolding on_server on_client
  take_off server_handshaken p = on_server handshake p
  take_off server_sent p = on_server ServerOp.write p
  take_off (server_received buffer) p =
      if leb (length buffer) max_buffer_size then on_server ServerOp.read p else none
  take_off (server_failed op ec) p = on_server op p
  take_off client_resolved p = on_client resolve p
  take_off client_connected p = on_client connect p
  take_off client_sent p = on_client ClientOp.write p
  take_off (client_received buffer) p =
      if leb (length buffer) max_buffer_size then on_client ClientOp.read p else none
  take_off (client_failed op ec) p = on_client op p

  -- What the completion handlers do: a successful handshake reads, a successful resolve connects, and all
  -- else is reported to the manager, whose answer is `react`.
  unfoldable pub handle :
      (Event → Pair S → Result (Outcome S)) → Completion → Pair S → Result (Outcome S)
  handle react server_handshaken p =
      ok (goes_on (record p { server = ServerStream.do_read p.server }))
  handle react server_sent p = react server_write p
  handle react (server_received buffer) p = react (server_read buffer) p
  handle react (server_failed op ec) p = react (server_error ec) p
  handle react client_resolved p =
      ok (goes_on (record p { client = ClientStream.do_connect p.client }))
  handle react client_connected p = react client_connect p
  handle react client_sent p = react client_write p
  handle react (client_received buffer) p = react (client_read_event buffer) p
  handle react (client_failed op ec) p = react (client_error ec) p

  -- The pairs that a session goes through, from one that it starts with.
  pub data Reaches (react : Event → Pair S → Result (Outcome S)) (start : Pair S)
      : Pair S → Type 0 where
    here : Reaches react start start
    next :
        {p q r : Pair S} (c : Completion)
        → Reaches react start p
        → take_off c p ≡ some q
        → handle react c q ≡ ok (goes_on r)
        → Reaches react start r
