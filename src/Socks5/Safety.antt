-- ===== src/Socks5/Safety.antt =====
-- The faults that a SOCKS5 session can meet, and the operations it has under way at once.
use amgi_net_tools.Base.{
  ℕ, ◌≤◌, ◌≡◌, ◌≢◌, refl, Bytes, [], ◌∷◌, length, some, none, fault, Fault, over_read, inl, inr,
  arith, Result-cases,
}
use amgi_net_tools.Transport.Effects.{server_write-ne-fault, client_write-ne-fault}
use amgi_net_tools.Transport.ServerStream
use amgi_net_tools.Transport.ServerStream.{Kind}
use amgi_net_tools.Proxy.Errors.{NetErrors}
use amgi_net_tools.Proxy.Store.{Pair}
use amgi_net_tools.Proxy.Network.{
  Completion, server_sent, server_received, client_connected, client_received, client_failed,
  take_off, handle, Reaches,
}
use amgi_net_tools.Socks5.Packet.{version, Inet}
use amgi_net_tools.Socks5.Packet.Faults.{get_remote_address_info-fault}
use amgi_net_tools.Socks5.Packet.Hello.{is_socks5_auth_request-Decides}
use amgi_net_tools.Socks5.Packet.Request.{is_valid_request_packet-Decides}
use amgi_net_tools.Socks5.State.{
  State, auth_request, connection_request, connection_established, ready_to_transfer_data,
  data_transfer_mode, auth_mode, with_command, succeeded, get_response_error_code,
}
use amgi_net_tools.Socks5.Automaton.{
  finish, reply, on_hello, on_request, to_remote, to_local, react,
}
use amgi_net_tools.Socks5.Answers.{with_command-length}
use amgi_net_tools.Socks5.Discipline.{IsTidy, accepted, Reaches-IsTidy}

reply-ne-fault :
    (code : ℕ) (next : State) (p : Pair State) {x : Fault}
    → 2 ≤ length p.session.context.response
    → length p.session.context.response ≤ length p.server.write_buffer
    → reply code next p ≢ fault x
unfolding reply with_command
reply-ne-fault code next p {x} two fits h =
    elim (Result-cases (with_command code p.session.context.response)) [
      | inl (r, e) ↦
          let kept = with_command-length code p.session.context.response e in
          ground (arith, e, kept, server_write-ne-fault r p.server {x = x})
      | inr (y, e) ↦ ground (arith, e)
    ]

-- A fault of a session in good order is a read past the end of a packet, and the packet is a request
-- that just came in.
pub OnlyOverRead : Completion → Pair State → Fault → Type 0
OnlyOverRead c p x =
    (x ≡ over_read)
    × (p.session.state ≡ connection_request)
    × ((buffer : Bytes) × (c ≡ server_received buffer))

module _ (inet : Inet) (errors : NetErrors) (p q : Pair State) {x : Fault} where
  hello-ne-fault :
      (c : Completion)
      → p.session.state ≡ auth_request
      → IsTidy p
      → take_off c p ≡ some q
      → handle (react inet errors) c q ≢ fault x
  unfolding take_off handle react on_hello finish
  hello-ne-fault (server_received buffer) s t taken h =
      elim (is_socks5_auth_request-Decides buffer) [
        | inl (e, _) ↦
            ground
              (arith, e, server_write-ne-fault (version ∷ auth_mode none ∷ []) q.server {x = x})
        | inr (m, e, _) ↦
            ground
              (arith, e, server_write-ne-fault (version ∷ auth_mode (some m) ∷ []) q.server {x = x})
      ]
  hello-ne-fault _ s t taken h = ground arith

  request-fault :
      (c : Completion)
      → p.session.state ≡ connection_request
      → IsTidy p
      → take_off c p ≡ some q
      → handle (react inet errors) c q ≡ fault x
      → OnlyOverRead c p x
  unfolding take_off handle react on_request finish OnlyOverRead
  request-fault (server_received buffer) s t taken h =
      elim (is_valid_request_packet-Decides buffer) [
        | inl (e, _) ↦ (
          ground (
            arith,
            e,
            get_remote_address_info-fault inet buffer (record { host = []; port = [] }) {x = x},
          ),
          s,
          (buffer, refl),
        )
        | inr (e, _) ↦ absurd (ground (arith, e))
      ]
  request-fault _ s t taken h = absurd (ground arith)

  established-ne-fault :
      (c : Completion)
      → p.session.state ≡ connection_established
      → IsTidy p
      → take_off c p ≡ some q
      → handle (react inet errors) c q ≢ fault x
  unfolding take_off handle react finish
  established-ne-fault client_connected s t taken h =
      ground (arith, reply-ne-fault succeeded ready_to_transfer_data q {x = x})
  established-ne-fault (client_failed op ec) s t taken h =
      ground (arith, reply-ne-fault (get_response_error_code errors ec) q.session.state q {x = x})
  established-ne-fault (client_received []) s t taken h = ground arith
  established-ne-fault _ s t taken h = ground arith

  ready-ne-fault :
      (c : Completion)
      → p.session.state ≡ ready_to_transfer_data
      → IsTidy p
      → take_off c p ≡ some q
      → handle (react inet errors) c q ≢ fault x
  unfolding take_off handle react finish
  ready-ne-fault server_sent s t taken h = ground arith
  ready-ne-fault _ s t taken h = ground arith

  transfer-ne-fault :
      (c : Completion)
      → p.session.state ≡ data_transfer_mode
      → IsTidy p
      → take_off c p ≡ some q
      → handle (react inet errors) c q ≢ fault x
  unfolding take_off handle react finish to_remote to_local
  transfer-ne-fault (server_received buffer) s t taken h =
      ground (arith, client_write-ne-fault buffer q.client {x = x})
  transfer-ne-fault (client_received (b ∷ bs)) s t taken h =
      ground (arith, server_write-ne-fault (b ∷ bs) q.server {x = x})
  transfer-ne-fault _ s t taken h = ground arith

  fault_in-OnlyOverRead :
      (s : State) (c : Completion)
      → p.session.state ≡ s
      → IsTidy p
      → take_off c p ≡ some q
      → handle (react inet errors) c q ≡ fault x
      → OnlyOverRead c p x
  fault_in-OnlyOverRead auth_request c s t taken h = absurd (hello-ne-fault c s t taken h)
  fault_in-OnlyOverRead connection_request c s t taken h = request-fault c s t taken h
  fault_in-OnlyOverRead connection_established c s t taken h =
      absurd (established-ne-fault c s t taken h)
  fault_in-OnlyOverRead ready_to_transfer_data c s t taken h = absurd (ready-ne-fault c s t taken h)
  fault_in-OnlyOverRead data_transfer_mode c s t taken h = absurd (transfer-ne-fault c s t taken h)

-- After anything that the network does to an accepted connection, the next completion faults only by a read
-- past the end of a packet, while the session waits for its connection request, and on a packet just
-- received: no write buffer is overrun, no erased session is used and no exception is thrown.
pub Reaches-OnlyOverRead :
    (inet : Inet) (errors : NetErrors) (kind : Kind) (id : ℕ) {p q : Pair State} {x : Fault}
    (c : Completion)
    → Reaches (react inet errors) (accepted (ServerStream.make kind id)) p
    → take_off c p ≡ some q
    → handle (react inet errors) c q ≡ fault x
    → OnlyOverRead c p x
Reaches-OnlyOverRead inet errors kind id {p} {q} c reached taken h =
    fault_in-OnlyOverRead inet errors p q p.session.state c refl
      (Reaches-IsTidy inet errors kind id reached) taken h

-- At most one read and one write are under way on each stream.
pub Serial : Pair State → Type 0
Serial p =
    (p.server.reads ≤ 1)
    × (length p.server.writes ≤ 1)
    × (p.client.reads ≤ 1)
    × (length p.client.writes ≤ 1)

tidy_in-Serial : (s : State) (p : Pair State) → p.session.state ≡ s → IsTidy p → Serial p
unfolding Serial
tidy_in-Serial auth_request p s t = ground arith
tidy_in-Serial _ p s t = ground arith

-- A SOCKS5 session never has two reads or two writes under way on one stream, so no read or write buffer
-- is used by two operations at once.
pub Reaches-Serial :
    (inet : Inet) (errors : NetErrors) (kind : Kind) (id : ℕ) {p : Pair State}
    → Reaches (react inet errors) (accepted (ServerStream.make kind id)) p
    → Serial p
Reaches-Serial inet errors kind id {p} reached =
    tidy_in-Serial p.session.state p refl (Reaches-IsTidy inet errors kind id reached)
