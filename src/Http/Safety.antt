-- ===== src/Http/Safety.antt =====
-- The faults that an HTTP session can meet.
use amgi_net_tools.Base.{
  ℕ, ◌≤◌, ◌≡◌, ◌≢◌, refl, Bytes, [], ◌∷◌, length, text_eq, Bool-cases, some, fault, Fault,
  length_error, Result-cases, inl, inr, arith, ◌⊎◌,
}
use amgi_net_tools.Transport.Effects.{server_write-ne-fault, client_write-ne-fault}
use amgi_net_tools.Transport.ServerStream
use amgi_net_tools.Transport.ServerStream.{Kind}
use amgi_net_tools.Proxy.Store.{Pair}
use amgi_net_tools.Proxy.Network.{
  Completion, server_received, client_connected, client_received, take_off, handle, Reaches,
}
use amgi_net_tools.Http.Request.{get_headers, get_host, get_service}
use amgi_net_tools.Http.Request.Faults.{get_host-fault, get_service-ne-fault}
use amgi_net_tools.Http.State.{
  State, wait_request, connection_established, ready_to_transfer_data, data_transfer_mode,
  k_http_error500, k_http_done,
}
use amgi_net_tools.Http.Automaton.{
  finish, turn_away, on_request, first_to_local, first_to_remote, to_remote, to_local, react,
}
use amgi_net_tools.Http.Discipline.{IsTidy, accepted, Reaches-IsTidy_http}

error500_fits : length k_http_error500 ≤ 100
unfolding k_http_error500
error500_fits = omega arith

turn_away-ne-fault :
    (p : Pair State) {x : Fault} → 100 ≤ length p.server.write_buffer → turn_away p ≢ fault x
unfolding turn_away
turn_away-ne-fault p {x} fits h =
    ground (arith, error500_fits, server_write-ne-fault k_http_error500 p.server {x = x})

-- The fault of a request is that of reading its host or its service.
on_request-fault :
    (buffer : Bytes) (p : Pair State) {x : Fault}
    → 100 ≤ length p.server.write_buffer
    → on_request buffer p ≡ fault x
    → (get_host (get_headers buffer) ≡ fault x) ⊎ (get_service (get_headers buffer) ≡ fault x)
unfolding on_request
on_request-fault buffer p {x} fits h = elim (Result-cases (get_host (get_headers buffer))) [
  | inl (host, e) ↦ elim (Result-cases (get_service (get_headers buffer))) [
    | inl (service, s) ↦ absurd (ground (arith, e, s, turn_away-ne-fault p {x = x}))
    | inr (y, s) ↦ inr (ground (arith, e, s))
  ]
  | inr (y, e) ↦ inl (ground (arith, e))
]

-- A fault of a session in good order is the exception of a request that just came in.
unfoldable pub OnlyLengthError : Completion → Pair State → Fault → Type 0
OnlyLengthError c p x =
    (x ≡ length_error)
    × (p.session.state ≡ wait_request)
    × ((buffer : Bytes) × (c ≡ server_received buffer))

module _ (p q : Pair State) {x : Fault} where
  wait-fault :
      (c : Completion)
      → p.session.state ≡ wait_request
      → IsTidy p
      → take_off c p ≡ some q
      → handle react c q ≡ fault x
      → OnlyLengthError c p x
  unfolding take_off handle react finish OnlyLengthError
  wait-fault (server_received buffer) s t taken h =
      elim (on_request-fault buffer q {x = x} (ground arith) (ground arith)) [
        | inl e ↦ (get_host-fault buffer e, s, (buffer, refl))
        | inr e ↦ absurd (get_service-ne-fault buffer e)
      ]
  wait-fault _ s t taken h = absurd (ground (arith, h))

  established-ne-fault :
      (c : Completion)
      → p.session.state ≡ connection_established
      → IsTidy p
      → take_off c p ≡ some q
      → handle react c q ≢ fault x
  unfolding take_off handle react finish first_to_local first_to_remote
  established-ne-fault client_connected s t taken h =
      elim (Bool-cases (text_eq p.session.context.response k_http_done)) [
        | inl done ↦
            ground (arith, done, server_write-ne-fault q.session.context.response q.server {x = x})
        | inr plain ↦
            ground (arith, plain, client_write-ne-fault q.session.context.response q.client {x = x})
      ]
  established-ne-fault _ s t taken h = ground (arith, h)

  ready-ne-fault :
      (c : Completion)
      → p.session.state ≡ ready_to_transfer_data
      → IsTidy p
      → take_off c p ≡ some q
      → handle react c q ≢ fault x
  unfolding take_off handle react finish
  ready-ne-fault _ s t taken h = ground (arith, h)

  transfer-ne-fault :
      (c : Completion)
      → p.session.state ≡ data_transfer_mode
      → IsTidy p
      → take_off c p ≡ some q
      → handle react c q ≢ fault x
  unfolding take_off handle react finish to_remote to_local
  transfer-ne-fault (server_received buffer) s t taken h =
      ground (arith, h, client_write-ne-fault buffer q.client {x = x})
  transfer-ne-fault (client_received (b ∷ bs)) s t taken h =
      ground (arith, h, server_write-ne-fault (b ∷ bs) q.server {x = x})
  transfer-ne-fault (client_received []) s t taken h = ground (arith, h)
  transfer-ne-fault _ s t taken h = ground (arith, h)

  fault_in-OnlyLengthError :
      (s : State) (c : Completion)
      → p.session.state ≡ s
      → IsTidy p
      → take_off c p ≡ some q
      → handle react c q ≡ fault x
      → OnlyLengthError c p x
  fault_in-OnlyLengthError wait_request c s t taken h = wait-fault c s t taken h
  fault_in-OnlyLengthError connection_established c s t taken h =
      absurd (established-ne-fault c s t taken h)
  fault_in-OnlyLengthError ready_to_transfer_data c s t taken h =
      absurd (ready-ne-fault c s t taken h)
  fault_in-OnlyLengthError data_transfer_mode c s t taken h =
      absurd (transfer-ne-fault c s t taken h)

-- After anything that the network does to an accepted connection, the next completion faults only by
-- `std::length_error`, while the session waits for its request, and on a buffer just received: no write buffer
-- is overrun, no erased session is used, and nothing is read past the end of a request.
pub Reaches-OnlyLengthError :
    (kind : Kind) (id : ℕ) {p q : Pair State} {x : Fault} (c : Completion)
    → Reaches react (accepted (ServerStream.make kind id)) p
    → take_off c p ≡ some q
    → handle react c q ≡ fault x
    → OnlyLengthError c p x
Reaches-OnlyLengthError kind id {p} {q} c reached taken h =
    fault_in-OnlyLengthError p q p.session.state c refl (Reaches-IsTidy_http kind id reached) taken
      h
