-- ===== src/Socks5/Relay.antt =====
-- What a SOCKS5 session sends: the answer to a hello, the reply to a request, and the relayed bytes.
use amgi_net_tools.Base.{
  ℕ, ap, ◌∙◌, ◌++◌, ◌+◌, ◌%◌, ◌^◌, ◌≡◌, refl, Bytes, [], ◌∷◌, length, take, some, ok, inl, inr,
  arith,
}
use amgi_net_tools.Proxy.Errors.{NetErrors}
use amgi_net_tools.Proxy.Store.{Pair}
use amgi_net_tools.Proxy.Events.{goes_on}
use amgi_net_tools.Proxy.Network.{server_received, client_received, take_off, handle}
use amgi_net_tools.Socks5.Packet.{version, not_supported, Inet}
use amgi_net_tools.Socks5.Packet.Hello.{IsGood, is_socks5_auth_request-Decides}
use amgi_net_tools.Socks5.State.{State, auth_request, connection_request, data_transfer_mode}
use amgi_net_tools.Socks5.Automaton.{in_state, on_hello, to_remote, to_local, react}
use amgi_net_tools.Transport.Effects.{server_takes, client_takes}
use amgi_net_tools.Socks5.Discipline.{IsTidy}

module _ (inet : Inet) (errors : NetErrors) (p : Pair State) {q : Pair State} where
  -- Bytes that the local side sent are the contents of the one write to the remote side, and are counted.
  pub relay_to_remote :
      (buffer : Bytes)
      → IsTidy p
      → p.session.state ≡ data_transfer_mode
      → take_off (server_received buffer) p ≡ some q
      → (r : Pair State) × (handle (react inet errors) (server_received buffer) q ≡ ok (goes_on r))
        × (length r.client.writes ≡ 1)
        × (take (length buffer) r.client.write_buffer ≡ buffer)
        × (r.server ≡ q.server)
        × (r.session.context.transferred_bytes_to_remote
            ≡ (p.session.context.transferred_bytes_to_remote + length buffer) % 2 ^ 64)
  unfolding take_off handle react to_remote
  relay_to_remote buffer t s taken =
      let (c, written, w) = client_takes buffer q.client (ground arith) in
      let count = (q.session.context.transferred_bytes_to_remote + length buffer) % 2 ^ 64 in
      let r : Pair State =
        in_state q.session.state (record q.session.context { transferred_bytes_to_remote = count })
          (record q { client = c }) in
      (r, ground (arith, written), ground (arith, w), w.filled, refl, ground arith)

  -- Bytes that the remote side sent are the contents of the one write to the local side, and are counted.
  pub relay_to_local :
      (b : ℕ) (bs : Bytes)
      → IsTidy p
      → p.session.state ≡ data_transfer_mode
      → take_off (client_received (b ∷ bs)) p ≡ some q
      → (r : Pair State) × (handle (react inet errors) (client_received (b ∷ bs)) q
          ≡ ok (goes_on r))
        × (length r.server.writes ≡ 1)
        × (take (length (b ∷ bs)) r.server.write_buffer ≡ b ∷ bs)
        × (r.client ≡ q.client)
        × (r.session.context.transferred_bytes_to_local
            ≡ (p.session.context.transferred_bytes_to_local + length (b ∷ bs)) % 2 ^ 64)
  unfolding take_off handle react to_local
  relay_to_local b bs t s taken =
      let (c, written, w) = server_takes (b ∷ bs) q.server (ground arith) in
      let count = (q.session.context.transferred_bytes_to_local + length (b ∷ bs)) % 2 ^ 64 in
      let r : Pair State =
        in_state q.session.state (record q.session.context { transferred_bytes_to_local = count })
          (record q { server = c }) in
      (r, ground (arith, written), ground (arith, w), w.filled, refl, ground arith)

  -- The defect: a hello that is refused, of any kind, is answered by 5 and 255, "no acceptable methods", and
  -- the one write that is under way, and the session then waits for a connection request as after a good one.
  pub refused_hello_goes_on :
      (buffer : Bytes)
      → ¬ IsGood buffer
      → IsTidy p
      → p.session.state ≡ auth_request
      → take_off (server_received buffer) p ≡ some q
      → (r : Pair State) × (handle (react inet errors) (server_received buffer) q ≡ ok (goes_on r))
        × (r.server.writes ≡ 2 ∷ [])
        × (take 2 r.server.write_buffer ≡ 5 ∷ 255 ∷ [])
        × (r.session.state ≡ connection_request)
  unfolding take_off handle react on_hello
  refused_hello_goes_on buffer bad t s taken = elim (is_socks5_auth_request-Decides buffer) [
    | inl (e, good) ↦ absurd (bad good)
    | inr (m, e, _) ↦
        let answer : Bytes = version ∷ not_supported ∷ [] in
        let (c, written, w) = server_takes answer q.server (ground arith) in
        let none_yet : q.server.writes ≡ [] = ground arith in
        let r : Pair State =
          in_state connection_request (record q.session.context { response = answer })
            (record q { server = c }) in
        (r, ground (arith, e, written), w.queued ∙ ap (λ l. l ++ 2 ∷ []) none_yet, w.filled, refl)
  ]
