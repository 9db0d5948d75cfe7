-- ===== src/Socks5/Turns.antt =====
-- What a SOCKS5 session does at each completion on the way to its relay.
use amgi_net_tools.Base.{
  sym, ap, ◌∙◌, ◌++◌, take, ◌≤◌, ◌≡◌, refl, true, Bytes, [], ◌∷◌, length, length-set, set, some, ok,
  inl, inr, Result-cases, arith,
}
use amgi_net_tools.Transport.Buffer.{max_buffer_size}
use amgi_net_tools.Transport.ServerStream
use amgi_net_tools.Transport.ServerStream.{ServerStream, Kind, tcp, tls}
use amgi_net_tools.Transport.ClientStream
use amgi_net_tools.Proxy.Errors.{NetErrors}
use amgi_net_tools.Proxy.Store.{Pair}
use amgi_net_tools.Proxy.Network.{server_sent, server_received, client_connected, take_off, handle}
use amgi_net_tools.Proxy.Run.{Answers}
use amgi_net_tools.Socks5.Packet.{
  version, Inet, Address, is_socks5_auth_request, is_valid_request_packet, get_remote_address_info,
}
use amgi_net_tools.Socks5.Packet.Hello.{is_socks5_auth_request-Decides}
use amgi_net_tools.Socks5.State.{
  State, auth_request, connection_request, connection_established, ready_to_transfer_data,
  data_transfer_mode, auth_mode, with_command, succeeded,
}
use amgi_net_tools.Socks5.Automaton.{in_state, reply, dial, on_hello, on_request, react}
use amgi_net_tools.Socks5.Discipline.{IsTidy}
use amgi_net_tools.Transport.Effects.{server_takes}

module _ (inet : Inet) (errors : NetErrors) where
  pub hello_answered :
      (p : Pair State) (hello : Bytes)
      → IsTidy p
      → p.session.state ≡ auth_request
      → p.server.reads ≡ 1
      → length hello ≤ max_buffer_size
      → (r : Pair State) × Answers (react inet errors) (server_received hello) p r
        × (r.session.state ≡ connection_request)
        × (length r.server.writes ≡ 1)
  unfolding take_off handle react on_hello
  hello_answered p hello t s reading fits =
      let q : Pair State = record p { server = record p.server { reads = 0 } } in
      let taken : take_off (server_received hello) p ≡ some q = ground (arith, reading, fits) in
      elim (Result-cases (is_socks5_auth_request hello)) [
        | inl (error, checked) ↦
            let answer : Bytes = version ∷ auth_mode error ∷ [] in
            let (c, written, w) = server_takes answer q.server (ground arith) in
            let r : Pair State =
              in_state connection_request (record q.session.context { response = answer })
                (record q { server = c }) in
            (r, (q, taken, ground (arith, checked, written)), refl, ground (arith, w))
        | inr (x, failed) ↦ elim (is_socks5_auth_request-Decides hello) [
          | inl (e, _) ↦ absurd (ground (arith, e, failed))
          | inr (m, e, _) ↦ absurd (ground (arith, e, failed))
        ]
      ]

  pub answer_sent :
      (p : Pair State)
      → p.session.state ≡ connection_request
      → p.server.reads ≡ 0
      → length p.server.writes ≡ 1
      → (r : Pair State) × Answers (react inet errors) server_sent p r
        × (r.session.state ≡ connection_request)
        × (r.server.reads ≡ 1)
  unfolding take_off handle react ServerStream.do_read
  answer_sent p s none_read writing =
      let q : Pair State = record p { server = record p.server { writes = [] } } in
      let r : Pair State = record q { server = ServerStream.do_read q.server } in
      (r, (q, ground (arith, writing), ground (arith, s)), s, ground (arith, none_read))

  pub request_dialled :
      (p : Pair State) (request : Bytes) (address : Address)
      → p.session.state ≡ connection_request
      → p.server.reads ≡ 1
      → length request ≤ max_buffer_size
      → is_valid_request_packet request ≡ ok true
      → get_remote_address_info inet request (record { host = []; port = [] }) ≡ ok (true, address)
      → p.client.resolves ≡ 0
      → (r : Pair State) × Answers (react inet errors) (server_received request) p r
        × (r.session.state ≡ connection_established)
        × (r.session.context.host ≡ address.host)
        × (r.session.context.service ≡ address.port)
        × (r.session.context.response ≡ request)
        × (r.client.host ≡ address.host)
        × (r.client.port ≡ address.port)
        × (r.client.resolves ≡ 1)
  unfolding take_off handle react on_request dial ClientStream.do_start ClientStream.do_set_service
      ClientStream.do_set_host
  request_dialled p request address s reading fits valid decoded idle =
      let q : Pair State = record p { server = record p.server { reads = 0 } } in
      let c = ClientStream.do_start (
        ClientStream.do_set_service address.port
          (ClientStream.do_set_host address.host p.client)) in
      let r : Pair State =
        in_state connection_established
          (record q.session.context {
            host = address.host;
            service = address.port;
            response = request;
          })
          (record q { client = c }) in
      (
        r,
        (q, ground (arith, reading, fits), ground (arith, s, valid, decoded)),
        refl,
        refl,
        refl,
        refl,
        refl,
        refl,
        ground (arith, idle),
      )

  pub connection_reported :
      (p : Pair State)
      → IsTidy p
      → p.session.state ≡ connection_established
      → p.client.connects ≡ 1
      → (r : Pair State) × Answers (react inet errors) client_connected p r
        × (r.session.state ≡ ready_to_transfer_data)
        × (r.session.context.host ≡ p.session.context.host)
        × (r.session.context.service ≡ p.session.context.service)
        × (r.client.host ≡ p.client.host)
        × (r.client.port ≡ p.client.port)
        × (r.server.writes ≡ length p.session.context.response ∷ [])
        × (take (length p.session.context.response) r.server.write_buffer
            ≡ set p.session.context.response 1 0)
  unfolding take_off handle react reply with_command
  connection_reported p t s connecting =
      let q : Pair State = record p { client = record p.client { connects = 0 } } in
      let response = set q.session.context.response 1 succeeded in
      let same = length-set q.session.context.response 1 succeeded in
      let (c, written, w) = server_takes response q.server (ground (arith, same)) in
      let r : Pair State =
        in_state ready_to_transfer_data (record q.session.context { response = response })
          (record q { server = c }) in
      let none_yet : q.server.writes ≡ [] = ground arith in
      (
        r,
        (q, ground (arith, connecting), ground (arith, written)),
        refl,
        refl,
        refl,
        refl,
        refl,
        w.queued ∙ ap (λ l. l ++ length response ∷ []) none_yet ∙ ap (λ n. n ∷ []) same,
        ap (λ n. take n c.write_buffer) (sym same) ∙ w.filled,
      )

  pub reply_sent :
      (p : Pair State)
      → p.session.state ≡ ready_to_transfer_data
      → length p.server.writes ≡ 1
      → (r : Pair State) × Answers (react inet errors) server_sent p r
        × (r.session.state ≡ data_transfer_mode)
        × (r.session.context ≡ p.session.context)
        × (r.server.writes ≡ [])
        × (r.client.writes ≡ p.client.writes)
        × (r.client.host ≡ p.client.host)
        × (r.client.port ≡ p.client.port)
  unfolding take_off handle react ServerStream.do_read ClientStream.do_read
  reply_sent p s writing =
      let q : Pair State = record p { server = record p.server { writes = [] } } in
      let r : Pair State = in_state data_transfer_mode q.session.context (record q {
        server = ServerStream.do_read q.server;
        client = ClientStream.do_read q.client;
      }) in
      (r, (q, ground (arith, writing), ground (arith, s)), refl, refl, refl, refl, refl, refl)
