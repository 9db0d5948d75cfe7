-- ===== src/Http/Turns.antt =====
-- What an HTTP session does at each completion on the way to its tunnel.
use amgi_net_tools.Base.{
  ap, ◌∙◌, ◌∷◌, ◌++◌, ◌≤◌, ◌≡◌, refl, false, Bytes, [], length, take, is_empty, text_eq_iff, ok,
  arith,
}
use amgi_net_tools.Transport.Buffer.{max_buffer_size}
use amgi_net_tools.Transport.Effects.{server_takes}
use amgi_net_tools.Transport.ServerStream
use amgi_net_tools.Transport.ClientStream
use amgi_net_tools.Proxy.Store.{Pair}
use amgi_net_tools.Proxy.Network.{server_sent, server_received, client_connected, take_off, handle}
use amgi_net_tools.Proxy.Run.{Answers}
use amgi_net_tools.Http.Request.{k_connect, get_headers, get_host, get_service}
use amgi_net_tools.Http.State.{
  State, wait_request, connection_established, ready_to_transfer_data, data_transfer_mode,
  k_http_done,
}
use amgi_net_tools.Http.Automaton.{in_state, dial, on_request, first_to_local, react}
use amgi_net_tools.Http.Discipline.{IsTidy, done_fits}

pub tunnel_dialled :
    (p : Pair State) (request host service : Bytes)
    → p.session.state ≡ wait_request
    → p.server.reads ≡ 1
    → length request ≤ max_buffer_size
    → (get_headers request).method ≡ k_connect
    → get_host (get_headers request) ≡ ok host
    → get_service (get_headers request) ≡ ok service
    → is_empty host ≡ false
    → is_empty service ≡ false
    → p.client.resolves ≡ 0
    → (r : Pair State) × Answers react (server_received request) p r
      × (r.session.state ≡ connection_established)
      × (r.session.context.host ≡ host)
      × (r.session.context.service ≡ service)
      × (r.session.context.response ≡ k_http_done)
      × (r.client.host ≡ host)
      × (r.client.port ≡ service)
      × (r.client.resolves ≡ 1)
unfolding take_off handle react on_request dial ClientStream.do_start ClientStream.do_set_service
    ClientStream.do_set_host
tunnel_dialled p request host service s reading fits method host_read service_read some_host
      some_service idle =
    let q : Pair State = record p { server = record p.server { reads = 0 } } in
    let c =
      ClientStream.do_start
        (ClientStream.do_set_service service (ClientStream.do_set_host host p.client)) in
    let r : Pair State =
      in_state connection_established
        (record q.session.context { response = k_http_done; host = host; service = service })
        (record q { client = c }) in
    (
      r,
      (
        q,
        ground (arith, reading, fits),
        rw (s, host_read, service_read, some_host, some_service, method) refl,
      ),
      refl,
      refl,
      refl,
      refl,
      refl,
      refl,
      ground (arith, idle),
    )

-- The client is told that the tunnel stands.
pub tunnel_reported :
    (p : Pair State)
    → IsTidy p
    → p.session.state ≡ connection_established
    → p.session.context.response ≡ k_http_done
    → p.client.connects ≡ 1
    → (r : Pair State) × Answers react client_connected p r
      × (r.session.state ≡ ready_to_transfer_data)
      × (r.session.context ≡ p.session.context)
      × (r.client.host ≡ p.client.host)
      × (r.client.port ≡ p.client.port)
      × (r.server.writes ≡ length k_http_done ∷ [])
      × (take (length k_http_done) r.server.write_buffer ≡ k_http_done)
unfolding take_off handle react first_to_local
tunnel_reported p t s response connecting =
    let q : Pair State = record p { client = record p.client { connects = 0 } } in
    let (c, written, w) =
      server_takes k_http_done q.server (omega (arith, done_fits, t.server_buffer)) in
    let r : Pair State =
      in_state ready_to_transfer_data q.session.context (record q { server = c }) in
    let same = (text_eq_iff k_http_done k_http_done).1 refl in
    let none_yet : q.server.writes ≡ [] = ground arith in
    (
      r,
      (q, ground (arith, connecting), rw (s, response, same, written) refl),
      refl,
      refl,
      refl,
      refl,
      w.queued ∙ ap (λ l. l ++ length k_http_done ∷ []) none_yet,
      w.filled,
    )

pub answer_sent :
    (p : Pair State)
    → p.session.state ≡ ready_to_transfer_data
    → p.server.reads ≡ 0
    → p.client.reads ≡ 0
    → length p.server.writes ≡ 1
    → (r : Pair State) × Answers react server_sent p r
      × (r.session.state ≡ data_transfer_mode)
      × (r.session.context ≡ p.session.context)
      × (r.server.reads ≡ 1)
      × (r.client.reads ≡ 1)
      × (r.server.writes ≡ [])
      × (r.client.writes ≡ p.client.writes)
      × (r.client.host ≡ p.client.host)
      × (r.client.port ≡ p.client.port)
unfolding take_off handle react ServerStream.do_read ClientStream.do_read
answer_sent p s local_idle remote_idle writing =
    let q : Pair State = record p { server = record p.server { writes = [] } } in
    let r : Pair State = in_state data_transfer_mode q.session.context (record q {
      server = ServerStream.do_read q.server;
      client = ClientStream.do_read q.client;
    }) in
    (
      r,
      (q, ground (arith, writing), ground (arith, s)),
      refl,
      refl,
      ground (arith, local_idle),
      ground (arith, remote_idle),
      refl,
      refl,
      refl,
      refl,
    )
