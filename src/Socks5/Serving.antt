-- ===== src/Socks5/Serving.antt =====
-- A client that asks a SOCKS5 session for a connection is served.
use amgi_net_tools.Base.{ℕ, ◌≤◌, ◌≡◌, refl, true, Bytes, [], ◌∷◌, length, some, ok, arith}
use amgi_net_tools.Transport.Buffer.{max_buffer_size}
use amgi_net_tools.Transport.ServerStream
use amgi_net_tools.Transport.ServerStream.{ServerStream, Kind, tcp, tls}
use amgi_net_tools.Proxy.Errors.{NetErrors}
use amgi_net_tools.Proxy.Store.{Pair}
use amgi_net_tools.Proxy.StreamManager
use amgi_net_tools.Proxy.Network.{
  Completion, server_handshaken, server_sent, server_received, client_resolved, client_connected,
  take_off, handle, Reaches, here, next,
}
use amgi_net_tools.Socks5.Packet.{Inet, Address, is_valid_request_packet, get_remote_address_info}
use amgi_net_tools.Socks5.State.{
  State, auth_request, connection_established, ready_to_transfer_data, data_transfer_mode,
}
use amgi_net_tools.Socks5.Automaton.{react}
use amgi_net_tools.Proxy.Run.{run, run-next, Answers, Answers-run, host_resolved, opening}
use amgi_net_tools.Base.{List, Option, ◌++◌, ◌∙◌, ap, sym, take, set}
use amgi_net_tools.Socks5.Discipline.{IsTidy, accepted, Reaches-IsTidy}
use amgi_net_tools.Socks5.Turns.{
  hello_answered, answer_sent, request_dialled, connection_reported, reply_sent,
}

-- An accepted session comes to read its hello.
greeted :
    (inet : Inet) (errors : NetErrors) (kind : Kind) (id : ℕ)
    → let begun : Pair State = accepted (ServerStream.make kind id) in
      (p : Pair State) × Reaches (react inet errors) begun p
      × (p.session.state ≡ auth_request)
      × (p.server.reads ≡ 1)
      × ((cs : List Completion)
          → run (react inet errors) (opening kind ++ cs) begun ≡ run (react inet errors) cs p)
unfolding accepted StreamManager.new_pair ServerStream.do_start ServerStream.make take_off handle
    ServerStream.do_read
greeted inet errors tcp id = (_, here, refl, refl, λ cs. refl)
greeted inet errors tls id = (
  _,
  next server_handshaken here refl refl,
  refl,
  refl,
  λ cs. run-next (react inet errors) server_handshaken cs _ _ _ refl refl,
)

-- A session that has connected to the host and the port of an address, and whose one write is the request with its
-- second byte, the command, set to 0, "succeeded".
abbrev pub Replies : Bytes → Address → Pair State → Type 0
Replies request address p =
    (p.session.state ≡ ready_to_transfer_data)
    × (p.client.host ≡ address.host)
    × (p.client.port ≡ address.port)
    × (p.server.writes ≡ length request ∷ [])
    × (take (length request) p.server.write_buffer ≡ set request 1 0)

-- A session that relays, for the host and the port that its stream connected to, with no write under way.
abbrev pub Serves : Address → Pair State → Type 0
Serves address p =
    (p.session.state ≡ data_transfer_mode)
    × (p.client.host ≡ address.host)
    × (p.client.port ≡ address.port)
    × (p.session.context.host ≡ address.host)
    × (p.session.context.service ≡ address.port)
    × (p.server.writes ≡ [])
    × (p.client.writes ≡ [])

module _ (inet : Inet) (errors : NetErrors) (kind : Kind) (id : ℕ) where
  abbrev Reached : Pair State → Type 0
  Reached p = Reaches (react inet errors) (accepted (ServerStream.make kind id)) p

  abbrev runs : List Completion → Pair State → Option (Pair State)
  runs cs p = run (react inet errors) cs p

  after :
      {p r : Pair State} (c : Completion)
      → Reached p
      → Answers (react inet errors) c p r
      → Reached r
  after c reached (q, taken, answered) = next c reached taken answered

  tidy : {p : Pair State} → Reached p → IsTidy p
  tidy reached = Reaches-IsTidy inet errors kind id reached

  -- Where the reply is sent, and what its end makes of the session.
  abbrev pub IsServed : Bytes → Address → Pair State → Type 0
  IsServed request address b =
      Replies request address b
      × (c : Pair State) × (runs (server_sent ∷ []) b ≡ some c)
      × Serves address c

  established-IsServed :
      (p : Pair State) (request : Bytes) (address : Address)
      → Reached p
      → p.session.state ≡ connection_established
      → p.session.context.host ≡ address.host
      → p.session.context.service ≡ address.port
      → p.session.context.response ≡ request
      → p.client.host ≡ address.host
      → p.client.port ≡ address.port
      → p.client.resolves ≡ 1
      → (b : Pair State) × (runs (client_resolved ∷ client_connected ∷ []) p ≡ some b)
        × IsServed request address b
  unfolding run
  established-IsServed p request address reached s host service response to_host to_port resolving =
      let (a, resolved, kept, more, kept_host, kept_port) =
        host_resolved (react inet errors) p resolving in
      let at_a = after {r = a} client_resolved reached resolved in
      let t = tidy reached in
      let u = tidy at_a in
      let stored : a.session.context.response ≡ request =
        ap (λ x. x.context.response) kept ∙ response in
      let (b, reported, ready, same_host, same_service, still_host, still_port, writing, filled) =
        connection_reported inet errors a u (ground (arith, kept, s))
          (ground (arith, more, s, resolving, t.phase)) in
      let at_b = after {r = b} client_connected at_a reported in
      let v = tidy at_b in
      let (c, sent, relays, context, no_local_write, kept_writes, last_host, last_port) =
        reply_sent inet errors b ready (ground (arith, ready, v.phase)) in
      (
        b,
        Answers-run (react inet errors) p a b client_resolved (client_connected ∷ []) resolved
            (Answers-run (react inet errors) a b b client_connected [] reported refl),
        (
          (
            ready,
            still_host ∙ kept_host ∙ to_host,
            still_port ∙ kept_port ∙ to_port,
            writing ∙ ap (λ l. length l ∷ []) stored,
            ap (λ l. take (length l) b.server.write_buffer) (sym stored)
                ∙ filled
                ∙ ap (λ l. set l 1 0) stored,
          ),
          c,
          Answers-run (react inet errors) b c c server_sent [] sent refl,
          (
            relays,
            last_host ∙ still_host ∙ kept_host ∙ to_host,
            last_port ∙ still_port ∙ kept_port ∙ to_port,
            ground (arith, context, same_host, kept, host),
            ground (arith, context, same_service, kept, service),
            no_local_write,
            ground (arith, kept_writes, ready, v.phase),
          ),
        ),
      )

  module _ (hello request : Bytes) (address : Address) where
    abbrev exchange : List Completion
    exchange =
        server_received hello
        ∷ server_sent
        ∷ server_received request
        ∷ client_resolved
        ∷ client_connected
        ∷ []

    greeting-IsServed :
        (p : Pair State)
        → Reached p
        → p.session.state ≡ auth_request
        → p.server.reads ≡ 1
        → length hello ≤ max_buffer_size
        → length request ≤ max_buffer_size
        → is_valid_request_packet request ≡ ok true
        → get_remote_address_info inet request (record { host = []; port = [] })
          ≡ ok (true, address)
        → (r : Pair State) × (runs exchange p ≡ some r) × IsServed request address r
    greeting-IsServed p reached s reading hello_fits request_fits valid decoded =
        let (a, answered, requests, writing) =
          hello_answered inet errors p hello (tidy reached) s reading hello_fits in
        let at_a = after {r = a} (server_received hello) reached answered in
        let t = tidy at_a in
        let (b, sent, requests_still, reads) =
          answer_sent inet errors a requests (ground (arith, requests, writing, t.phase)) writing in
        let at_b = after {r = b} server_sent at_a sent in
        let u = tidy at_b in
        let (c, dialled, established, host, service, response, to_host, to_port, resolving) =
          request_dialled inet errors b request address requests_still reads request_fits valid
            decoded (ground (arith, requests_still, u.phase)) in
        let at_c = after {r = c} (server_received request) at_b dialled in
        let (d, connected, served) =
          established-IsServed c request address at_c established host service response to_host
            to_port resolving in
        let last = client_resolved ∷ client_connected ∷ [] in
        (
          d,
          Answers-run (react inet errors) p a d (server_received hello)
              (server_sent ∷ server_received request ∷ last) answered
              (Answers-run (react inet errors) a b d server_sent (server_received request ∷ last)
                sent
                (Answers-run (react inet errors) b c d (server_received request) last dialled
                  connected)),
          served,
        )

-- An accepted connection, plain or over TLS, whose client sends a packet, good as a hello or not, and then a valid request
-- for an address that can be decoded, each of which fits the buffer: when, after the TLS handshake if there is one, the first
-- packet is received and its answer sent, and the request received, the host resolved and the connection made, the session
-- has connected to the host and the port of the request and sends the reply, and once that is sent it relays data.
pub run-IsServed :
    (inet : Inet) (errors : NetErrors) (kind : Kind) (id : ℕ) (hello request : Bytes)
    (address : Address)
    → length hello ≤ max_buffer_size
    → length request ≤ max_buffer_size
    → is_valid_request_packet request ≡ ok true
    → get_remote_address_info inet request (record { host = []; port = [] }) ≡ ok (true, address)
    → (r : Pair State) × (run
          (react inet errors)
          (opening kind
            ++ server_received hello
              ∷ server_sent
              ∷ server_received request
              ∷ client_resolved
              ∷ client_connected
              ∷ [])
          (accepted (ServerStream.make kind id))
        ≡ some r)
      × IsServed inet errors kind id request address r
run-IsServed inet errors kind id hello request address hello_fits request_fits valid decoded =
    let (p, reached, s, reading, opened) = greeted inet errors kind id in
    let (r, served, serves) =
      greeting-IsServed inet errors kind id hello request address p reached s reading hello_fits
        request_fits valid decoded in
    (r, opened _ ∙ served, serves)
