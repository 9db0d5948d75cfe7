-- ===== src/Http/Serving.antt =====
-- A client that asks an HTTP session for a tunnel is served.
use amgi_net_tools.Base.{
  ℕ, ◌≤◌, ◌≡◌, refl, ap, ◌∙◌, Bytes, List, [], ◌∷◌, ◌++◌, codes, length, take, some, arith,
}
use amgi_net_tools.Transport.Buffer.{max_buffer_size}
use amgi_net_tools.Transport.ServerStream
use amgi_net_tools.Transport.ServerStream.{ServerStream, Kind, tcp, tls}
use amgi_net_tools.Proxy.Store.{Pair}
use amgi_net_tools.Proxy.StreamManager
use amgi_net_tools.Proxy.Network.{
  Completion, server_handshaken, server_sent, server_received, client_resolved, client_connected,
  take_off, handle, Reaches, here, next,
}
use amgi_net_tools.Proxy.Run.{run, run-next, Answers, Answers-run, host_resolved, opening}
use amgi_net_tools.Http.Splits.{Lacks}
use amgi_net_tools.Http.Request.Connect.{connect_request, separators, get_headers-connect_request}
use amgi_net_tools.Http.State.{
  State, wait_request, connection_established, ready_to_transfer_data, data_transfer_mode,
  k_http_done,
}
use amgi_net_tools.Http.Automaton.{react}
use amgi_net_tools.Http.Discipline.{accepted, Reaches-IsTidy_http}
use amgi_net_tools.Http.Turns.{tunnel_dialled, tunnel_reported, answer_sent}

-- An accepted session comes to read its request.
listens :
    (kind : Kind) (id : ℕ)
    → let begun : Pair State = accepted (ServerStream.make kind id) in
      (p : Pair State) × Reaches react begun p
      × (p.session.state ≡ wait_request)
      × (p.server.reads ≡ 1)
      × ((cs : List Completion) → run react (opening kind ++ cs) begun ≡ run react cs p)
unfolding accepted StreamManager.new_pair ServerStream.do_start ServerStream.make take_off handle
    ServerStream.do_read
listens tcp id = (_, here, refl, refl, λ cs. refl)
listens tls id = (
  _,
  next server_handshaken here refl refl,
  refl,
  refl,
  λ cs. run-next react server_handshaken cs _ _ _ refl refl,
)

-- A session that has connected to a host and a port, and whose one write is the answer that says so.
abbrev pub Answered : Bytes → Bytes → Pair State → Type 0
Answered host port p =
    (p.session.state ≡ ready_to_transfer_data)
    × (p.client.host ≡ host)
    × (p.client.port ≡ port)
    × (p.server.writes ≡ length k_http_done ∷ [])
    × (take (length k_http_done) p.server.write_buffer ≡ k_http_done)

-- A session that tunnels for the host and the port that its stream connected to, with a read of each side and no write under way.
abbrev pub Tunnels : Bytes → Bytes → Pair State → Type 0
Tunnels host port p =
    (p.session.state ≡ data_transfer_mode)
    × (p.client.host ≡ host)
    × (p.client.port ≡ port)
    × (p.session.context.host ≡ host)
    × (p.session.context.service ≡ port)
    × (p.server.reads ≡ 1)
    × (p.client.reads ≡ 1)
    × (p.server.writes ≡ [])
    × (p.client.writes ≡ [])

-- Where the answer is sent, and what its end makes of the session.
abbrev pub IsTunnelled : Bytes → Bytes → Pair State → Type 0
IsTunnelled host port b =
    Answered host port b
    × (c : Pair State) × (run react (server_sent ∷ []) b ≡ some c)
    × Tunnels host port c

module _ (kind : Kind) (id : ℕ) where
  abbrev Reached : Pair State → Type 0
  Reached p = Reaches react (accepted (ServerStream.make kind id)) p

  after : {p r : Pair State} (c : Completion) → Reached p → Answers react c p r → Reached r
  after c reached (q, taken, answered) = next c reached taken answered

  established-IsTunnelled :
      (p : Pair State) (host port : Bytes)
      → Reached p
      → p.session.state ≡ connection_established
      → p.session.context.host ≡ host
      → p.session.context.service ≡ port
      → p.session.context.response ≡ k_http_done
      → p.client.host ≡ host
      → p.client.port ≡ port
      → p.client.resolves ≡ 1
      → (b : Pair State) × (run react (client_resolved ∷ client_connected ∷ []) p ≡ some b)
        × IsTunnelled host port b
  unfolding run
  established-IsTunnelled p host port reached s same_host same_port response to_host to_port
        resolving =
      let (a, resolved, kept, more, kept_host, kept_port) = host_resolved react p resolving in
      let at_a = after {r = a} client_resolved reached resolved in
      let t = Reaches-IsTidy_http kind id reached in
      let u = Reaches-IsTidy_http kind id at_a in
      let (b, reported, ready, context, still_host, still_port, writing, told) =
        tunnel_reported a u (ground (arith, kept, s)) (ground (arith, kept, response))
          (ground (arith, more, s, resolving, t.phase)) in
      let at_b = after {r = b} client_connected at_a reported in
      let v = Reaches-IsTidy_http kind id at_b in
      let (
        c, sent, relays, last, local_read, remote_read, no_local_write, kept_writes, last_host,
        last_port,
      ) =
        answer_sent b ready (ground (arith, ready, v.phase)) (ground (arith, ready, v.phase))
          (ap length writing) in
      (
        b,
        Answers-run react p a b client_resolved (client_connected ∷ []) resolved
            (Answers-run react a b b client_connected [] reported refl),
        (
          (
            ready,
            still_host ∙ kept_host ∙ to_host,
            still_port ∙ kept_port ∙ to_port,
            writing,
            told,
          ),
          c,
          Answers-run react b c c server_sent [] sent refl,
          (
            relays,
            last_host ∙ still_host ∙ kept_host ∙ to_host,
            last_port ∙ still_port ∙ kept_port ∙ to_port,
            ground (arith, last, context, kept, same_host),
            ground (arith, last, context, kept, same_port),
            local_read,
            remote_read,
            no_local_write,
            ground (arith, kept_writes, ready, writing, v.phase),
          ),
        ),
      )

-- An accepted connection, plain or over TLS, whose client asks for a tunnel to a host and a port, which are not empty and
-- have no space, colon or end of a line in them, in a CONNECT request that has one header line, which is not empty, and
-- fits the buffer: when, after the TLS handshake if there is one, the request is received, the host resolved and the
-- connection made, the session has connected to the host and the port and sends the answer, and once that is sent it relays data.
pub run-IsTunnelled :
    (kind : Kind) (id h : ℕ) (hs : Bytes) (p : ℕ) (ps : Bytes) (b : ℕ) (bs : Bytes)
    → Lacks separators (h ∷ hs)
    → Lacks separators (p ∷ ps)
    → Lacks (codes "\r\n") (b ∷ bs)
    → length (connect_request (h ∷ hs) (p ∷ ps) (b ∷ bs)) ≤ max_buffer_size
    → (r : Pair State) × (run react
          (opening kind
            ++ server_received (connect_request (h ∷ hs) (p ∷ ps) (b ∷ bs))
              ∷ client_resolved
              ∷ client_connected
              ∷ [])
          (accepted (ServerStream.make kind id))
        ≡ some r)
      × IsTunnelled (h ∷ hs) (p ∷ ps) r
run-IsTunnelled kind id h hs p ps b bs host_lacks port_lacks header_lacks fits =
    let request = connect_request (h ∷ hs) (p ∷ ps) (b ∷ bs) in
    let (method, host, port) =
      get_headers-connect_request h hs p ps b bs host_lacks port_lacks header_lacks in
    let (start, reached, s, reading, opened) = listens kind id in
    let t = Reaches-IsTidy_http kind id reached in
    let (a, dialled, established, same_host, same_port, response, to_host, to_port, resolving) =
      tunnel_dialled start request (h ∷ hs) (p ∷ ps) s reading fits method host port refl refl
        (ground (arith, s, t.phase)) in
    let (r, connected, tunnels) =
      established-IsTunnelled kind id a (h ∷ hs) (p ∷ ps)
        (after kind id {r = a} (server_received request) reached dialled) established same_host
        same_port response to_host to_port resolving in
    (
      r,
      opened _
          ∙ Answers-run react start a r (server_received request)
              (client_resolved ∷ client_connected ∷ []) dialled connected,
      tunnels,
    )
