-- ===== src/Http/Served.antt =====
-- A client that asks a running HTTP server for a tunnel is served.
use amgi_net_tools.Base.{ℕ, ◌≤◌, ◌≡◌, ◌∙◌, Bytes, [], ◌∷◌, ◌++◌, codes, length, some}
use amgi_net_tools.Base.Table
use amgi_net_tools.Transport.Buffer.{max_buffer_size}
use amgi_net_tools.Transport.ServerStream
use amgi_net_tools.Transport.ServerStream.{Kind}
use amgi_net_tools.Proxy.Store.{Pair, StreamManager}
use amgi_net_tools.Proxy.Network.{server_sent, server_received, client_resolved, client_connected}
use amgi_net_tools.Proxy.Acceptor.{Acceptor}
use amgi_net_tools.Proxy.Deliver.{Runs}
use amgi_net_tools.Proxy.Run.{opening}
use amgi_net_tools.Proxy.Interleaving.{Interleaves, Interleaves-run, Interleaves-Runs}
use amgi_net_tools.Http.Splits.{Lacks}
use amgi_net_tools.Http.Request.Connect.{connect_request, separators}
use amgi_net_tools.Http.State.{State}
use amgi_net_tools.Http.Discipline.{accepted}
use amgi_net_tools.Http.Protocol.{http}
use amgi_net_tools.Http.Serving.{Answered, Tunnels, run-IsTunnelled}

-- In a running HTTP server that has accepted a connection, plain or over TLS, and while other connections are accepted and
-- operations of other streams complete in any order: where a client asks for a tunnel to a host and a port, which are not
-- empty and have no space, colon or end of a line in them, in a CONNECT request that has one header line, which is not
-- empty, and fits the buffer, and its own completions are the TLS handshake if there is one, the request, the resolved host
-- and the connection, it is held by a session whose outward stream is for the host and the port, and whose one write to the
-- client has the length of the answer "200" and is that answer; and where the next of its completions is that write's, by
-- a session that relays data on that stream, with a read of each side and no write under way.
pub Interleaves-Tunnels :
    (kind : Kind) (id h : ℕ) (hs : Bytes) (p : ℕ) (ps : Bytes) (b : ℕ) (bs : Bytes)
    {first a c : Acceptor} {before m n : StreamManager State}
    → Runs http kind first before
    → Table.find id before.sessions ≡ some (accepted (ServerStream.make kind id))
    → Lacks separators (h ∷ hs)
    → Lacks separators (p ∷ ps)
    → Lacks (codes "\r\n") (b ∷ bs)
    → length (connect_request (h ∷ hs) (p ∷ ps) (b ∷ bs)) ≤ max_buffer_size
    → Interleaves http kind id first before
        (opening kind
          ++ server_received (connect_request (h ∷ hs) (p ∷ ps) (b ∷ bs))
            ∷ client_resolved
            ∷ client_connected
            ∷ [])
        a
        m
    → Interleaves http kind id a m (server_sent ∷ []) c n
    → ((q : Pair State) × (Table.find id m.sessions ≡ some q) × Answered (h ∷ hs) (p ∷ ps) q)
      × (r : Pair State) × (Table.find id n.sessions ≡ some r)
      × Tunnels (h ∷ hs) (p ∷ ps) r
Interleaves-Tunnels kind id h hs p ps b bs running found host_lacks port_lacks header_lacks fits
      history later =
    let (q, ran, tunnelled) =
      run-IsTunnelled kind id h hs p ps b bs host_lacks port_lacks header_lacks fits in
    let (answered, r, went_on, tunnels) = tunnelled in
    let there =
      Interleaves-run http kind id (accepted (ServerStream.make kind id)) running found history
      ∙ ran in
    (
      (q, there, answered),
      r,
      Interleaves-run http kind id q (Interleaves-Runs http kind id running history) there later
          ∙ went_on,
      tunnels,
    )
