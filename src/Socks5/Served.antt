-- ===== src/Socks5/Served.antt =====
-- A client that asks a running SOCKS5 server for a connection is served.
use amgi_net_tools.Base.{ℕ, ◌≤◌, ◌≡◌, ◌∙◌, true, Bytes, [], ◌∷◌, ◌++◌, length, some, ok}
use amgi_net_tools.Base.Table
use amgi_net_tools.Transport.Buffer.{max_buffer_size}
use amgi_net_tools.Transport.ServerStream
use amgi_net_tools.Transport.ServerStream.{Kind}
use amgi_net_tools.Proxy.Errors.{NetErrors}
use amgi_net_tools.Proxy.Store.{Pair, StreamManager}
use amgi_net_tools.Proxy.Network.{server_sent, server_received, client_resolved, client_connected}
use amgi_net_tools.Proxy.Acceptor.{Acceptor}
use amgi_net_tools.Proxy.Deliver.{Runs}
use amgi_net_tools.Proxy.Run.{opening}
use amgi_net_tools.Proxy.Interleaving.{Interleaves, Interleaves-run, Interleaves-Runs}
use amgi_net_tools.Socks5.Packet.{Inet, Address, is_valid_request_packet, get_remote_address_info}
use amgi_net_tools.Socks5.State.{State}
use amgi_net_tools.Socks5.Discipline.{accepted}
use amgi_net_tools.Socks5.Protocol.{socks5}
use amgi_net_tools.Socks5.Serving.{Replies, Serves, run-IsServed}

-- In a running SOCKS5 server that has accepted a connection, plain or over TLS, and while other connections are accepted and
-- operations of other streams complete in any order: where a client sends a packet, good as a hello or not, and then a valid
-- request for an address that can be decoded, each of which fits the buffer, and its own completions are the TLS handshake if
-- there is one, the first packet and its answer, the request, the resolved host and the connection, it is held by a session
-- whose outward stream is for the host and the port of the request, and whose one write to the client has the length of
-- the request and is the request with its second byte set to 0; and where the next of its completions is that write's, by
-- a session that relays data on that stream, with no write under way.
pub Interleaves-Serves :
    (inet : Inet) (errors : NetErrors) (kind : Kind) (id : ℕ) (hello request : Bytes)
    (address : Address) {first a b : Acceptor} {before m n : StreamManager State}
    → Runs (socks5 inet errors) kind first before
    → Table.find id before.sessions ≡ some (accepted (ServerStream.make kind id))
    → length hello ≤ max_buffer_size
    → length request ≤ max_buffer_size
    → is_valid_request_packet request ≡ ok true
    → get_remote_address_info inet request (record { host = []; port = [] }) ≡ ok (true, address)
    → Interleaves
        (socks5 inet errors)
        kind
        id
        first
        before
        (opening kind
          ++ server_received hello
            ∷ server_sent
            ∷ server_received request
            ∷ client_resolved
            ∷ client_connected
            ∷ [])
        a
        m
    → Interleaves (socks5 inet errors) kind id a m (server_sent ∷ []) b n
    → ((q : Pair State) × (Table.find id m.sessions ≡ some q) × Replies request address q)
      × (r : Pair State) × (Table.find id n.sessions ≡ some r)
      × Serves address r
Interleaves-Serves inet errors kind id hello request address running found hello_fits request_fits
      valid decoded history later =
    let protocol = socks5 inet errors in
    let (q, ran, served) =
      run-IsServed inet errors kind id hello request address hello_fits request_fits valid
        decoded in
    let (replies, r, went_on, serves) = served in
    let there =
      Interleaves-run protocol kind id (accepted (ServerStream.make kind id)) running found history
      ∙ ran in
    (
      (q, there, replies),
      r,
      Interleaves-run protocol kind id q (Interleaves-Runs protocol kind id running history) there
            later
          ∙ went_on,
      serves,
    )
