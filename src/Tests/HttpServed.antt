-- ===== src/Tests/HttpServed.antt =====
-- A running HTTP server that opens a tunnel for a client.
use amgi_net_tools.Base.{◌∙◌, ◌≡◌, refl, Bytes, List, [], ◌∷◌, codes, some, arith}
use amgi_net_tools.Base.Table
use amgi_net_tools.Transport.ServerStream.{tls}
use amgi_net_tools.Proxy.Store.{Pair, StreamManager}
use amgi_net_tools.Proxy.Network.{
  Completion, server_handshaken, server_sent, server_received, client_resolved, client_connected,
}
use amgi_net_tools.Proxy.Run.{run}
use amgi_net_tools.Proxy.Interleaving.{Interleaves, Interleaves-run, Interleaves-Runs}
use amgi_net_tools.Http.Text.{is_one_of}
use amgi_net_tools.Http.Request.Connect.{connect_request}
use amgi_net_tools.Http.State.{State}
use amgi_net_tools.Http.Automaton.{react}
use amgi_net_tools.Http.Protocol.{http}
use amgi_net_tools.Http.Serving.{Tunnels, Answered, IsTunnelled, run-IsTunnelled}
use amgi_net_tools.Http.Served.{Interleaves-Tunnels}
use amgi_net_tools.Tests.Running.{loop}
use amgi_net_tools.Tests.Interleaving.{run-Interleaves}
use amgi_net_tools.Tests.HttpRequests.{start, one_session, one_session-Runs}

abbrev request : Bytes
request = connect_request (codes "a.org") (codes "443") (codes "Host: a.org")

abbrev exchange : List Completion
exchange = server_handshaken ∷ server_received request ∷ client_resolved ∷ client_connected ∷ []

exchanged :
    (r : Pair State) × (run react exchange start ≡ some r)
    × IsTunnelled (codes "a.org") (codes "443") r
unfolding is_one_of
exchanged =
    run-IsTunnelled tls 1 97 (codes ".org") 52 (codes "43") 72 (codes "ost: a.org")
      (refl, (refl, (refl, (refl, (refl, tt))))) (refl, (refl, (refl, tt)))
      (refl, (refl, (refl, (refl, (refl, (refl, (refl, (refl, (refl, (refl, (refl, tt)))))))))))
      (omega arith)

history : (m : StreamManager State) × Interleaves http tls 1 loop one_session exchange loop m
unfolding Table.find Table.insert Table.empty Table.put
history = run-Interleaves http 1 one_session-Runs exchange start exchanged.0 refl exchanged.1

held : Table.find 1 history.0.sessions ≡ some exchanged.0
unfolding Table.find Table.insert Table.empty Table.put
held = Interleaves-run http tls 1 start one_session-Runs refl history.1 ∙ exchanged.1

later : (n : StreamManager State) × Interleaves http tls 1 loop history.0 (server_sent ∷ []) loop n
later =
    let (answered, r, ran, tunnels) = exchanged.2 in
    run-Interleaves http 1 (Interleaves-Runs http tls 1 one_session-Runs history.1)
      (server_sent ∷ []) exchanged.0 r held ran

Interleaves-Tunnels_example :
    ((q : Pair State) × (Table.find 1 history.0.sessions ≡ some q)
      × Answered (codes "a.org") (codes "443") q)
    × (r : Pair State) × (Table.find 1 later.0.sessions ≡ some r)
    × Tunnels (codes "a.org") (codes "443") r
unfolding is_one_of Table.find Table.insert Table.empty Table.put
Interleaves-Tunnels_example =
    Interleaves-Tunnels tls 1 97 (codes ".org") 52 (codes "43") 72 (codes "ost: a.org")
      one_session-Runs refl (refl, (refl, (refl, (refl, (refl, tt))))) (refl, (refl, (refl, tt)))
      (refl, (refl, (refl, (refl, (refl, (refl, (refl, (refl, (refl, (refl, (refl, tt)))))))))))
      (omega arith) history.1 later.1
