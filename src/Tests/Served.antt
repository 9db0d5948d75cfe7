-- ===== src/Tests/Served.antt =====
-- A running SOCKS5 server that serves a client.
use amgi_net_tools.Base.{◌∙◌, ◌≡◌, refl, Bytes, List, [], ◌∷◌, codes, some, arith}
use amgi_net_tools.Base.Table
use amgi_net_tools.Decimal.{decimal}
use amgi_net_tools.Transport.ServerStream.{tls}
use amgi_net_tools.Proxy.Store.{Pair, StreamManager}
use amgi_net_tools.Proxy.Network.{
  Completion, server_handshaken, server_sent, server_received, client_resolved, client_connected,
}
use amgi_net_tools.Proxy.Run.{run}
use amgi_net_tools.Proxy.Interleaving.{Interleaves, Interleaves-run, Interleaves-Runs}
use amgi_net_tools.Socks5.Packet.{Address, is_valid_request_packet, get_remote_address_info}
use amgi_net_tools.Socks5.State.{State}
use amgi_net_tools.Socks5.Automaton.{react}
use amgi_net_tools.Socks5.Serving.{Serves, Replies, IsServed, run-IsServed}
use amgi_net_tools.Socks5.Served.{Interleaves-Serves}
use amgi_net_tools.Tests.Samples.{sample_inet, linux_errors}
use amgi_net_tools.Tests.Running.{loop}
use amgi_net_tools.Tests.Interleaving.{run-Interleaves}
use amgi_net_tools.Tests.Greeting.{start}
use amgi_net_tools.Tests.Service.{served, one_session, one_session-Runs}

abbrev request : Bytes
request = 5 ∷ 1 ∷ 0 ∷ 1 ∷ 127 ∷ 0 ∷ 0 ∷ 1 ∷ 0 ∷ 80 ∷ []

abbrev address : Address
address = record { host = codes "127.0.0.1"; port = codes "80" }

abbrev exchange : List Completion
exchange =
    server_handshaken
    ∷ server_received (5 ∷ 1 ∷ 0 ∷ [])
    ∷ server_sent
    ∷ server_received request
    ∷ client_resolved
    ∷ client_connected
    ∷ []

exchanged :
    (r : Pair State) × (run (react sample_inet linux_errors) exchange start ≡ some r)
    × IsServed sample_inet linux_errors tls 1 request address r
unfolding is_valid_request_packet get_remote_address_info decimal
exchanged =
    run-IsServed sample_inet linux_errors tls 1 (5 ∷ 1 ∷ 0 ∷ []) request address (omega arith)
      (omega arith) refl refl

history : (m : StreamManager State) × Interleaves served tls 1 loop one_session exchange loop m
unfolding Table.find Table.insert Table.empty Table.put
history = run-Interleaves served 1 one_session-Runs exchange start exchanged.0 refl exchanged.1

Interleaves-run_example : Table.find 1 history.0.sessions ≡ run served.react exchange start
unfolding Table.find Table.insert Table.empty Table.put
Interleaves-run_example = Interleaves-run served tls 1 start one_session-Runs refl history.1

held : Table.find 1 history.0.sessions ≡ some exchanged.0
unfolding Table.find Table.insert Table.empty Table.put
held = Interleaves-run served tls 1 start one_session-Runs refl history.1 ∙ exchanged.1

later :
    (n : StreamManager State) × Interleaves served tls 1 loop history.0 (server_sent ∷ []) loop n
later =
    let (replies, r, ran, serves) = exchanged.2 in
    run-Interleaves served 1 (Interleaves-Runs served tls 1 one_session-Runs history.1)
      (server_sent ∷ []) exchanged.0 r held ran

Interleaves-Serves_example :
    ((q : Pair State) × (Table.find 1 history.0.sessions ≡ some q) × Replies request address q)
    × (r : Pair State) × (Table.find 1 later.0.sessions ≡ some r)
    × Serves address r
unfolding is_valid_request_packet get_remote_address_info decimal Table.find Table.insert
    Table.empty Table.put
Interleaves-Serves_example =
    Interleaves-Serves sample_inet linux_errors tls 1 (5 ∷ 1 ∷ 0 ∷ []) request address
      one_session-Runs refl (omega arith) (omega arith) refl refl history.1 later.1
