-- ===== src/Http/Progress.antt =====
-- HTTP sessions go on.
use amgi_net_tools.Base.{ℕ, ◌≡◌, refl, some, arith}
use amgi_net_tools.Base.Table
use amgi_net_tools.Transport.ServerStream.{Kind}
use amgi_net_tools.Proxy.Store.{Pair, StreamManager}
use amgi_net_tools.Proxy.Load.{load}
use amgi_net_tools.Proxy.Awaits.{Awaits, busy-Awaits}
use amgi_net_tools.Proxy.Acceptor.{Acceptor}
use amgi_net_tools.Proxy.Deliver.{Runs}
use amgi_net_tools.Proxy.Histories.{Runs-Held}
use amgi_net_tools.Http.State.{
  State, wait_request, connection_established, ready_to_transfer_data, data_transfer_mode,
}
use amgi_net_tools.Http.Discipline.{Phase, accepted, Reaches-IsTidy_http}
use amgi_net_tools.Http.Protocol.{http}

busy :
    (p : Pair State) (s : State) → p.session.state ≡ s → Phase p.session.state (load p) → Awaits p
busy p wait_request s phase = busy-Awaits p (ground (arith, s, phase))
busy p connection_established s phase = busy-Awaits p (ground (arith, s, phase))
busy p ready_to_transfer_data s phase = busy-Awaits p (ground (arith, s, phase))
busy p data_transfer_mode s phase = busy-Awaits p (ground (arith, s, phase))

-- No session that a running HTTP server holds is stuck: an operation of it is under way, whose completion can come.
pub Runs-Awaits_http :
    (kind : Kind) (a : Acceptor) (m : StreamManager State) (id : ℕ) (p : Pair State)
    → Runs http kind a m
    → Table.find id m.sessions ≡ some p
    → Awaits p
unfolding accepted
Runs-Awaits_http kind a m id p running at =
    let (_, reached) = Runs-Held http kind running id p at in
    let tidy = Reaches-IsTidy_http kind id reached in busy p p.session.state refl tidy.phase
