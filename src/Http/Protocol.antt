-- ===== src/Http/Protocol.antt =====
-- HTTP as a protocol of the manager.
use amgi_net_tools.Base.{◌≡◌, ok, arith}
use amgi_net_tools.Proxy.Store.{Pair}
use amgi_net_tools.Proxy.Events.{server_read, Event, goes_on}
use amgi_net_tools.Proxy.Protocol.{Protocol}
use amgi_net_tools.Http.State.{State, wait_request}
use amgi_net_tools.Http.Automaton.{
  react, turn_away, dial, on_request, first_to_local, first_to_remote, to_remote, to_local, finish,
}
use amgi_net_tools.Http.Callbacks.{callback}
use amgi_net_tools.Http.Refinement.{callback-react_http, callback-stale_http}

pub react-keeps_id :
    (e : Event) (p q : Pair State)
    → react e p ≡ ok (goes_on q)
    → q.session.context.id ≡ p.session.context.id
unfolding react turn_away dial on_request first_to_local first_to_remote to_remote to_local finish
react-keeps_id (server_read buffer) p q h = ground arith
react-keeps_id _ p q h = ground arith

abbrev pub http : Protocol State
http = record {
  initial = wait_request;
  callback = callback;
  react = react;
  refines = callback-react_http;
  stale = callback-stale_http;
  keeps_id = react-keeps_id;
}
