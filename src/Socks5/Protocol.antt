-- ===== src/Socks5/Protocol.antt =====
-- SOCKS5 as a protocol of the manager.
use amgi_net_tools.Base.{◌≡◌, ok, arith}
use amgi_net_tools.Proxy.Errors.{NetErrors}
use amgi_net_tools.Proxy.Store.{Pair}
use amgi_net_tools.Proxy.Events.{server_read, Event, goes_on}
use amgi_net_tools.Proxy.Protocol.{Protocol}
use amgi_net_tools.Socks5.Packet.{Inet}
use amgi_net_tools.Socks5.State.{State, auth_request}
use amgi_net_tools.Socks5.Automaton.{
  react, on_hello, dial, on_request, reply, to_remote, to_local, finish,
}
use amgi_net_tools.Socks5.Callbacks.{callback}
use amgi_net_tools.Socks5.Refinement.{callback-react, callback-stale}

pub react-keeps_id :
    (inet : Inet) (errors : NetErrors) (e : Event) (p q : Pair State)
    → react inet errors e p ≡ ok (goes_on q)
    → q.session.context.id ≡ p.session.context.id
unfolding react on_hello dial on_request reply to_remote to_local finish
react-keeps_id inet errors (server_read buffer) p q h = ground arith
react-keeps_id inet errors _ p q h = ground arith

abbrev pub socks5 : Inet → NetErrors → Protocol State
socks5 inet errors = record {
  initial = auth_request;
  callback = callback inet errors;
  react = react inet errors;
  refines = callback-react inet errors;
  stale = callback-stale inet errors;
  keeps_id = react-keeps_id inet errors;
}
