-- ===== src/Tests/Service.antt =====
-- A running SOCKS5 server that has accepted one connection.
use amgi_net_tools.Base.{
  arith, none, ◌<◌, ◌≡◌, refl, ap, ◌∙◌, [], ok, fault, over_read, false, ◌>>=◌ as bind,
}
use amgi_net_tools.Base.Table
use amgi_net_tools.Transport.ServerStream
use amgi_net_tools.Transport.ServerStream.{tls}
use amgi_net_tools.Proxy.Store.{StreamManager, no_sessions}
use amgi_net_tools.Proxy.StreamManager
use amgi_net_tools.Proxy.Local.{hold, find-hold_self}
use amgi_net_tools.Proxy.Events.{commit}
use amgi_net_tools.Proxy.Network.{
  server_handshaken, server_sent, server_received, Reaches, take_off,
}
use amgi_net_tools.Proxy.Acceptor.{Acceptor, accept_done, start_accept}
use amgi_net_tools.Proxy.Acceptor
use amgi_net_tools.Proxy.Protocol.{Protocol}
use amgi_net_tools.Socks5.State.{State}
use amgi_net_tools.Socks5.Automaton.{react}
use amgi_net_tools.Socks5.Discipline.{accepted}
use amgi_net_tools.Socks5.Safety.{OnlyOverRead}
use amgi_net_tools.Proxy.Deliver.{deliver, deliver-handle, Runs, started, accepting}
use amgi_net_tools.Proxy.Histories.{Runs-IsOwn}
use amgi_net_tools.Socks5.Protocol.{socks5}
use amgi_net_tools.Socks5.Service.{Runs-OnlyOverRead}
use amgi_net_tools.Proxy.Awaits.{Awaits}
use amgi_net_tools.Socks5.Progress.{Runs-Awaits}
use amgi_net_tools.Tests.Running.{loop, step}
use amgi_net_tools.Tests.Samples.{sample_inet, linux_errors}
use amgi_net_tools.Tests.Greeting.{
  start, shaken, shaken_step, hello, greeted, greeted_step, waiting, waiting_step, cut_request,
  cut_request_fails,
}

abbrev pub served : Protocol State
served = socks5 sample_inet linux_errors

abbrev pub one_session : StreamManager State
one_session = record { sessions = Table.insert 1 start Table.empty; retired = [] }

pub one_session-Runs : Runs served tls loop one_session
unfolding accept_done Acceptor.make start_accept StreamManager.on_accept accepted ServerStream.make
    no_sessions
one_session-Runs = accepting false started refl

abbrev shaking : StreamManager State
shaking = hold 1 (shaken 1) (hold 1 (shaken 0) one_session)

abbrev greeting : StreamManager State
greeting = hold 1 greeted (hold 1 (shaken 0) shaking)

abbrev listening : StreamManager State
listening = hold 1 (waiting 1) (hold 1 (waiting 0) greeting)

listening-Runs : Runs served tls loop listening
unfolding accepted StreamManager.new_pair ServerStream.do_start ServerStream.make take_off
    Table.find Table.insert Table.empty Table.put
listening-Runs =
    step served {q = waiting 0} server_sent
      (step served {q = shaken 0} (server_received hello)
        (step served {q = shaken 0} server_handshaken one_session-Runs refl refl shaken_step)
        (find-hold_self 1 (shaken 1) _) refl greeted_step)
      (find-hold_self 1 greeted _) refl waiting_step

Runs-IsOwn_example :
    (1 < 2)
    × Reaches (react sample_inet linux_errors) (accepted (ServerStream.make tls 1)) (waiting 1)
    × (Table.find 2 listening.sessions ≡ none)
unfolding accepted StreamManager.new_pair
Runs-IsOwn_example =
    Runs-IsOwn served tls 1 (waiting 1) listening-Runs (omega arith)
      (find-hold_self 1 (waiting 1) _)

cut_request_delivered :
    deliver served (server_received cut_request) 1 (hold 1 (waiting 0) listening) ≡ fault over_read
unfolding accepted StreamManager.new_pair ServerStream.do_start ServerStream.make
cut_request_delivered =
    deliver-handle served (waiting 0) (hold 1 (waiting 0) listening) (server_received cut_request)
      (find-hold_self 1 (waiting 0) listening)
    ∙ ap (λ x. bind x (λ o. ok (tt, commit 1 o (hold 1 (waiting 0) listening)))) cut_request_fails

Runs-OnlyOverRead_example : OnlyOverRead (server_received cut_request) (waiting 1) over_read
unfolding accepted StreamManager.new_pair ServerStream.make take_off
Runs-OnlyOverRead_example =
    Runs-OnlyOverRead sample_inet linux_errors tls (server_received cut_request) 1 listening-Runs
      (find-hold_self 1 (waiting 1) _) refl cut_request_delivered

Runs-Awaits_example : Awaits (waiting 1)
unfolding accepted StreamManager.new_pair
Runs-Awaits_example =
    Runs-Awaits sample_inet linux_errors tls loop listening 1 (waiting 1) listening-Runs
      (find-hold_self 1 (waiting 1) _)
