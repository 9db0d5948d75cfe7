-- ===== src/Tests/HttpRequests.antt =====
-- The HTTP requests at concrete inputs.
use amgi_net_tools.Base.{
  arith, ℕ, [], ap, ◌∙◌, false, ◌>>=◌ as bind, ◌≡◌, refl, Bytes, codes, ok, fault, length_error,
}
use amgi_net_tools.Transport.ServerStream
use amgi_net_tools.Transport.ServerStream.{tls}
use amgi_net_tools.Proxy.Store.{Pair}
use amgi_net_tools.Proxy.StreamManager
use amgi_net_tools.Proxy.Network.{
  server_received, here, next, Reaches, take_off, handle, server_handshaken,
}
use amgi_net_tools.Base.Table
use amgi_net_tools.Proxy.Store.{StreamManager, no_sessions}
use amgi_net_tools.Proxy.Local.{hold, find-hold_self}
use amgi_net_tools.Proxy.Events.{goes_on, commit}
use amgi_net_tools.Proxy.Acceptor.{accept_done, start_accept}
use amgi_net_tools.Proxy.Acceptor
use amgi_net_tools.Proxy.Deliver.{deliver, deliver-handle, Runs, started, accepting}
use amgi_net_tools.Http.Protocol.{http}
use amgi_net_tools.Http.Service.{Runs-OnlyLengthError}
use amgi_net_tools.Proxy.Awaits.{Awaits}
use amgi_net_tools.Http.Progress.{Runs-Awaits_http}
use amgi_net_tools.Tests.Running.{loop, step}
use amgi_net_tools.Http.Text.{split, split_from, is_one_of, emit}
use amgi_net_tools.Http.Request.Forward.{forward_request, get_headers-forward_request}
use amgi_net_tools.Http.Request.{
  RequestHeaders, k_get, k_connect, get_headers, get_host, get_service,
}
use amgi_net_tools.Http.Request.BareHost.{bare_host_throws}
use amgi_net_tools.Http.Request.Connect.{connect_request, get_headers-connect_request}
use amgi_net_tools.Http.State.{State}
use amgi_net_tools.Http.Automaton.{react, on_request}
use amgi_net_tools.Http.Discipline.{accepted}
use amgi_net_tools.Http.Safety.{OnlyLengthError}

abbrev bare_host : Bytes
bare_host = codes "GET / HTTP/1.1\r\nHost:\r\n\r\n"

bare_host_throws_example : get_host (get_headers bare_host) ≡ fault length_error
unfolding split split_from is_one_of emit
bare_host_throws_example =
    bare_host_throws bare_host (codes "GET / HTTP/1.1") (codes "/") (codes "HTTP/1.1") refl refl
      refl refl

get_headers-connect_request_example :
    let request : Bytes = connect_request (codes "a.org") (codes "443") (codes "Host: a.org") in
    ((get_headers request).method ≡ k_connect)
    × (get_host (get_headers request) ≡ ok (codes "a.org"))
    × (get_service (get_headers request) ≡ ok (codes "443"))
unfolding is_one_of
get_headers-connect_request_example =
    get_headers-connect_request 97 (codes ".org") 52 (codes "43") 72 (codes "ost: a.org")
      (refl, (refl, (refl, (refl, (refl, tt))))) (refl, (refl, (refl, tt)))
      (refl, (refl, (refl, (refl, (refl, (refl, (refl, (refl, (refl, (refl, (refl, tt)))))))))))

abbrev pub start : Pair State
start = accepted (ServerStream.make tls 1)

-- The session once the TLS handshake is done, with a read under way or with none.
abbrev pub shaken : ℕ → Pair State
shaken reads = record start { server = record (ServerStream.make tls 1) { reads = reads } }

shaken_step : handle react server_handshaken (shaken 0) ≡ ok (goes_on (shaken 1))
unfolding accepted StreamManager.new_pair ServerStream.do_start ServerStream.make handle
    ServerStream.do_read
shaken_step = refl

pub shaken-Reaches : Reaches react start (shaken 1)
unfolding accepted StreamManager.new_pair ServerStream.do_start ServerStream.make take_off
shaken-Reaches = next {q = shaken 0} server_handshaken here refl shaken_step

bare_host_fails : handle react (server_received bare_host) (shaken 0) ≡ fault length_error
unfolding handle react on_request accepted StreamManager.new_pair ServerStream.do_start
    ServerStream.make
bare_host_fails = rw bare_host_throws_example

abbrev pub one_session : StreamManager State
one_session = record { sessions = Table.insert 1 start Table.empty; retired = [] }

pub one_session-Runs : Runs http tls loop one_session
unfolding accept_done Acceptor.make start_accept StreamManager.on_accept accepted ServerStream.make
    no_sessions
one_session-Runs = accepting false started refl

abbrev listening : StreamManager State
listening = hold 1 (shaken 1) (hold 1 (shaken 0) one_session)

listening-Runs : Runs http tls loop listening
unfolding accepted StreamManager.new_pair ServerStream.do_start ServerStream.make take_off
    Table.find Table.insert Table.empty Table.put
listening-Runs = step http {q = shaken 0} server_handshaken one_session-Runs refl refl shaken_step

bare_host_delivered :
    deliver http (server_received bare_host) 1 (hold 1 (shaken 0) listening) ≡ fault length_error
unfolding accepted StreamManager.new_pair ServerStream.do_start ServerStream.make
bare_host_delivered =
    deliver-handle http (shaken 0) (hold 1 (shaken 0) listening) (server_received bare_host)
      (find-hold_self 1 (shaken 0) listening)
    ∙ ap (λ x. bind x (λ o. ok (tt, commit 1 o (hold 1 (shaken 0) listening)))) bare_host_fails

Runs-OnlyLengthError_example : OnlyLengthError (server_received bare_host) (shaken 1) length_error
unfolding accepted StreamManager.new_pair ServerStream.make take_off
Runs-OnlyLengthError_example =
    Runs-OnlyLengthError tls (server_received bare_host) 1 listening-Runs
      (find-hold_self 1 (shaken 1) _) refl bare_host_delivered

Runs-Awaits_http_example : Awaits (shaken 1)
unfolding accepted StreamManager.new_pair
Runs-Awaits_http_example =
    Runs-Awaits_http tls loop listening 1 (shaken 1) listening-Runs (find-hold_self 1 (shaken 1) _)

get_headers-forward_request_example :
    let req : RequestHeaders =
      get_headers (forward_request k_get (codes "http") (codes "//a.org/") (codes "a.org")) in
    (req.method ≡ k_get)
    × (get_host req ≡ ok (codes "a.org"))
    × (get_service req ≡ ok (codes "http"))
unfolding is_one_of
get_headers-forward_request_example =
    get_headers-forward_request k_get 104 (codes "ttp") 47 (codes "/a.org/") 97 (codes ".org") refl
      (refl, (refl, (refl, (refl, tt))))
      (refl, (refl, (refl, (refl, (refl, (refl, (refl, (refl, tt))))))))
      (refl, (refl, (refl, (refl, (refl, tt))))) (omega arith)
