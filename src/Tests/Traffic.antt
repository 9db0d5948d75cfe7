-- ===== src/Tests/Traffic.antt =====
-- A running server with one session that relays a byte, while an accept fails and the acceptor is closed.
use amgi_net_tools.Base.{refl, [], ◌∷◌, drop, true, false, arith}
use amgi_net_tools.Base.Table
use amgi_net_tools.Base.Pipe.{silence, first_or, Wire}
use amgi_net_tools.Transport.Buffer.{zeroed_buffer}
use amgi_net_tools.Transport.ServerStream.{tls}
use amgi_net_tools.Transport.ServerStream
use amgi_net_tools.Transport.ClientStream
use amgi_net_tools.Proxy.StreamManager
use amgi_net_tools.Proxy.Local.{hold, find-hold_self}
use amgi_net_tools.Proxy.Network.{server_received, client_sent, take_off}
use amgi_net_tools.Proxy.Acceptor.{Acceptor, accept_done, start_accept}
use amgi_net_tools.Proxy.Acceptor
use amgi_net_tools.Proxy.Carry.{Cut}
use amgi_net_tools.Proxy.Traffic.{Traffic, begins, closes, accepts, delivers}
use amgi_net_tools.Tests.Running.{loop, Holds, Reaches-Holds, delivered_on}
use amgi_net_tools.Socks5.Discipline.{accepted}
use amgi_net_tools.Socks5.Counts.{Traffic-IsCounted_by_socks}
use amgi_net_tools.Proxy.Counts.{IsCounted}
use amgi_net_tools.Tests.Samples.{sample_inet, linux_errors}
use amgi_net_tools.Tests.Service.{served, one_session, one_session-Runs}
use amgi_net_tools.Tests.Relaying.{relaying, counted, relaying-Reaches, received_step, sent_step}

-- The server once its session relays.
relaying_server : Holds served 1 loop (relaying 1 1 zeroed_buffer [])
unfolding accepted Table.find Table.insert Table.empty Table.put
relaying_server = Reaches-Holds served 1 (one_session, one_session-Runs, refl) relaying-Reaches

-- The acceptor once an accept failed and it was closed.
abbrev shut : Acceptor
shut = record { stream_id = 3; is_open = false }

abbrev uncut : Cut
uncut = record { local = 0; remote = 0 }

-- A byte from the local side on its way.
abbrev relayed : Wire
relayed = record silence { from_local = 7 ∷ []; to_remote = 7 ∷ [] }

relayed-Traffic :
    Traffic served tls 1 loop relaying_server.0 shut
      (hold 1 (counted 1 1 (7 ∷ drop 1 zeroed_buffer) []) (
        hold 1 (counted 0 1 (7 ∷ drop 1 zeroed_buffer) []) (
          hold 1
            (counted 0 1 (7 ∷ drop 1 zeroed_buffer) (1 ∷ []))
            (hold 1 (relaying 0 1 zeroed_buffer []) relaying_server.0))))
      relayed
unfolding accepted StreamManager.new_pair ServerStream.make ClientStream.make take_off first_or
    accept_done start_accept Acceptor.close ServerStream.do_start
relayed-Traffic =
    delivers {q = counted 0 1 (7 ∷ drop 1 zeroed_buffer) []} uncut client_sent 1
      (closes (
        accepts true
          (delivers {q = relaying 0 1 zeroed_buffer []} uncut (server_received (7 ∷ [])) 1 begins
            relaying_server.2 refl
            (delivered_on served 1 (relaying 0 1 zeroed_buffer [])
              (counted 0 1 (7 ∷ drop 1 zeroed_buffer) (1 ∷ [])) (server_received (7 ∷ [])) _ refl
              received_step))
          refl))
      (find-hold_self 1 (counted 0 1 (7 ∷ drop 1 zeroed_buffer) (1 ∷ [])) _) refl
      (delivered_on served 1 (counted 0 1 (7 ∷ drop 1 zeroed_buffer) [])
        (counted 1 1 (7 ∷ drop 1 zeroed_buffer) []) client_sent _ refl sent_step)

Traffic-IsCounted_by_socks_example :
    IsCounted
      (relaying 1 1 zeroed_buffer []).session.context
      (counted 1 1 (7 ∷ drop 1 zeroed_buffer) []).session.context
      relayed
unfolding accepted StreamManager.new_pair ServerStream.make ClientStream.make
Traffic-IsCounted_by_socks_example =
    Traffic-IsCounted_by_socks sample_inet linux_errors tls 1 (relaying 1 1 zeroed_buffer [])
      (counted 1 1 (7 ∷ drop 1 zeroed_buffer) []) relaying_server.1 relaying_server.2 refl refl refl
      (omega arith, omega arith) relayed-Traffic
      (find-hold_self 1 (counted 1 1 (7 ∷ drop 1 zeroed_buffer) []) _)
