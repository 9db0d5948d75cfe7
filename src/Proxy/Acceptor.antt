-- ===== src/Proxy/Acceptor.antt =====
-- transport/server.cpp and transport/tls/tls_server.cpp: the accept loop.
use amgi_net_tools.Base.{ℕ, ◌+◌, Bool, true, false, not, Result, ok, fault, if◌then◌else◌}
use amgi_net_tools.Transport.ServerStream.{ServerStream, Kind}
use amgi_net_tools.Transport.ServerStream
use amgi_net_tools.Proxy.Store.{StreamManager, M, pure}

-- What the loop keeps: the identifier of the stream that waits for a connection, and whether the acceptor
-- is open. The identifier is an int, which is taken not to overflow.
pub record Acceptor : Type 0 where
  pub stream_id : ℕ
  pub is_open : Bool

-- A stream with the next identifier waits for a connection.
unfoldable pub start_accept : Acceptor → Acceptor
start_accept a = record a { stream_id = a.stream_id + 1 }

-- The loop as the constructor starts it.
unfoldable pub make : Acceptor
unfolding start_accept
make = start_accept (record { stream_id = 0; is_open = true })

-- The signal handler.
unfoldable pub close : Acceptor → Acceptor
close a = record a { is_open = false }

module _ {S : Type 0} (on_accept : ServerStream → M S (Unit {0})) (kind : Kind) where
  -- The completion handler of `async_accept`, with whether there was an error.
  unfoldable pub accept_done :
      Bool → Acceptor → StreamManager S → Result (Acceptor × StreamManager S)
  unfolding start_accept
  accept_done failed a m =
      if not a.is_open
      then ok (a, m)
      else elim ((if failed then pure tt else on_accept (ServerStream.make kind a.stream_id)) m) [
        | ok (_, n) ↦ ok (start_accept a, n)
        | fault e ↦ fault e
      ]
