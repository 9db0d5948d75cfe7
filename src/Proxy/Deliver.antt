-- ===== src/Proxy/Deliver.antt =====
-- The completion handlers of the streams of a manager, which call it, and the histories of a server.
use amgi_net_tools.Base.{ℕ, ◌≡◌, Bool, [], ◌∷◌, some, ok, ◌>>=◌ as bind}
use amgi_net_tools.Base.Table
use amgi_net_tools.Transport.ServerStream
use amgi_net_tools.Transport.ServerStream.{Kind}
use amgi_net_tools.Transport.ClientStream
use amgi_net_tools.Proxy.Store.{Pair, StreamManager, M, no_sessions, when_found, assign}
use amgi_net_tools.Proxy.Local.{hold, key, when_found-present}
use amgi_net_tools.Proxy.Events.{
  server_read, server_write, server_error, client_connect, client_read, client_write, client_error,
  commit,
}
use amgi_net_tools.Proxy.Network.{
  Completion, server_handshaken, server_sent, server_received, server_failed, client_resolved,
  client_connected, client_sent, client_received, client_failed, take_off, handle,
}
use amgi_net_tools.Proxy.Acceptor.{Acceptor, accept_done}
use amgi_net_tools.Proxy.Acceptor
use amgi_net_tools.Proxy.StreamManager
use amgi_net_tools.Proxy.Protocol.{Protocol}

module _ {S : Type 0} (protocol : Protocol S) where
  -- The completion handler of an operation of the stream with an identifier, which calls the manager.
  unfoldable pub deliver : Completion → ℕ → M S (Unit {0})
  deliver server_handshaken id =
      when_found id λ p. assign id (record p { server = ServerStream.do_read p.server })
  deliver server_sent id = protocol.callback server_write id
  deliver (server_received buffer) id = protocol.callback (server_read buffer) id
  deliver (server_failed op ec) id = protocol.callback (server_error ec) id
  deliver client_resolved id =
      when_found id λ p. assign id (record p { client = ClientStream.do_connect p.client })
  deliver client_connected id = protocol.callback client_connect id
  deliver client_sent id = protocol.callback client_write id
  deliver (client_received []) id =
      protocol.callback (client_error (record { value = 0; message = [] })) id
  deliver (client_received (b ∷ bs)) id = protocol.callback (client_read (b ∷ bs)) id
  deliver (client_failed op ec) id = protocol.callback (client_error ec) id

  module _ (p : Pair S) (m : StreamManager S) where
    -- The handler does what the session of the stream does on its own.
    pub deliver-handle :
        (c : Completion)
        → Table.find (key p m) m.sessions ≡ some p
        → deliver c (key p m) m
          ≡ bind (handle protocol.react c p) (λ o. ok (tt, commit (key p m) o m))
    unfolding deliver handle commit assign hold
    deliver-handle server_handshaken held = when_found-present (key p m) _ p m held
    deliver-handle server_sent held = protocol.refines p m server_write held
    deliver-handle (server_received buffer) held = protocol.refines p m (server_read buffer) held
    deliver-handle (server_failed op ec) held = protocol.refines p m (server_error ec) held
    deliver-handle client_resolved held = when_found-present (key p m) _ p m held
    deliver-handle client_connected held = protocol.refines p m client_connect held
    deliver-handle client_sent held = protocol.refines p m client_write held
    deliver-handle (client_received []) held =
        protocol.refines p m (client_error (record { value = 0; message = [] })) held
    deliver-handle (client_received (b ∷ bs)) held =
        protocol.refines p m (client_read (b ∷ bs)) held
    deliver-handle (client_failed op ec) held = protocol.refines p m (client_error ec) held

  -- The states of the acceptor and the manager, from the start of the server: a connection is accepted, or
  -- an operation of a stream that the manager holds completes.
  pub data Runs (kind : Kind) : Acceptor → StreamManager S → Type 0 where
    started : Runs kind Acceptor.make no_sessions
    closing : {a : Acceptor} {m : StreamManager S} → Runs kind a m → Runs kind (Acceptor.close a) m
    accepting :
        {a b : Acceptor} {m n : StreamManager S} (failed : Bool)
        → Runs kind a m
        → accept_done (StreamManager.on_accept protocol.initial) kind failed a m ≡ ok (b, n)
        → Runs kind b n
    delivering :
        {a : Acceptor} {m n : StreamManager S} {p q : Pair S} (c : Completion) (id : ℕ)
        → Runs kind a m
        → Table.find id m.sessions ≡ some p
        → take_off c p ≡ some q
        → deliver c id (hold id q m) ≡ ok (tt, n)
        → Runs kind a n
