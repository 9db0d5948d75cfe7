-- ===== src/Socks5/Callbacks.antt =====
-- socks5_stream_manager.cpp: the callbacks of the streams, each with the identifier of its stream.
-- `socks5_session::handle_…` passes an event on to the session's state.
use amgi_net_tools.Base.{ℕ, Bytes}
use amgi_net_tools.Transport.ServerStream.{ServerStream}
use amgi_net_tools.Proxy.Errors.{ErrorCode, NetErrors}
use amgi_net_tools.Proxy.Store.{M, when_found}
use amgi_net_tools.Proxy.StreamManager
use amgi_net_tools.Proxy.Events.{
  Event, server_read, server_write, server_error, client_connect, client_read, client_write,
  client_error,
}
use amgi_net_tools.Socks5.Packet.{Inet}
use amgi_net_tools.Socks5.State.{
  State, auth_request, handle_server_read, handle_server_write, handle_client_connect,
  handle_client_read, handle_client_write, handle_server_error, handle_client_error,
}

unfoldable pub on_accept : ServerStream → M State (Unit {0})
on_accept = StreamManager.on_accept auth_request

unfoldable pub on_server_write : ℕ → M State (Unit {0})
on_server_write id = when_found id λ p. handle_server_write p.session.state id

unfoldable pub on_server_error : ErrorCode → ℕ → M State (Unit {0})
on_server_error ec id = when_found id λ p. handle_server_error p.session.state id ec

unfoldable pub on_connect : ℕ → M State (Unit {0})
on_connect id = when_found id λ p. handle_client_connect p.session.state id

unfoldable pub on_client_read : Bytes → ℕ → M State (Unit {0})
on_client_read buffer id = when_found id λ p. handle_client_read p.session.state id buffer

unfoldable pub on_client_write : ℕ → M State (Unit {0})
on_client_write id = when_found id λ p. handle_client_write p.session.state id

module _ (inet : Inet) (errors : NetErrors) where
  unfoldable pub on_server_read : Bytes → ℕ → M State (Unit {0})
  on_server_read buffer id = when_found id λ p. handle_server_read inet p.session.state id buffer

  unfoldable pub on_client_error : ErrorCode → ℕ → M State (Unit {0})
  on_client_error ec id = when_found id λ p. handle_client_error errors p.session.state id ec

  -- The callback that reports an event of the stream with an identifier.
  unfoldable pub callback : Event → ℕ → M State (Unit {0})
  unfolding on_server_read on_server_write on_server_error on_connect on_client_read on_client_write
      on_client_error
  callback (server_read buffer) id = on_server_read buffer id
  callback server_write id = on_server_write id
  callback (server_error ec) id = on_server_error ec id
  callback client_connect id = on_connect id
  callback (client_read buffer) id = on_client_read buffer id
  callback client_write id = on_client_write id
  callback (client_error ec) id = on_client_error ec id
