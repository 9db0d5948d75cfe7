-- ===== src/Socks5/Automaton.antt =====
-- The specification of a SOCKS5 session: a pure automaton over one pair, with no manager, no
-- identifiers and no pointer to a session. Each answer is written out as the changes to the pair.
use amgi_net_tools.Base.{
  ℕ, ◌+◌, ◌%◌, ◌^◌, Bool, Bytes, [], ◌∷◌, length, if◌then◌else◌, not, Result, ok, ◌>>=◌,
}
use amgi_net_tools.Transport.ServerStream
use amgi_net_tools.Transport.ClientStream
use amgi_net_tools.Proxy.Errors.{NetErrors}
use amgi_net_tools.Proxy.Store.{Context, Pair}
use amgi_net_tools.Proxy.Events.{
  Event, server_read, server_write, server_error, client_connect, client_read, client_write,
  client_error, Outcome, goes_on, ends,
}
use amgi_net_tools.Socks5.Packet.{
  version, Inet, Address, is_socks5_auth_request, is_valid_request_packet, get_remote_address_info,
}
use amgi_net_tools.Socks5.State.{
  State, auth_request, connection_request, connection_established, ready_to_transfer_data,
  data_transfer_mode, succeeded, auth_mode, with_command, get_response_error_code,
}

-- Both streams are stopped and the session is over.
unfoldable pub finish : Pair State → Outcome State
finish p =
    ends
      (record p { client = ClientStream.do_stop p.client; server = ServerStream.do_stop p.server })

abbrev pub in_state : State → Context → Pair State → Pair State
in_state s c p = record p { session = record { context = c; state = s } }

-- The response goes out with the given second byte.
unfoldable pub reply : ℕ → State → Pair State → Result (Outcome State)
reply code next p = do
  response ← with_command code p.session.context.response
  server ← ServerStream.do_write response p.server
  ok (
      goes_on (
        in_state next (record p.session.context { response = response })
          (record p { server = server })))

unfoldable pub on_hello : Bytes → Pair State → Result (Outcome State)
on_hello buffer p = do
  error ← is_socks5_auth_request buffer
  let response = version ∷ auth_mode error ∷ []
  server ← ServerStream.do_write response p.server
  ok (
      goes_on (
        in_state connection_request (record p.session.context { response = response })
          (record p { server = server })))

unfoldable pub dial : Bytes → Bool × Address → Pair State → Outcome State
unfolding finish
dial buffer (found, address) p =
    if not found
    then finish p
    else goes_on (
        in_state connection_established
          (record p.session.context {
            host = address.host;
            service = address.port;
            response = buffer;
          })
          (record p {
            client = ClientStream.do_start (
                ClientStream.do_set_service address.port
                  (ClientStream.do_set_host address.host p.client));
          }))

unfoldable pub to_remote : Bytes → Pair State → Result (Outcome State)
to_remote buffer p = do
  client ← ClientStream.do_write buffer p.client
  ok (
      goes_on (
        in_state p.session.state
          (record p.session.context {
            transferred_bytes_to_remote =
                (p.session.context.transferred_bytes_to_remote + length buffer) % 2 ^ 64;
          })
          (record p { client = client })))

unfoldable pub to_local : Bytes → Pair State → Result (Outcome State)
to_local buffer p = do
  server ← ServerStream.do_write buffer p.server
  ok (
      goes_on (
        in_state p.session.state
          (record p.session.context {
            transferred_bytes_to_local =
                (p.session.context.transferred_bytes_to_local + length buffer) % 2 ^ 64;
          })
          (record p { server = server })))

unfoldable pub on_request : Inet → Bytes → Pair State → Result (Outcome State)
unfolding finish dial
on_request inet buffer p = do
  valid ← is_valid_request_packet buffer
  if not valid then ok (finish p) else do
    address ← get_remote_address_info inet buffer (record { host = []; port = [] })
    ok (dial buffer address p)

module _ (inet : Inet) (errors : NetErrors) where
  unfoldable pub react_in : State → Event → Pair State → Result (Outcome State)
  unfolding finish reply on_hello on_request to_remote to_local
  react_in auth_request (server_read buffer) p = on_hello buffer p
  react_in connection_request (server_read buffer) p = on_request inet buffer p
  react_in connection_request server_write p =
      ok (goes_on (record p { server = ServerStream.do_read p.server }))
  react_in connection_established client_connect p = reply succeeded ready_to_transfer_data p
  react_in connection_established (client_error ec) p =
      reply (get_response_error_code errors ec) p.session.state p
  react_in connection_established server_write p = ok (finish p)
  react_in ready_to_transfer_data server_write p = ok (
      goes_on (
        in_state data_transfer_mode p.session.context (record p {
          server = ServerStream.do_read p.server;
          client = ClientStream.do_read p.client;
        })))
  react_in data_transfer_mode (server_read buffer) p = to_remote buffer p
  react_in data_transfer_mode (client_read buffer) p = to_local buffer p
  react_in data_transfer_mode server_write p =
      ok (goes_on (record p { client = ClientStream.do_read p.client }))
  react_in data_transfer_mode client_write p =
      ok (goes_on (record p { server = ServerStream.do_read p.server }))
  react_in _ (server_error ec) p = ok (finish p)
  react_in _ (client_error ec) p = ok (finish p)
  react_in _ _ p = ok (goes_on p)

  -- The answer of a session to an event.
  unfoldable pub react : Event → Pair State → Result (Outcome State)
  unfolding react_in
  react e p = react_in p.session.state e p
