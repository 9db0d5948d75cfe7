-- ===== src/Http/Automaton.antt =====
-- The specification of an HTTP session: a pure automaton over one pair, with no manager, no
-- identifiers and no pointer to a session. Each answer is written out as the changes to the pair.
use amgi_net_tools.Base.{
  ◌+◌, ◌%◌, ◌^◌, Bytes, text_eq, length, is_empty, if◌then◌else◌, Result, ok, ◌>>=◌,
}
use amgi_net_tools.Transport.ServerStream
use amgi_net_tools.Transport.ClientStream
use amgi_net_tools.Proxy.Store.{Context, Pair}
use amgi_net_tools.Proxy.Events.{
  Event, server_read, server_write, server_error, client_connect, client_read, client_write,
  client_error, Outcome, goes_on, ends,
}
use amgi_net_tools.Http.Request.{get_headers, get_host, get_service}
use amgi_net_tools.Http.State.{
  State, wait_request, connection_established, ready_to_transfer_data, data_transfer_mode,
  k_http_error500, k_http_done, first_message,
}

-- Both streams are stopped and the session is over.
unfoldable pub finish : Pair State → Outcome State
finish p =
    ends
      (record p { client = ClientStream.do_stop p.client; server = ServerStream.do_stop p.server })

abbrev pub in_state : State → Context → Pair State → Pair State
in_state s c p = record p { session = record { context = c; state = s } }

-- The error page is written, and the session ends at once.
unfoldable pub turn_away : Pair State → Result (Outcome State)
unfolding finish
turn_away p = do
  server ← ServerStream.do_write k_http_error500 p.server
  ok (finish (record p { server = server }))

unfoldable pub dial : Bytes → Bytes → Bytes → Pair State → Outcome State
dial message host service p = goes_on (
    in_state connection_established
      (record p.session.context { response = message; host = host; service = service })
      (record p {
        client =
            ClientStream.do_start
              (ClientStream.do_set_service service (ClientStream.do_set_host host p.client));
      }))

unfoldable pub on_request : Bytes → Pair State → Result (Outcome State)
unfolding turn_away dial
on_request buffer p = do
  host ← get_host (get_headers buffer)
  service ← get_service (get_headers buffer)
  if is_empty host
      then turn_away p
      else if is_empty service
      then turn_away p
      else ok (dial (first_message (get_headers buffer).method buffer) host service p)

unfoldable pub first_to_local : Pair State → Result (Outcome State)
first_to_local p = do
  server ← ServerStream.do_write p.session.context.response p.server
  ok (goes_on (in_state ready_to_transfer_data p.session.context (record p { server = server })))

unfoldable pub first_to_remote : Pair State → Result (Outcome State)
first_to_remote p = do
  client ← ClientStream.do_write p.session.context.response p.client
  ok (goes_on (in_state ready_to_transfer_data p.session.context (record p { client = client })))

unfoldable pub to_remote : Bytes → Pair State → Result (Outcome State)
to_remote buffer p = do
  client ← ClientStream.do_write buffer p.client
  ok (
      goes_on (
        in_state p.session.state
          (record p.session.context {
            transferred_bytes_to_remote =
                (p.session.context.transferred_bytes_to_remote + length buffer) % 2 ^ 64;
          })
          (record p { client = client })))

unfoldable pub to_local : Bytes → Pair State → Result (Outcome State)
to_local buffer p = do
  server ← ServerStream.do_write buffer p.server
  ok (
      goes_on (
        in_state p.session.state
          (record p.session.context {
            transferred_bytes_to_local =
                (p.session.context.transferred_bytes_to_local + length buffer) % 2 ^ 64;
          })
          (record p { server = server })))

unfoldable pub react_in : State → Event → Pair State → Result (Outcome State)
unfolding finish on_request first_to_local first_to_remote to_remote to_local
react_in wait_request (server_read buffer) p = on_request buffer p
react_in connection_established client_connect p =
    if text_eq p.session.context.response k_http_done then first_to_local p else first_to_remote p
react_in ready_to_transfer_data client_write p = ok (
    goes_on (
      in_state data_transfer_mode p.session.context
        (record p { server = ServerStream.do_read (ServerStream.do_read p.server) })))
react_in ready_to_transfer_data server_write p = ok (
    goes_on (
      in_state data_transfer_mode p.session.context (record p {
        server = ServerStream.do_read p.server;
        client = ClientStream.do_read p.client;
      })))
react_in data_transfer_mode (server_read buffer) p = to_remote buffer p
react_in data_transfer_mode (client_read buffer) p = to_local buffer p
react_in data_transfer_mode server_write p =
    ok (goes_on (record p { client = ClientStream.do_read p.client }))
react_in data_transfer_mode client_write p =
    ok (goes_on (record p { server = ServerStream.do_read p.server }))
react_in _ (server_error ec) p = ok (finish p)
react_in _ (client_error ec) p = ok (finish p)
react_in _ _ p = ok (goes_on p)

-- The answer of a session to an event.
unfoldable pub react : Event → Pair State → Result (Outcome State)
unfolding react_in
react e p = react_in p.session.state e p
