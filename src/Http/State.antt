-- ===== src/Http/State.antt =====
-- http_state.h and http_state.cpp: the states of a session and their handlers. A handler that a state
-- does not override does nothing, but for the two error handlers, which stop the session. Log records
-- are left out.
use amgi_net_tools.Base.{ℕ, Bytes, codes, text_eq, length, is_empty, if◌then◌else◌}
use amgi_net_tools.Proxy.Errors.{ErrorCode}
use amgi_net_tools.Proxy.Store.{M, pure, lift, ◌>>=◌, ◌>>◌}
use amgi_net_tools.Proxy.Session.{
  get_response, set_response, set_endpoint_info, update_bytes_sent_to_remote,
  update_bytes_sent_to_local, change_state, connect, stop, read_from_server, read_from_client,
  write_to_client, write_to_server,
}
use amgi_net_tools.Http.Request.{RequestMethod, k_connect, get_headers, get_host, get_service}

pub data State : Type 0 where
  wait_request connection_established ready_to_transfer_data data_transfer_mode : State

unfoldable pub k_http_error500 : Bytes
k_http_error500 = codes "HTTP/1.1 500 Internal Server Error\r\nConnection : Closed\r\n\r\n"

unfoldable pub k_http_done : Bytes
k_http_done = codes "HTTP/1.1 200 OK\r\n\r\n"

-- `http_req.method == kConnect`: what is kept to be sent once the remote host is connected.
abbrev pub first_message : RequestMethod → Bytes → Bytes
first_message k_connect buffer = k_http_done
first_message _ buffer = buffer

unfoldable pub refuse : ℕ → M State (Unit {0})
refuse this = do write_to_server this k_http_error500; stop this

-- A request whose host and service were read.
unfoldable pub open_connection : ℕ → Bytes → RequestMethod → Bytes → Bytes → M State (Unit {0})
unfolding refuse
open_connection this buffer method host service =
    if is_empty host then refuse this else if is_empty service then refuse this else do
      set_response this (first_message method buffer)
      set_endpoint_info this host service
      connect this
      change_state this connection_established

unfoldable pub handle_server_read : State → ℕ → Bytes → M State (Unit {0})
unfolding open_connection
handle_server_read wait_request this buffer = do
  host ← lift (get_host (get_headers buffer))
  service ← lift (get_service (get_headers buffer))
  open_connection this buffer (get_headers buffer).method host service
handle_server_read data_transfer_mode this buffer = do
  update_bytes_sent_to_remote this (length buffer)
  write_to_client this buffer
handle_server_read _ this buffer = pure tt

-- The first message goes to the side that it is for.
send_first : ℕ → Bytes → M State (Unit {0})
send_first this response =
    if text_eq response k_http_done
    then write_to_server this response
    else write_to_client this response

unfoldable pub handle_client_connect : State → ℕ → M State (Unit {0})
unfolding send_first
handle_client_connect connection_established this = do
  response ← get_response this
  send_first this response
  change_state this ready_to_transfer_data
handle_client_connect _ this = pure tt

unfoldable pub handle_client_write : State → ℕ → M State (Unit {0})
handle_client_write ready_to_transfer_data this = do
  read_from_server this
  read_from_server this
  change_state this data_transfer_mode
handle_client_write data_transfer_mode this = read_from_server this
handle_client_write _ this = pure tt

unfoldable pub handle_server_write : State → ℕ → M State (Unit {0})
handle_server_write ready_to_transfer_data this = do
  read_from_server this
  read_from_client this
  change_state this data_transfer_mode
handle_server_write data_transfer_mode this = read_from_client this
handle_server_write _ this = pure tt

unfoldable pub handle_client_read : State → ℕ → Bytes → M State (Unit {0})
handle_client_read data_transfer_mode this buffer = do
  update_bytes_sent_to_local this (length buffer)
  write_to_server this buffer
handle_client_read _ this buffer = pure tt

unfoldable pub handle_server_error : State → ℕ → ErrorCode → M State (Unit {0})
handle_server_error state this ec = stop this

unfoldable pub handle_client_error : State → ℕ → ErrorCode → M State (Unit {0})
handle_client_error state this ec = stop this
