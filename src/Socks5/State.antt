-- ===== src/Socks5/State.antt =====
-- socks5_state.h and socks5_state.cpp: the states of a session and their handlers. A handler that
-- a state does not override does nothing, but for the two error handlers, which stop the session.
-- Log records are left out.
use amgi_net_tools.Base.{
  ℕ, Bool, not, ◌||◌, Bytes, [], ◌∷◌, Option, none, some, length, set, ltb, ◌==◌, if◌then◌else◌,
  Result, ok, fault, over_write,
}
use amgi_net_tools.Proxy.Errors.{ErrorCode, NetErrors}
use amgi_net_tools.Proxy.Store.{M, pure, lift, ◌>>=◌, ◌>>◌}
use amgi_net_tools.Proxy.Session.{
  context, get_response, set_response, set_endpoint_info, update_bytes_sent_to_remote,
  update_bytes_sent_to_local, change_state, connect, stop, read_from_server, read_from_client,
  write_to_client, write_to_server,
}
use amgi_net_tools.Socks5.Packet.{
  version, no_auth, not_supported, Inet, Address, is_socks5_auth_request, is_valid_request_packet,
  get_remote_address_info,
}

pub data State : Type 0 where
  auth_request connection_request connection_established : State
  ready_to_transfer_data data_transfer_mode : State

-- enum socks5::responses
abbrev pub succeeded : ℕ
succeeded = 0x00

abbrev pub general_socks_server_failure : ℕ
general_socks_server_failure = 0x01

abbrev pub network_unreachable : ℕ
network_unreachable = 0x03

abbrev pub host_unreachable : ℕ
host_unreachable = 0x04

abbrev pub connection_refused : ℕ
connection_refused = 0x05

abbrev pub ttl_expired : ℕ
ttl_expired = 0x06

unfoldable pub get_response_error_code : NetErrors → ErrorCode → ℕ
get_response_error_code errors ec =
    if ec.value == errors.network_unreachable
    then network_unreachable
    else if ec.value == errors.host_unreachable
        || (ec.value == errors.host_not_found || ec.value == errors.no_data)
    then host_unreachable
    else if ec.value == errors.connection_refused
        || (ec.value == errors.connection_aborted || ec.value == errors.connection_reset)
    then connection_refused
    else if ec.value == errors.timed_out
    then ttl_expired
    else general_socks_server_failure

-- `error ? kNotSupported : kNoAuth`
abbrev pub auth_mode : Option Bytes → ℕ
auth_mode none = no_auth
auth_mode (some error) = not_supported

-- `request_hdr()->command = err_code` writes the second byte of the response, which has to be there.
unfoldable pub with_command : ℕ → Bytes → Result Bytes
with_command code response =
    if ltb 1 (length response) then ok (set response 1 code) else fault over_write

-- `socks5_session::set_response(version, auth_mode)`
unfoldable pub set_auth_response : ℕ → ℕ → ℕ → M State (Unit {0})
set_auth_response this v mode = set_response this (v ∷ mode ∷ [])

unfoldable pub set_response_error_code : ℕ → ℕ → M State (Unit {0})
unfolding with_command
set_response_error_code this code = do
  c ← context this
  response ← lift (with_command code c.response)
  set_response this response

unfoldable pub handle_server_write : State → ℕ → M State (Unit {0})
handle_server_write connection_request this = read_from_server this
handle_server_write connection_established this = stop this
handle_server_write ready_to_transfer_data this = do
  read_from_server this
  read_from_client this
  change_state this data_transfer_mode
handle_server_write data_transfer_mode this = read_from_client this
handle_server_write auth_request this = pure tt

unfoldable pub handle_client_connect : State → ℕ → M State (Unit {0})
unfolding set_response_error_code
handle_client_connect connection_established this = do
  set_response_error_code this succeeded
  response ← get_response this
  write_to_server this response
  change_state this ready_to_transfer_data
handle_client_connect _ this = pure tt

unfoldable pub handle_client_read : State → ℕ → Bytes → M State (Unit {0})
handle_client_read data_transfer_mode this buffer = do
  update_bytes_sent_to_local this (length buffer)
  write_to_server this buffer
handle_client_read _ this buffer = pure tt

unfoldable pub handle_client_write : State → ℕ → M State (Unit {0})
handle_client_write data_transfer_mode this = read_from_server this
handle_client_write _ this = pure tt

unfoldable pub handle_server_error : State → ℕ → ErrorCode → M State (Unit {0})
handle_server_error state this ec = stop this

module _ (errors : NetErrors) where
  unfoldable pub handle_client_error : State → ℕ → ErrorCode → M State (Unit {0})
  unfolding set_response_error_code
  handle_client_error connection_established this ec = do
    set_response_error_code this (get_response_error_code errors ec)
    response ← get_response this
    write_to_server this response
  handle_client_error _ this ec = stop this

module _ (inet : Inet) where
  -- The request once its address is read.
  unfoldable pub open_connection : ℕ → Bytes → Bool × Address → M State (Unit {0})
  open_connection this buffer (found, address) = if not found then stop this else do
    set_endpoint_info this address.host address.port
    set_response this buffer
    connect this
    change_state this connection_established

  unfoldable pub handle_server_read : State → ℕ → Bytes → M State (Unit {0})
  unfolding set_auth_response open_connection
  handle_server_read auth_request this buffer = do
    error ← lift (is_socks5_auth_request buffer)
    set_auth_response this version (auth_mode error)
    response ← get_response this
    write_to_server this response
    change_state this connection_request
  handle_server_read connection_request this buffer = do
    valid ← lift (is_valid_request_packet buffer)
    if not valid then stop this else do
      address ← lift (get_remote_address_info inet buffer (record { host = []; port = [] }))
      open_connection this buffer address
  handle_server_read data_transfer_mode this buffer = do
    update_bytes_sent_to_remote this (length buffer)
    write_to_client this buffer
  handle_server_read _ this buffer = pure tt
