-- ===== src/Socks5/Refinement.antt =====
-- The handlers of socks5_state.cpp, run by the manager on its table of sessions, beside
-- the automaton of one session.
use amgi_net_tools.Base.{
  ℕ, ◌≡◌, refl, sym, ◌∙◌, inl, inr, Bool, true, false, Bytes, [], ◌∷◌, some, none, length, Result,
  ok, Result-cases, ◌>>=◌ as bind, >>=_assoc as bind_assoc,
}
use amgi_net_tools.Base.Table
use amgi_net_tools.Transport.ServerStream
use amgi_net_tools.Transport.ClientStream
use amgi_net_tools.Proxy.Errors.{ErrorCode, NetErrors}
use amgi_net_tools.Proxy.Store.{Pair, StreamManager, M, lift, ◌>>=◌, ◌>>◌}
use amgi_net_tools.Proxy.Session
use amgi_net_tools.Proxy.Local.{
  hold, key, with_response, counted_local, counted_remote, update_bytes_sent_to_remote-held,
  update_bytes_sent_to_local-held, set_response-held, set_endpoint_info-held, with_endpoint,
  with_state, connect-held, hold-find, when_found-hold, when_found-absent, context-held,
  change_state-held, get_response-held, write_to_server-held, write_to_client-held,
  read_from_server-held, read_from_client-held, stop-held,
}
use amgi_net_tools.Proxy.Events.{
  Event, server_read, server_write, server_error, client_connect, client_read, client_write,
  client_error, Outcome, goes_on, commit,
}
use amgi_net_tools.Socks5.Packet.{
  version, Inet, Address, is_socks5_auth_request, is_valid_request_packet, get_remote_address_info,
}
use amgi_net_tools.Socks5.State.{
  State, auth_request, connection_request, connection_established, ready_to_transfer_data,
  data_transfer_mode, succeeded, auth_mode, with_command, get_response_error_code,
  set_response_error_code, handle_server_read, handle_server_write, handle_client_connect,
  handle_client_read, handle_client_write, handle_server_error, handle_client_error,
  open_connection,
}
use amgi_net_tools.Socks5.Automaton.{on_hello, dial, on_request, to_remote, react_in, react}
use amgi_net_tools.Socks5.Callbacks.{callback}

abbrev no_address : Address
no_address = record { host = []; port = [] }

-- A method of the session of `p` does what the outcome `r` says.
abbrev Does :
    Pair State → StreamManager State → M State (Unit {0}) → Result (Outcome State) → Type 0
Does p m method r = method (hold (key p m) p m) ≡ bind r (λ o. ok (tt, commit (key p m) o m))

module _ (inet : Inet) (errors : NetErrors) (p : Pair State) (m : StreamManager State) where
  set_code-held :
      (code : ℕ)
      → set_response_error_code (key p m) code (hold (key p m) p m)
        ≡ bind
            (with_command code p.session.context.response)
            (λ r. ok (tt, hold (key p m) (with_response p m r) m))
  unfolding set_response_error_code lift
  set_code-held code = elim (Result-cases (with_command code p.session.context.response)) [
    | inl (r, e) ↦
        rw (context-held, set_response_error_code, ◌>>=◌) (rw e (set_response-held p m r))
    | inr (x, e) ↦ rw (context-held, set_response_error_code, ◌>>=◌) (rw e)
  ]

  -- The last two steps of a reply.
  write_and_change :
      (q : Pair State) (buffer : Bytes) (next : State)
      → (Session.write_to_server (key q m) buffer >> Session.change_state (key q m) next)
          (hold (key q m) q m)
        ≡ bind
            (bind
              (ServerStream.do_write buffer q.server)
              (λ s. ok (goes_on (with_state (record q { server = s }) m next))))
            (λ o. ok (tt, commit (key q m) o m))
  unfolding commit
  write_and_change q buffer next = elim (Result-cases (ServerStream.do_write buffer q.server)) [
    | inl (s, e) ↦
        rw (write_to_server-held q m buffer, ◌>>=◌, ◌>>◌, e)
          (change_state-held (record q { server = s }) m next)
    | inr (x, e) ↦ rw (write_to_server-held q m buffer, ◌>>=◌, ◌>>◌, e)
  ]

  handle_server_write-Does :
      (s : State)
      → Does p m (handle_server_write s (key p m)) (react_in inet errors s server_write p)
  unfolding handle_server_write react_in commit
  handle_server_write-Does connection_request = read_from_server-held p m
  handle_server_write-Does connection_established = stop-held p m
  handle_server_write-Does ready_to_transfer_data =
      let reading : Pair State = record p { server = ServerStream.do_read p.server } in
      let both : Pair State = record reading { client = ClientStream.do_read p.client } in
      rw (read_from_server-held p m, handle_server_write, ◌>>=◌, ◌>>◌)
        (rw (read_from_client-held reading m, ◌>>=◌, ◌>>◌)
          (change_state-held both m data_transfer_mode))
  handle_server_write-Does data_transfer_mode = read_from_client-held p m
  handle_server_write-Does auth_request = refl

  handle_client_write-Does :
      (s : State)
      → Does p m (handle_client_write s (key p m)) (react_in inet errors s client_write p)
  unfolding handle_client_write react_in commit
  handle_client_write-Does data_transfer_mode = read_from_server-held p m
  handle_client_write-Does auth_request = refl
  handle_client_write-Does _ = refl

  handle_server_error-Does :
      (s : State) (ec : ErrorCode)
      → Does p m (handle_server_error s (key p m) ec) (react_in inet errors s (server_error ec) p)
  unfolding handle_server_error react_in commit
  handle_server_error-Does auth_request ec = stop-held p m
  handle_server_error-Does _ ec = stop-held p m

  handle_client_read-Does :
      (s : State) (buffer : Bytes)
      → Does p m
          (handle_client_read s (key p m) buffer)
          (react_in inet errors s (client_read buffer) p)
  unfolding handle_client_read react_in commit Session.update_bytes_sent_to_local
  handle_client_read-Does data_transfer_mode buffer =
      rw (update_bytes_sent_to_local-held p m (length buffer), handle_client_read, ◌>>=◌, ◌>>◌)
        (write_to_server-held (counted_local p m (length buffer)) m buffer
          ∙ sym (bind_assoc (ServerStream.do_write buffer p.server) _ _))
  handle_client_read-Does auth_request buffer = refl
  handle_client_read-Does _ buffer = refl

  relay-Does :
      (buffer : Bytes)
      → Does p m (handle_server_read inet data_transfer_mode (key p m) buffer) (to_remote buffer p)
  unfolding handle_server_read to_remote commit
  relay-Does buffer =
      rw (update_bytes_sent_to_remote-held p m (length buffer), handle_server_read, ◌>>=◌, ◌>>◌)
        (write_to_client-held (counted_remote p m (length buffer)) m buffer
          ∙ sym (bind_assoc (ClientStream.do_write buffer p.client) _ _))

  handle_client_error-Does :
      (s : State) (ec : ErrorCode)
      → Does p m
          (handle_client_error errors s (key p m) ec)
          (react_in inet errors s (client_error ec) p)
  unfolding handle_client_error react_in commit
  handle_client_error-Does connection_established ec =
      let code = get_response_error_code errors ec in
      elim (Result-cases (with_command code p.session.context.response)) [
        | inl (r, e) ↦
            rw (set_code-held code, handle_client_error, ◌>>=◌, ◌>>◌, e)
              (rw (get_response-held (with_response p m r) m, ◌>>=◌)
                (write_to_server-held (with_response p m r) m r
                  ∙ sym (bind_assoc (ServerStream.do_write r p.server) _ _)))
        | inr (x, e) ↦ rw (set_code-held code, handle_client_error, ◌>>=◌, ◌>>◌, e)
      ]
  handle_client_error-Does auth_request ec = stop-held p m
  handle_client_error-Does _ ec = stop-held p m

  handle_client_connect-Does :
      (s : State)
      → Does p m (handle_client_connect s (key p m)) (react_in inet errors s client_connect p)
  unfolding handle_client_connect react_in commit
  handle_client_connect-Does connection_established =
      elim (Result-cases (with_command succeeded p.session.context.response)) [
        | inl (r, e) ↦
            rw (set_code-held succeeded, handle_client_connect, ◌>>=◌, ◌>>◌, e)
              (rw (get_response-held (with_response p m r) m, ◌>>=◌, ◌>>◌)
                (write_and_change (with_response p m r) r ready_to_transfer_data))
        | inr (x, e) ↦ rw (set_code-held succeeded, handle_client_connect, ◌>>=◌, ◌>>◌, e)
      ]
  handle_client_connect-Does auth_request = refl
  handle_client_connect-Does _ = refl

  hello-Does :
      (buffer : Bytes)
      → Does p m (handle_server_read inet auth_request (key p m) buffer) (on_hello buffer p)
  unfolding handle_server_read on_hello lift
  hello-Does buffer = elim (Result-cases (is_socks5_auth_request buffer)) [
    | inl (error, e) ↦
        let answer = version ∷ auth_mode error ∷ [] in
        rw (e, handle_server_read, ◌>>=◌, ◌>>◌)
          (rw (set_response-held p m answer, ◌>>=◌, ◌>>◌)
            (rw (get_response-held (with_response p m answer) m, ◌>>=◌, ◌>>◌)
              (write_and_change (with_response p m answer) answer connection_request)))
    | inr (x, e) ↦ rw (e, handle_server_read, ◌>>=◌)
  ]

  dial-Does :
      (buffer : Bytes) (found : Bool) (address : Address)
      → Does p m
          (open_connection inet (key p m) buffer (found, address))
          (ok (dial buffer (found, address) p))
  unfolding open_connection dial commit
  dial-Does buffer false address = stop-held p m
  dial-Does buffer true address =
      let named : Pair State = with_endpoint p m address.host address.port in
      let kept : Pair State = with_response named m buffer in
      rw (set_endpoint_info-held p m address.host address.port, ◌>>=◌, ◌>>◌)
        (rw (set_response-held named m buffer, ◌>>=◌, ◌>>◌)
          (rw (connect-held kept m, ◌>>=◌, ◌>>◌) (change_state-held _ m connection_established)))

  request-Does :
      (buffer : Bytes)
      → Does p m
          (handle_server_read inet connection_request (key p m) buffer)
          (on_request inet buffer p)
  unfolding handle_server_read on_request lift commit
  request-Does buffer = elim (Result-cases (is_valid_request_packet buffer)) [
    | inl (true, e) ↦ elim (Result-cases (get_remote_address_info inet buffer no_address)) [
      | inl (address, a) ↦
          rw (e, handle_server_read, ◌>>=◌, ◌>>◌, a) (dial-Does buffer address.0 address.1)
      | inr (x, a) ↦ rw (e, handle_server_read, ◌>>=◌, ◌>>◌, a)
    ]
    | inl (false, e) ↦ rw (e, handle_server_read, ◌>>=◌) (stop-held p m)
    | inr (x, e) ↦ rw (e, handle_server_read, ◌>>=◌)
  ]

  handle_server_read-Does :
      (s : State) (buffer : Bytes)
      → Does p m
          (handle_server_read inet s (key p m) buffer)
          (react_in inet errors s (server_read buffer) p)
  unfolding handle_server_read react_in commit
  handle_server_read-Does auth_request buffer = hello-Does buffer
  handle_server_read-Does connection_request buffer = request-Does buffer
  handle_server_read-Does data_transfer_mode buffer = relay-Does buffer
  handle_server_read-Does connection_established buffer = refl
  handle_server_read-Does ready_to_transfer_data buffer = refl

  callback-Does : (e : Event) → Does p m (callback inet errors e (key p m)) (react inet errors e p)
  unfolding callback react
  callback-Does (server_read buffer) =
      rw when_found-hold (handle_server_read-Does p.session.state buffer)
  callback-Does server_write = rw when_found-hold (handle_server_write-Does p.session.state)
  callback-Does (server_error ec) = rw when_found-hold (handle_server_error-Does p.session.state ec)
  callback-Does client_connect = rw when_found-hold (handle_client_connect-Does p.session.state)
  callback-Does (client_read buffer) =
      rw when_found-hold (handle_client_read-Does p.session.state buffer)
  callback-Does client_write = rw when_found-hold (handle_client_write-Does p.session.state)
  callback-Does (client_error ec) = rw when_found-hold (handle_client_error-Does p.session.state ec)

  -- The callback for an event of a session that the manager holds, and whose session has the
  -- identifier under which it is held, does what the automaton of that session answers, and nothing
  -- else: it faults as the automaton does, puts back the changed pair, or erases it.
  pub callback-react :
      (e : Event)
      → Table.find (key p m) m.sessions ≡ some p
      → callback inet errors e (key p m) m
        ≡ bind (react inet errors e p) (λ o. ok (tt, commit (key p m) o m))
  callback-react e held = rw (hold-find (key p m) p m held) at (callback-Does e)

-- An event of a stream whose session was erased changes nothing.
pub callback-stale :
    (inet : Inet) (errors : NetErrors) (e : Event) (id : ℕ) (m : StreamManager State)
    → Table.find id m.sessions ≡ none
    → callback inet errors e id m ≡ ok (tt, m)
unfolding callback
callback-stale inet errors (server_read buffer) id m h = when_found-absent id _ m h
callback-stale inet errors _ id m h = when_found-absent id _ m h
