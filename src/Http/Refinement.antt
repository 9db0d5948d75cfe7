-- ===== src/Http/Refinement.antt =====
-- The handlers of http_state.cpp, run by the manager on its table of sessions, beside
-- the automaton of one session.
use amgi_net_tools.Base.{
  ℕ, ◌≡◌, refl, sym, ◌∙◌, inl, inr, Bytes, [], ◌∷◌, none, some, length, text_eq, is_empty, Result,
  ok, Result-cases, Bool-cases, if◌then◌else◌, ◌>>=◌ as bind, >>=_assoc as bind_assoc,
}
use amgi_net_tools.Base.Table
use amgi_net_tools.Transport.ServerStream
use amgi_net_tools.Transport.ClientStream
use amgi_net_tools.Proxy.Errors.{ErrorCode}
use amgi_net_tools.Proxy.Store.{Pair, StreamManager, M, lift, ◌>>=◌, ◌>>◌}
use amgi_net_tools.Proxy.Local.{
  hold, key, with_response, with_endpoint, counted_local, counted_remote,
  update_bytes_sent_to_remote-held, update_bytes_sent_to_local-held, set_response-held,
  set_endpoint_info-held, connect-held, hold-find, when_found-hold, when_found-absent,
  change_state-held, get_response-held, write_to_server-held, write_to_client-held,
  read_from_server-held, read_from_client-held, stop-held,
}
use amgi_net_tools.Proxy.Events.{
  Event, server_read, server_write, server_error, client_connect, client_read, client_write,
  client_error, Outcome, commit,
}
use amgi_net_tools.Http.Request.{RequestMethod, get_headers, get_host, get_service}
use amgi_net_tools.Http.State.{
  State, wait_request, connection_established, ready_to_transfer_data, data_transfer_mode,
  k_http_error500, k_http_done, first_message, refuse, open_connection, handle_server_read,
  handle_server_write, handle_client_connect, handle_client_read, handle_client_write,
  handle_server_error, handle_client_error,
}
use amgi_net_tools.Http.Automaton.{turn_away, dial, on_request, to_remote, react_in, react}
use amgi_net_tools.Http.Callbacks.{callback}

-- A method of the session of `p` does what the outcome `r` says.
abbrev Does :
    Pair State → StreamManager State → M State (Unit {0}) → Result (Outcome State) → Type 0
Does p m method r = method (hold (key p m) p m) ≡ bind r (λ o. ok (tt, commit (key p m) o m))

module _ (p : Pair State) (m : StreamManager State) where
  -- Two reads of the server stream in a row, as a client write in `ready_to_transfer_data` makes them.
  handle_client_write-Does :
      (s : State) → Does p m (handle_client_write s (key p m)) (react_in s client_write p)
  unfolding handle_client_write react_in commit
  handle_client_write-Does ready_to_transfer_data =
      let once : Pair State = record p { server = ServerStream.do_read p.server } in
      let twice : Pair State = record once { server = ServerStream.do_read once.server } in
      rw (read_from_server-held p m, handle_client_write, ◌>>=◌, ◌>>◌)
        (rw (read_from_server-held once m, ◌>>=◌, ◌>>◌)
          (change_state-held twice m data_transfer_mode))
  handle_client_write-Does data_transfer_mode = read_from_server-held p m
  handle_client_write-Does wait_request = refl
  handle_client_write-Does connection_established = refl

  handle_server_write-Does :
      (s : State) → Does p m (handle_server_write s (key p m)) (react_in s server_write p)
  unfolding handle_server_write react_in commit
  handle_server_write-Does ready_to_transfer_data =
      let reading : Pair State = record p { server = ServerStream.do_read p.server } in
      let both : Pair State = record reading { client = ClientStream.do_read p.client } in
      rw (read_from_server-held p m, handle_server_write, ◌>>=◌, ◌>>◌)
        (rw (read_from_client-held reading m, ◌>>=◌, ◌>>◌)
          (change_state-held both m data_transfer_mode))
  handle_server_write-Does data_transfer_mode = read_from_client-held p m
  handle_server_write-Does wait_request = refl
  handle_server_write-Does connection_established = refl

  handle_server_error-Does :
      (s : State) (ec : ErrorCode)
      → Does p m (handle_server_error s (key p m) ec) (react_in s (server_error ec) p)
  unfolding handle_server_error react_in commit
  handle_server_error-Does wait_request ec = stop-held p m
  handle_server_error-Does _ ec = stop-held p m

  handle_client_error-Does :
      (s : State) (ec : ErrorCode)
      → Does p m (handle_client_error s (key p m) ec) (react_in s (client_error ec) p)
  unfolding handle_client_error react_in commit
  handle_client_error-Does wait_request ec = stop-held p m
  handle_client_error-Does _ ec = stop-held p m

  handle_client_read-Does :
      (s : State) (buffer : Bytes)
      → Does p m (handle_client_read s (key p m) buffer) (react_in s (client_read buffer) p)
  unfolding handle_client_read react_in commit
  handle_client_read-Does data_transfer_mode buffer =
      rw (update_bytes_sent_to_local-held p m (length buffer), handle_client_read, ◌>>=◌, ◌>>◌)
        (write_to_server-held (counted_local p m (length buffer)) m buffer
          ∙ sym (bind_assoc (ServerStream.do_write buffer p.server) _ _))
  handle_client_read-Does wait_request buffer = refl
  handle_client_read-Does _ buffer = refl

  relay-Does :
      (buffer : Bytes)
      → Does p m (handle_server_read data_transfer_mode (key p m) buffer) (to_remote buffer p)
  unfolding handle_server_read to_remote commit
  relay-Does buffer =
      rw (update_bytes_sent_to_remote-held p m (length buffer), handle_server_read, ◌>>=◌, ◌>>◌)
        (write_to_client-held (counted_remote p m (length buffer)) m buffer
          ∙ sym (bind_assoc (ClientStream.do_write buffer p.client) _ _))

  refuse-Does : Does p m (refuse (key p m)) (turn_away p)
  unfolding refuse turn_away commit
  refuse-Does = elim (Result-cases (ServerStream.do_write k_http_error500 p.server)) [
    | inl (s, e) ↦
        rw (write_to_server-held p m k_http_error500, refuse, ◌>>=◌, ◌>>◌, e)
          (stop-held (record p { server = s }) m)
    | inr (x, e) ↦ rw (write_to_server-held p m k_http_error500, refuse, ◌>>=◌, ◌>>◌, e)
  ]

  dial-Does :
      (buffer : Bytes) (method : RequestMethod) (host service : Bytes)
      → Does p m (open_connection (key p m) buffer method host service) (
          if is_empty host
          then turn_away p
          else if is_empty service
          then turn_away p
          else ok (dial (first_message method buffer) host service p))
  unfolding open_connection dial commit
  dial-Does buffer method [] service = refuse-Does
  dial-Does buffer method (h ∷ hs) [] = refuse-Does
  dial-Does buffer method (h ∷ hs) (c ∷ cs) =
      let kept : Pair State = with_response p m (first_message method buffer) in
      let named : Pair State = with_endpoint kept m (h ∷ hs) (c ∷ cs) in
      rw (set_response-held p m (first_message method buffer), ◌>>=◌, ◌>>◌)
        (rw (set_endpoint_info-held kept m (h ∷ hs) (c ∷ cs), ◌>>=◌, ◌>>◌)
          (rw (connect-held named m, ◌>>=◌, ◌>>◌) (change_state-held _ m connection_established)))

  request-Does :
      (buffer : Bytes)
      → Does p m (handle_server_read wait_request (key p m) buffer) (on_request buffer p)
  unfolding handle_server_read on_request lift
  request-Does buffer = elim (Result-cases (get_host (get_headers buffer))) [
    | inl (host, h) ↦ elim (Result-cases (get_service (get_headers buffer))) [
      | inl (service, s) ↦
          rw (h, handle_server_read, ◌>>=◌, ◌>>◌, s)
            (dial-Does buffer (get_headers buffer).method host service)
      | inr (x, s) ↦ rw (h, handle_server_read, ◌>>=◌, ◌>>◌, s)
    ]
    | inr (x, h) ↦ rw (h, handle_server_read, ◌>>=◌)
  ]

  handle_server_read-Does :
      (s : State) (buffer : Bytes)
      → Does p m (handle_server_read s (key p m) buffer) (react_in s (server_read buffer) p)
  unfolding handle_server_read react_in commit
  handle_server_read-Does wait_request buffer = request-Does buffer
  handle_server_read-Does data_transfer_mode buffer = relay-Does buffer
  handle_server_read-Does connection_established buffer = refl
  handle_server_read-Does ready_to_transfer_data buffer = refl

  handle_client_connect-Does :
      (s : State) → Does p m (handle_client_connect s (key p m)) (react_in s client_connect p)
  unfolding handle_client_connect react_in commit
  handle_client_connect-Does connection_established =
      elim (Bool-cases (text_eq p.session.context.response k_http_done)) [
        | inl done ↦
            elim (Result-cases (ServerStream.do_write p.session.context.response p.server)) [
              | inl (s, e) ↦
                  rw (get_response-held p m, handle_client_connect, ◌>>=◌, ◌>>◌, done)
                    (rw (write_to_server-held p m p.session.context.response, ◌>>=◌, ◌>>◌, e)
                      (change_state-held (record p { server = s }) m ready_to_transfer_data))
              | inr (x, e) ↦
                  rw (get_response-held p m, handle_client_connect, ◌>>=◌, ◌>>◌, done)
                    (rw (write_to_server-held p m p.session.context.response, ◌>>=◌, ◌>>◌, e))
            ]
        | inr other ↦
            elim (Result-cases (ClientStream.do_write p.session.context.response p.client)) [
              | inl (c, e) ↦
                  rw (get_response-held p m, handle_client_connect, ◌>>=◌, ◌>>◌, other)
                    (rw (write_to_client-held p m p.session.context.response, ◌>>=◌, ◌>>◌, e)
                      (change_state-held (record p { client = c }) m ready_to_transfer_data))
              | inr (x, e) ↦
                  rw (get_response-held p m, handle_client_connect, ◌>>=◌, ◌>>◌, other)
                    (rw (write_to_client-held p m p.session.context.response, ◌>>=◌, ◌>>◌, e))
            ]
      ]
  handle_client_connect-Does wait_request = refl
  handle_client_connect-Does _ = refl

  callback-Does : (e : Event) → Does p m (callback e (key p m)) (react e p)
  unfolding callback react
  callback-Does (server_read buffer) =
      rw when_found-hold (handle_server_read-Does p.session.state buffer)
  callback-Does server_write = rw when_found-hold (handle_server_write-Does p.session.state)
  callback-Does (server_error ec) = rw when_found-hold (handle_server_error-Does p.session.state ec)
  callback-Does client_connect = rw when_found-hold (handle_client_connect-Does p.session.state)
  callback-Does (client_read buffer) =
      rw when_found-hold (handle_client_read-Does p.session.state buffer)
  callback-Does client_write = rw when_found-hold (handle_client_write-Does p.session.state)
  callback-Does (client_error ec) = rw when_found-hold (handle_client_error-Does p.session.state ec)

  -- The callback for an event of a session that the manager holds, and whose session has the
  -- identifier under which it is held, does what the automaton of that session answers, and nothing
  -- else: it faults as the automaton does, puts back the changed pair, or erases it.
  pub callback-react_http :
      (e : Event)
      → Table.find (key p m) m.sessions ≡ some p
      → callback e (key p m) m ≡ bind (react e p) (λ o. ok (tt, commit (key p m) o m))
  callback-react_http e held = rw (hold-find (key p m) p m held) at (callback-Does e)

-- An event of a stream whose session was erased changes nothing.
pub callback-stale_http :
    (e : Event) (id : ℕ) (m : StreamManager State)
    → Table.find id m.sessions ≡ none
    → callback e id m ≡ ok (tt, m)
unfolding callback
callback-stale_http (server_read buffer) id m h = when_found-absent id _ m h
callback-stale_http _ id m h = when_found-absent id _ m h
