-- ===== src/Proxy/Local.antt =====
-- A method of a session changes the entry of that session alone: each is computed here on a manager
-- that holds a pair under the identifier of its session.
use amgi_net_tools.Base.{
  ℕ, ◌+◌, ◌%◌, ◌^◌, ◌≡◌, ◌≢◌, ap, ◌∷◌, ok, Result-cases, ◌>>=◌ as bind, inl, inr, Bytes, none, some,
}
use amgi_net_tools.Base.Table.{
  Table, find-put_self, find-put_ne, find-erase_self, find-erase_ne, put-put, erase-put, put-find,
}
use amgi_net_tools.Base.Table
use amgi_net_tools.Proxy.Store.{
  Context, Pair, StreamManager, M, ◌>>=◌, deref, when_found, assign, lift,
}
use amgi_net_tools.Transport.ServerStream.{ServerStream}
use amgi_net_tools.Transport.ServerStream
use amgi_net_tools.Transport.ClientStream.{ClientStream}
use amgi_net_tools.Transport.ClientStream
use amgi_net_tools.Proxy.Session
use amgi_net_tools.Proxy.StreamManager

module _ {S : Type 0} where
  -- The manager `m` with the pair `p` under `k`.
  unfoldable pub hold : ℕ → Pair S → StreamManager S → StreamManager S
  hold k p m = record m { sessions = Table.put k p m.sessions }

  -- The manager `m` without the pair `p`, whose streams are retired.
  unfoldable pub drop : ℕ → Pair S → StreamManager S → StreamManager S
  drop k p m = record m {
    sessions = Table.erase k m.sessions;
    retired = (p.server, p.client) ∷ m.retired;
  }

  with_sessions : StreamManager S → Table (Pair S) → StreamManager S
  with_sessions m t = record m { sessions = t }

  -- A manager that has a pair is the manager with that pair put in.
  pub hold-find :
      (k : ℕ) (p : Pair S) (m : StreamManager S) → Table.find k m.sessions ≡ some p → hold k p m ≡ m
  unfolding hold with_sessions
  hold-find k p m h = ap (with_sessions m) (put-find k p m.sessions h)

  pub find-hold_self :
      (k : ℕ) (p : Pair S) (m : StreamManager S) → Table.find k (hold k p m).sessions ≡ some p
  unfolding hold
  find-hold_self k p m = find-put_self k p m.sessions

  pub find-hold_ne :
      (j k : ℕ) (p : Pair S) (m : StreamManager S)
      → j ≢ k
      → Table.find j (hold k p m).sessions ≡ Table.find j m.sessions
  unfolding hold
  find-hold_ne j k p m h = find-put_ne j k p m.sessions h

  pub find-drop_self :
      (k : ℕ) (p : Pair S) (m : StreamManager S) → Table.find k (drop k p m).sessions ≡ none
  unfolding drop
  find-drop_self k p m = find-erase_self k m.sessions

  pub find-drop_ne :
      (j k : ℕ) (p : Pair S) (m : StreamManager S)
      → j ≢ k
      → Table.find j (drop k p m).sessions ≡ Table.find j m.sessions
  unfolding drop
  find-drop_ne j k p m h = find-erase_ne j k m.sessions h

  pub deref-hold :
      (k : ℕ) (p : Pair S) (m : StreamManager S) → deref k (hold k p m) ≡ ok (p, hold k p m)
  unfolding deref hold
  deref-hold k p m = rw (find-put_self k p m.sessions)

  pub assign-hold :
      (k : ℕ) (q p : Pair S) (m : StreamManager S) → assign k q (hold k p m) ≡ ok (tt, hold k q m)
  unfolding assign hold
  assign-hold k q p m = rw (put-put k q p m.sessions)

  pub when_found-hold :
      (k : ℕ) (f : Pair S → M S (Unit {0})) (p : Pair S) (m : StreamManager S)
      → when_found k f (hold k p m) ≡ f p (hold k p m)
  unfolding when_found hold
  when_found-hold k f p m = rw (find-put_self k p m.sessions)

  pub when_found-absent :
      (k : ℕ) (f : Pair S → M S (Unit {0})) (m : StreamManager S)
      → Table.find k m.sessions ≡ none
      → when_found k f m ≡ ok (tt, m)
  unfolding when_found
  when_found-absent k f m h = rw (h, when_found)

  pub when_found-present :
      (k : ℕ) (f : Pair S → M S (Unit {0})) (p : Pair S) (m : StreamManager S)
      → Table.find k m.sessions ≡ some p
      → when_found k f m ≡ f p m
  unfolding when_found
  when_found-present k f p m h = rw (h, when_found)

  pub erase-hold :
      (k : ℕ) (q p : Pair S) (m : StreamManager S)
      → StreamManager.erase k q (hold k p m) ≡ ok (tt, drop k q m)
  unfolding StreamManager.erase hold drop
  erase-hold k q p m = rw (erase-put k p m.sessions)

ruleset entries = (deref-hold, assign-hold, when_found-hold, erase-hold)

module _ {S : Type 0} (p : Pair S) (m : StreamManager S) where
  abbrev pub key : ℕ
  key = p.session.context.id

  abbrev held : StreamManager S
  held = hold key p m

  abbrev pub with_context : (Context → Context) → Pair S
  with_context f = record p { session = record p.session { context = f p.session.context } }

  pub context-held : Session.context key held ≡ ok (p.session.context, held)
  unfolding Session.context
  context-held = simp (entries, Session.context, ◌>>=◌)

  pub update_context-held :
      (f : Context → Context)
      → Session.update_context key f held ≡ ok (tt, hold key (with_context f) m)
  unfolding Session.update_context
  update_context-held f = simp (entries, Session.update_context, ◌>>=◌)

  abbrev pub counted_remote : ℕ → Pair S
  counted_remote count = with_context λ c. record c {
    transferred_bytes_to_remote = (c.transferred_bytes_to_remote + count) % 2 ^ 64;
  }

  abbrev pub counted_local : ℕ → Pair S
  counted_local count =
      with_context λ c. record c {
        transferred_bytes_to_local = (c.transferred_bytes_to_local + count) % 2 ^ 64;
      }

  abbrev pub with_endpoint : Bytes → Bytes → Pair S
  with_endpoint host service = with_context λ c. record c { host = host; service = service }

  abbrev pub with_response : Bytes → Pair S
  with_response buffer = with_context λ c. record c { response = buffer }

  abbrev pub with_state : S → Pair S
  with_state state = record p { session = record p.session { state = state } }

  pub update_bytes_sent_to_remote-held :
      (count : ℕ)
      → Session.update_bytes_sent_to_remote key count held
        ≡ ok (tt, hold key (counted_remote count) m)
  unfolding Session.update_bytes_sent_to_remote
  update_bytes_sent_to_remote-held count = update_context-held _

  pub update_bytes_sent_to_local-held :
      (count : ℕ)
      → Session.update_bytes_sent_to_local key count held
        ≡ ok (tt, hold key (counted_local count) m)
  unfolding Session.update_bytes_sent_to_local
  update_bytes_sent_to_local-held count = update_context-held _

  pub set_endpoint_info-held :
      (host service : Bytes)
      → Session.set_endpoint_info key host service held
        ≡ ok (tt, hold key (with_endpoint host service) m)
  unfolding Session.set_endpoint_info
  set_endpoint_info-held host service = update_context-held _

  pub set_response-held :
      (buffer : Bytes)
      → Session.set_response key buffer held ≡ ok (tt, hold key (with_response buffer) m)
  unfolding Session.set_response
  set_response-held buffer = update_context-held _

  pub change_state-held :
      (state : S) → Session.change_state key state held ≡ ok (tt, hold key (with_state state) m)
  unfolding Session.change_state
  change_state-held state = simp (entries, Session.change_state, ◌>>=◌)

  pub get_response-held : Session.get_response key held ≡ ok (p.session.context.response, held)
  unfolding Session.get_response
  get_response-held = simp (context-held, Session.get_response, ◌>>=◌)

  pub read_from_server-held :
      Session.read_from_server key held
      ≡ ok (tt, hold key (record p { server = ServerStream.do_read p.server }) m)
  unfolding Session.read_from_server StreamManager.read_server
  read_from_server-held = simp (entries, Session.read_from_server, ◌>>=◌)

  pub read_from_client-held :
      Session.read_from_client key held
      ≡ ok (tt, hold key (record p { client = ClientStream.do_read p.client }) m)
  unfolding Session.read_from_client StreamManager.read_client
  read_from_client-held = simp (entries, Session.read_from_client, ◌>>=◌)

  pub connect-held :
      Session.connect key held
      ≡ ok (
        tt,
        hold key
            (record p {
              client = ClientStream.do_start (
                  ClientStream.do_set_service p.session.context.service
                    (ClientStream.do_set_host p.session.context.host p.client));
            })
            m,
      )
  unfolding Session.connect StreamManager.connect
  connect-held = simp (entries, Session.connect, ◌>>=◌)

  pub stop-held :
      Session.stop key held
      ≡ ok (
        tt,
        drop key
            (record p {
              client = ClientStream.do_stop p.client;
              server = ServerStream.do_stop p.server;
            })
            m,
      )
  unfolding Session.stop StreamManager.stop
  stop-held = simp (entries, Session.stop, ◌>>=◌)

  pub write_to_server-held :
      (buffer : Bytes)
      → Session.write_to_server key buffer held
        ≡ bind
            (ServerStream.do_write buffer p.server)
            (λ s. ok (tt, hold key (record p { server = s }) m))
  unfolding Session.write_to_server StreamManager.write_server lift
  write_to_server-held buffer = elim (Result-cases (ServerStream.do_write buffer p.server)) [
    | inl (s, e) ↦
        rw (context-held, Session.write_to_server, ◌>>=◌) (rw (when_found-hold, e) (rw assign-hold))
    | inr (x, e) ↦ rw (context-held, Session.write_to_server, ◌>>=◌) (rw (when_found-hold, e))
  ]

  pub write_to_client-held :
      (buffer : Bytes)
      → Session.write_to_client key buffer held
        ≡ bind
            (ClientStream.do_write buffer p.client)
            (λ c. ok (tt, hold key (record p { client = c }) m))
  unfolding Session.write_to_client StreamManager.write_client lift
  write_to_client-held buffer = elim (Result-cases (ClientStream.do_write buffer p.client)) [
    | inl (c, e) ↦
        rw (context-held, Session.write_to_client, ◌>>=◌) (rw (when_found-hold, e) (rw assign-hold))
    | inr (x, e) ↦ rw (context-held, Session.write_to_client, ◌>>=◌) (rw (when_found-hold, e))
  ]
