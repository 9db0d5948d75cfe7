-- ===== src/Proxy/Session.antt =====
-- The methods of a session that its states call: http_session.h and http_session.cpp, and with the
-- same text socks5_session.h and socks5_session.cpp. `this` is the key under which the manager holds
-- the session; each method reads the session through it.
use amgi_net_tools.Base.{ℕ, ◌+◌, ◌%◌, ◌^◌, Bytes}
use amgi_net_tools.Proxy.Store.{Context, M, pure, ◌>>=◌, assign, deref}
use amgi_net_tools.Proxy.StreamManager

module _ {S : Type 0} where
  unfoldable pub context : ℕ → M S Context
  context this = do p ← deref this; pure p.session.context

  unfoldable pub update_context : ℕ → (Context → Context) → M S (Unit {0})
  update_context this f = do
    p ← deref this
    assign this (record p { session = record p.session { context = f p.session.context } })

  unfoldable pub change_state : ℕ → S → M S (Unit {0})
  change_state this state = do
    p ← deref this
    assign this (record p { session = record p.session { state = state } })

  -- The counters are size_t.
  unfoldable pub update_bytes_sent_to_remote : ℕ → ℕ → M S (Unit {0})
  unfolding update_context
  update_bytes_sent_to_remote this count = update_context this λ c. record c {
    transferred_bytes_to_remote = (c.transferred_bytes_to_remote + count) % 2 ^ 64;
  }

  unfoldable pub update_bytes_sent_to_local : ℕ → ℕ → M S (Unit {0})
  unfolding update_context
  update_bytes_sent_to_local this count =
      update_context this λ c. record c {
        transferred_bytes_to_local = (c.transferred_bytes_to_local + count) % 2 ^ 64;
      }

  unfoldable pub set_endpoint_info : ℕ → Bytes → Bytes → M S (Unit {0})
  unfolding update_context
  set_endpoint_info this host service =
      update_context this λ c. record c { host = host; service = service }

  unfoldable pub set_response : ℕ → Bytes → M S (Unit {0})
  unfolding update_context
  set_response this buffer = update_context this λ c. record c { response = buffer }

  unfoldable pub get_response : ℕ → M S Bytes
  unfolding context
  get_response this = do c ← context this; pure c.response

  unfoldable pub connect : ℕ → M S (Unit {0})
  unfolding context
  connect this = do c ← context this; StreamManager.connect c.id c.host c.service

  unfoldable pub stop : ℕ → M S (Unit {0})
  unfolding context
  stop this = do c ← context this; StreamManager.stop c.id

  unfoldable pub read_from_server : ℕ → M S (Unit {0})
  unfolding context
  read_from_server this = do c ← context this; StreamManager.read_server c.id

  unfoldable pub read_from_client : ℕ → M S (Unit {0})
  unfolding context
  read_from_client this = do c ← context this; StreamManager.read_client c.id

  unfoldable pub write_to_client : ℕ → Bytes → M S (Unit {0})
  unfolding context
  write_to_client this buffer = do c ← context this; StreamManager.write_client c.id buffer

  unfoldable pub write_to_server : ℕ → Bytes → M S (Unit {0})
  unfolding context
  write_to_server this buffer = do c ← context this; StreamManager.write_server c.id buffer
