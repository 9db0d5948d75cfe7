-- ===== src/Proxy/Store.antt =====
-- The data of the stream managers (http_stream_manager.h, socks5_stream_manager.h) and of the sessions
-- (http_session.h, socks5_session.h), and the state with faults that their methods run in.
use amgi_net_tools.Base.{ℕ, Bytes, List, [], Option, none, some, Result, ok, fault, use_after_free}
use amgi_net_tools.Base.Table.{Table}
use amgi_net_tools.Base.Table
use amgi_net_tools.Transport.ServerStream.{ServerStream}
use amgi_net_tools.Transport.ClientStream.{ClientStream}

-- http_ctx, and socks_ctx, which has the same fields.
pub record Context : Type 0 where
  pub id : ℕ
  pub response : Bytes
  pub host : Bytes
  pub service : Bytes
  pub transferred_bytes_to_remote : ℕ  -- size_t
  pub transferred_bytes_to_local : ℕ  -- size_t

-- A session in one of its protocol's states.
pub record Session (S : Type 0) : Type 0 where
  pub context : Context
  pub state : S

-- http_pair and socks_pair.
pub record Pair (S : Type 0) : Type 0 where
  pub id : ℕ
  pub server : ServerStream
  pub client : ClientStream
  pub session : Session S

-- `retired` holds the streams of the erased sessions: the handlers of their operations keep them alive.
pub record StreamManager (S : Type 0) : Type 0 where
  pub sessions : Table (Pair S)
  pub retired : List (ServerStream × ClientStream)

unfoldable pub no_sessions : {S : Type 0} → StreamManager S
no_sessions = record { sessions = Table.empty; retired = [] }

-- A method of a manager or of a session that it owns.
abbrev pub M : Type 0 → Type 0 → Type 0
M S A = StreamManager S → Result (A × StreamManager S)

infixl 5 ◌>>=◌ ◌>>◌
abbrev pub ◌>>=◌ : {S A B : Type 0} → M S A → (A → M S B) → M S B
◌>>=◌ m f s = elim (m s) [ ok (a, t) ↦ f a t | fault e ↦ fault e ]

abbrev pub ◌>>◌ : {S B : Type 0} → M S (Unit {0}) → M S B → M S B
m >> k = m >>= λ _. k

abbrev pub pure : {S A : Type 0} → A → M S A
pure a m = ok (a, m)

attach : {S A : Type 0} → StreamManager S → Result A → Result (A × StreamManager S)
attach m (ok a) = ok (a, m)
attach m (fault e) = fault e

-- A computation that touches no session.
unfoldable pub lift : {S A : Type 0} → Result A → M S A
unfolding attach
lift r m = attach m r

module _ {S : Type 0} where
  unfoldable pub find : ℕ → M S (Option (Pair S))
  find k m = ok (Table.find k m.sessions, m)

  unfoldable pub assign : ℕ → Pair S → M S (Unit {0})
  assign k p m = ok (tt, record m { sessions = Table.put k p m.sessions })

  on_entry : (Pair S → M S (Unit {0})) → Option (Pair S) → M S (Unit {0})
  on_entry f none = pure tt
  on_entry f (some p) = f p

  -- `if (auto it = sessions_.find(id); it != sessions_.end())`
  unfoldable pub when_found : ℕ → (Pair S → M S (Unit {0})) → M S (Unit {0})
  unfolding find on_entry
  when_found k f = do found ← find k; on_entry f found

  pointee : Option (Pair S) → M S (Pair S)
  pointee none m = fault use_after_free
  pointee (some p) m = ok (p, m)

  -- The pair that holds the session which a method's `this` points to. The session is gone once the
  -- manager has erased it.
  unfoldable pub deref : ℕ → M S (Pair S)
  unfolding find pointee
  deref k = do found ← find k; pointee found
