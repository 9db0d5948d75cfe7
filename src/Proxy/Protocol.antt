-- ===== src/Proxy/Protocol.antt =====
-- What the manager asks of a protocol, and what the protocol promises of its handlers.
use amgi_net_tools.Base.{ℕ, ◌≡◌, none, some, ok, Result, ◌>>=◌ as bind}
use amgi_net_tools.Base.Table
use amgi_net_tools.Proxy.Store.{Pair, StreamManager, M}
use amgi_net_tools.Proxy.Local.{key}
use amgi_net_tools.Proxy.Events.{Event, Outcome, goes_on, commit}

-- The state that a session starts in, the callbacks, and the automaton of one session. The callback for an event
-- of a session that is held does what the automaton answers, a callback for an unknown identifier changes
-- nothing, and no answer changes the identifier of a session.
pub record Protocol (S : Type 0) : Type 0 where
  pub initial : S
  pub callback : Event → ℕ → M S (Unit {0})
  pub react : Event → Pair S → Result (Outcome S)
  pub refines :
      (p : Pair S) (m : StreamManager S) (e : Event)
      → Table.find (key p m) m.sessions ≡ some p
      → callback e (key p m) m ≡ bind (react e p) (λ o. ok (tt, commit (key p m) o m))
  pub stale :
      (e : Event) (id : ℕ) (m : StreamManager S)
      → Table.find id m.sessions ≡ none
      → callback e id m ≡ ok (tt, m)
  pub keeps_id :
      (e : Event) (p q : Pair S)
      → react e p ≡ ok (goes_on q)
      → q.session.context.id ≡ p.session.context.id
