-- ===== src/Proxy/Isolation.antt =====
-- Callbacks, and the sessions of the other streams.
use amgi_net_tools.Base.{ℕ, ◌≡◌, ◌≢◌, ok, inl, inr, Option-cases, arith, >>=-eq-ok, sym, ◌∙◌, some}
use mathlib.Core.Path.{subst}
use amgi_net_tools.Base.Table
use amgi_net_tools.Proxy.Protocol.{Protocol}
use amgi_net_tools.Proxy.Store.{Pair, StreamManager}
use amgi_net_tools.Proxy.Local.{find-hold_ne, find-drop_ne}
use amgi_net_tools.Proxy.Events.{Event, Outcome, goes_on, ends, commit}

-- Every session is held under its own identifier.
abbrev pub KeysAgree : {S : Type 0} → StreamManager S → Type 0
KeysAgree {S} m =
    (id : ℕ) (p : Pair S) → Table.find id m.sessions ≡ some p → p.session.context.id ≡ id

pub find-commit_ne :
    {S : Type 0} (j k : ℕ) (o : Outcome S) (m : StreamManager S)
    → j ≢ k
    → Table.find j (commit k o m).sessions ≡ Table.find j m.sessions
unfolding commit
find-commit_ne j k (goes_on p) m h = find-hold_ne j k p m h
find-commit_ne j k (ends p) m h = find-drop_ne j k p m h

-- What a callback that succeeds makes of the manager.
callback-commit :
    {S : Type 0} (protocol : Protocol S) (e : Event) (p : Pair S) (m n : StreamManager S)
    → Table.find p.session.context.id m.sessions ≡ some p
    → protocol.callback e p.session.context.id m ≡ ok (tt, n)
    → (o : Outcome S) × (protocol.react e p ≡ ok o) × (commit p.session.context.id o m ≡ n)
callback-commit protocol e p m n found done =
    let (o, answered, last) =
      >>=-eq-ok (protocol.react e p) _ (sym (protocol.refines p m e found) ∙ done) in
    (o, answered, cc last)

held_isolated :
    {S : Type 0} (protocol : Protocol S) (e : Event) (j : ℕ) (p : Pair S) (m n : StreamManager S)
    → Table.find p.session.context.id m.sessions ≡ some p
    → protocol.callback e p.session.context.id m ≡ ok (tt, n)
    → j ≢ p.session.context.id
    → Table.find j n.sessions ≡ Table.find j m.sessions
held_isolated protocol e j p m n found done other =
    let (o, _, after) = callback-commit protocol e p m n found done in
    rw (← after) (find-commit_ne j p.session.context.id o m other)

-- A callback with the identifier of one stream changes no session with another identifier.
pub callback_isolated :
    {S : Type 0} (protocol : Protocol S) (e : Event) (id j : ℕ) (m n : StreamManager S)
    → KeysAgree m
    → protocol.callback e id m ≡ ok (tt, n)
    → j ≢ id
    → Table.find j n.sessions ≡ Table.find j m.sessions
callback_isolated protocol e id j m n agree done other =
    elim (Option-cases (Table.find id m.sessions)) [
      | inl absent ↦ ground (arith, protocol.stale e id m absent)
      | inr (p, found) ↦
          let same = sym (agree id p found) in
          held_isolated protocol e j p m n
            (subst (λ k. Table.find k m.sessions ≡ some p) (same) found)
            (subst (λ k. protocol.callback e k m ≡ ok (tt, n)) (same) done)
            (subst (λ k. j ≢ k) (same) other)
    ]
