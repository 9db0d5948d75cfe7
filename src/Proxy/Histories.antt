-- ===== src/Proxy/Histories.antt =====
-- The sessions of a running server, and the histories that each has on its own.
use mathlib.Core.Path.{subst}
use amgi_net_tools.Base.{
  ◌^◌, ℕ, ◌<◌, ◌≡◌, ◌≢◌, refl, sym, ap, ◌∙◌, Bool, Bool-cases, Option-cases, some, none, ok,
  >>=-eq-ok, inl, inr, arith, ◌==◌, ==_iff, Result,
}
use amgi_net_tools.Base.Table
use amgi_net_tools.Base.Table.{find-empty, find-put_self, find-put_ne, insert-absent}
use amgi_net_tools.Transport.ServerStream
use amgi_net_tools.Transport.ServerStream.{ServerStream, Kind, tcp, tls}
use amgi_net_tools.Proxy.Store.{Pair, StreamManager, no_sessions}
use amgi_net_tools.Proxy.StreamManager
use amgi_net_tools.Proxy.Local.{hold, find-hold_self, find-hold_ne, find-drop_self}
use amgi_net_tools.Proxy.Events.{Outcome, goes_on, ends, commit}
use amgi_net_tools.Proxy.Network.{
  Completion, server_handshaken, client_resolved, take_off, handle, Reaches, here, next,
}
use amgi_net_tools.Proxy.Acceptor.{Acceptor, start_accept, accept_done}
use amgi_net_tools.Proxy.Acceptor
use amgi_net_tools.Proxy.Protocol.{Protocol}
use amgi_net_tools.Proxy.Isolation.{find-commit_ne}
use amgi_net_tools.Proxy.Deliver.{
  deliver, deliver-handle, Runs, started, closing, accepting, delivering,
}

pub take_off-session :
    {S : Type 0} (c : Completion) (p : Pair S) {q : Pair S}
    → take_off c p ≡ some q
    → q.session ≡ p.session
unfolding take_off
take_off-session _ p h = ground (arith, h)

module _ {S : Type 0} (protocol : Protocol S) where
  -- A pair as `on_accept` puts it into the table.
  abbrev pub accepted : ServerStream → Pair S
  accepted upstream = StreamManager.new_pair protocol.initial (ServerStream.do_start upstream)

  handle-keeps_id :
      (c : Completion) (p : Pair S) {r : Pair S}
      → handle protocol.react c p ≡ ok (goes_on r)
      → r.session.context.id ≡ p.session.context.id
  unfolding handle
  handle-keeps_id server_handshaken p h = ground (arith, h)
  handle-keeps_id client_resolved p h = ground (arith, h)
  handle-keeps_id _ p h = protocol.keeps_id _ p _ h

  pub Reaches-keeps_id :
      (kind : Kind) (id : ℕ) {p : Pair S}
      → Reaches protocol.react (accepted (ServerStream.make kind id)) p
      → p.session.context.id ≡ id
  unfolding StreamManager.new_pair ServerStream.do_start ServerStream.make
  Reaches-keeps_id tcp id here = refl
  Reaches-keeps_id tls id here = refl
  Reaches-keeps_id kind id (next {p} {q} c reached taken answered) =
      handle-keeps_id c q answered
      ∙ ap (λ s. s.context.id) (take_off-session c p taken)
      ∙ Reaches-keeps_id kind id reached

  -- Each held session was accepted under its identifier, which is an old one, and was reached on its own.
  abbrev pub Held : Kind → Acceptor → StreamManager S → Type 0
  Held kind a m =
      (id : ℕ) (p : Pair S)
      → Table.find id m.sessions ≡ some p
      → (id < a.stream_id) × Reaches protocol.react (accepted (ServerStream.make kind id)) p

  -- What is said of one held session.
  abbrev IsOwn : Kind → Acceptor → ℕ → Pair S → Type 0
  IsOwn kind a id p =
      (id < a.stream_id) × Reaches protocol.react (accepted (ServerStream.make kind id)) p

  module _ (kind : Kind) (a : Acceptor) where
    module _ (c : Completion) (p q : Pair S) (m : StreamManager S) (h : Held kind a m)
        (found : Table.find q.session.context.id m.sessions ≡ some p)
        (taken : take_off c p ≡ some q) where
      IsOwn-committed :
          (o : Outcome S) {r : Pair S}
          → handle protocol.react c q ≡ ok o
          → Table.find q.session.context.id
              (commit q.session.context.id o (hold q.session.context.id q m)).sessions
            ≡ some r
          → IsOwn kind a q.session.context.id r
      unfolding commit
      IsOwn-committed (goes_on s) answered at =
          let k = q.session.context.id in
          let (old, reached) = h k p found in
          (
            old,
            subst (λ x. Reaches protocol.react (accepted (ServerStream.make kind k)) x)
                (cc (find-hold_self k s (hold k q m), at)) (next c reached taken answered),
          )
      IsOwn-committed (ends s) answered at =
          let k = q.session.context.id in
          absurd (ground (arith, find-drop_self k s (hold k q m), at))

      commit-Held :
          (o : Outcome S)
          → handle protocol.react c q ≡ ok o
          → Held kind a (commit q.session.context.id o (hold q.session.context.id q m))
      commit-Held o answered j r at =
          let k = q.session.context.id in
          elim (Bool-cases (j == k)) [
            | inl e ↦
                let same = (==_iff j k).0 e in
                subst (λ i. IsOwn kind a i r) (sym same)
                  (IsOwn-committed o answered
                    (subst (λ i. Table.find i (commit k o (hold k q m)).sessions ≡ some r) same at))
            | inr e ↦
                let other : j ≢ k = ground (arith, e) in
                h j r (
                  sym (find-hold_ne j k q m other)
                  ∙ sym (find-commit_ne j k o (hold k q m) other)
                  ∙ at)
          ]

      deliver-Held :
          {n : StreamManager S}
          → deliver protocol c q.session.context.id (hold q.session.context.id q m) ≡ ok (tt, n)
          → Held kind a n
      deliver-Held {n} done =
          let k = q.session.context.id in
          let (o, answered, last) =
            >>=-eq-ok (handle protocol.react c q) _
              (sym (deliver-handle protocol q (hold k q m) c (find-hold_self k q m)) ∙ done) in
          let same : commit k o (hold k q m) ≡ n = cc last in
          subst (Held kind a) same (commit-Held o answered)

    -- The identifier of the stream that waits for a connection is not in use.
    pub fresh : (m : StreamManager S) → Held kind a m → Table.find a.stream_id m.sessions ≡ none
    fresh m h = elim (Option-cases (Table.find a.stream_id m.sessions)) [
      | inl absent ↦ absent
      | inr (p, found) ↦ let (old, _) = h a.stream_id p found in absurd (omega (arith, old))
    ]

    put_in-Held :
        (m : StreamManager S)
        → Held kind a m
        → Held kind
            (start_accept a)
            (hold a.stream_id (accepted (ServerStream.make kind a.stream_id)) m)
    unfolding start_accept
    put_in-Held m h j r at = elim (Bool-cases (j == a.stream_id)) [
      | inl e ↦
          let k = a.stream_id in
          let own = accepted (ServerStream.make kind k) in
          let same = (==_iff j k).0 e in
          let at_k : Table.find k (hold k own m).sessions ≡ some r =
            subst (λ i. Table.find i (hold k own m).sessions ≡ some r) same at in
          let equal : own ≡ r = cc (find-hold_self k own m, at_k) in
          (
            omega (arith, same),
            subst (λ i. Reaches protocol.react (accepted (ServerStream.make kind i)) r) (sym same)
                (subst (λ x. Reaches protocol.react own x) equal here),
          )
      | inr e ↦
          let other : j ≢ a.stream_id = ground (arith, e) in
          let (old, reached) = h j r (sym (find-hold_ne j a.stream_id _ m other) ∙ at) in
          (omega (arith, old), reached)
    ]

    later-Held : (m : StreamManager S) → Held kind a m → Held kind (start_accept a) m
    unfolding start_accept
    later-Held m h id p found = let (old, reached) = h id p found in (omega (arith, old), reached)

    pub on_accept-fresh :
        (m : StreamManager S)
        → Table.find a.stream_id m.sessions ≡ none
        → StreamManager.on_accept protocol.initial (ServerStream.make kind a.stream_id) m
          ≡ ok (tt, hold a.stream_id (accepted (ServerStream.make kind a.stream_id)) m)
    unfolding StreamManager.on_accept hold ServerStream.make
    on_accept-fresh m absent = rw (insert-absent a.stream_id _ m.sessions absent)

    Held-answer :
        (r s : Acceptor × StreamManager S)
        → ◌≡◌ {A = Result (Acceptor × StreamManager S)} (ok r) (ok s)
        → Held kind r.0 r.1
        → Held kind s.0 s.1
    Held-answer r s h held = let same : r ≡ s = cc h in subst (λ x. Held kind x.0 x.1) same held

    accept_done-Held :
        (failed : Bool) (m : StreamManager S) {b : Acceptor} {n : StreamManager S}
        → Held kind a m
        → accept_done (StreamManager.on_accept protocol.initial) kind failed a m ≡ ok (b, n)
        → Held kind b n
    unfolding accept_done
    accept_done-Held failed m {b} {n} h done = elim (Bool-cases a.is_open) [
      | inl opened ↦ elim (Bool-cases failed) [
        | inl failure ↦
            Held-answer (start_accept a, m) (b, n) (rw (opened, failure) at done) (later-Held m h)
        | inr success ↦
            Held-answer
              (start_accept a, hold a.stream_id (accepted (ServerStream.make kind a.stream_id)) m)
              (b, n) (rw (opened, success, on_accept-fresh m (fresh m h)) at done) (put_in-Held m h)
      ]
      | inr shut ↦ Held-answer (a, m) (b, n) (ground (arith, shut, done)) h
    ]

  -- Whatever order connections are accepted in and operations complete in, each session that the manager holds
  -- was accepted under the identifier that it is held under, which is below that of the stream that waits, and is in
  -- a state that it reaches alone, by the completions of its own streams. The numbers are those of a counter that is not bounded.
  pub Runs-Held :
      (kind : Kind) {a : Acceptor} {m : StreamManager S} → Runs protocol kind a m → Held kind a m
  unfolding no_sessions Acceptor.close
  Runs-Held kind started = λ id p found. absurd (ground (arith, find-empty {V = Pair S} id, found))
  Runs-Held kind (closing reached) = Runs-Held kind reached
  Runs-Held kind (accepting {a} {b} {m} failed reached done) =
      accept_done-Held kind a failed m (Runs-Held kind reached) done
  Runs-Held kind (delivering {a} {m} {n} {p} {q} c id reached at taken done) =
      let held = Runs-Held kind reached in
      let (_, alone) = held id p at in
      let same : id ≡ q.session.context.id =
        sym
          (ap (λ s. s.context.id) (take_off-session c p taken) ∙ Reaches-keeps_id kind id alone) in
      deliver-Held kind a c p q m held (subst (λ i. Table.find i m.sessions ≡ some p) same at) taken
        (subst (λ i. deliver protocol c i (hold i q m) ≡ ok (tt, n)) same done)

  -- Whatever order connections are accepted in and operations complete in, and as long as the counter of the accept loop, which is
  -- an int, is below 2 ^ 31: each session that the manager holds was accepted under the identifier that it is held under, is
  -- in a state that it reaches alone, by the completions of its own streams, and the identifier is below that of the next
  -- connection, under which nothing is held.
  pub Runs-IsOwn :
      (kind : Kind) (id : ℕ) (p : Pair S) {a : Acceptor} {m : StreamManager S}
      → Runs protocol kind a m
      → a.stream_id < 2 ^ 31
      → Table.find id m.sessions ≡ some p
      → (id < a.stream_id)
        × Reaches protocol.react (accepted (ServerStream.make kind id)) p
        × (Table.find a.stream_id m.sessions ≡ none)
  Runs-IsOwn kind id p {a} {m} running in_range found =
      let held = Runs-Held kind running in
      let (old, alone) = held id p found in (old, alone, fresh kind a m held)
