-- ===== src/Proxy/Interleaving.antt =====
-- A running server, and the completions of one of its streams.
use amgi_net_tools.Base.{
  ℕ, ◌<◌, ◌≡◌, ◌≢◌, sym, ap, ◌∙◌, Bool, Bool-cases, Option-cases, List, [], ◌∷◌, ◌++◌, some, ok,
  inl, inr, arith, ◌==◌, ==_iff, Result, if◌then◌else◌,
}
use amgi_net_tools.Base.Table
use amgi_net_tools.Transport.ServerStream.{Kind}
use amgi_net_tools.Proxy.Store.{Pair, StreamManager}
use amgi_net_tools.Proxy.StreamManager
use amgi_net_tools.Proxy.Local.{hold, find-hold_self, find-hold_ne, find-drop_self}
use amgi_net_tools.Proxy.Events.{Event, Outcome, goes_on, ends, commit}
use amgi_net_tools.Proxy.Network.{Completion, take_off, handle}
use amgi_net_tools.Proxy.Acceptor.{Acceptor, accept_done}
use amgi_net_tools.Proxy.Acceptor
use amgi_net_tools.Proxy.Protocol.{Protocol}
use amgi_net_tools.Proxy.Isolation.{find-commit_ne}
use amgi_net_tools.Proxy.Run.{run, survivor}
use amgi_net_tools.Proxy.Deliver.{deliver, Runs, closing, accepting, delivering}
use amgi_net_tools.Proxy.Histories.{Runs-Held}
use amgi_net_tools.Proxy.Traffic.{delivered, accept_done-Unchanged}

module _ {S : Type 0} (react : Event → Pair S → Result (Outcome S)) where
  -- One more completion.
  run-snoc :
      (cs : List Completion) (c : Completion) (p s q : Pair S) (o : Outcome S)
      → run react cs p ≡ some s
      → take_off c s ≡ some q
      → handle react c q ≡ ok o
      → run react (cs ++ c ∷ []) p ≡ survivor (ok o)
  unfolding run survivor
  run-snoc [] c p s q (goes_on r) reached taken answered = ground (arith, reached, taken, answered)
  run-snoc [] c p s q (ends r) reached taken answered = ground (arith, reached, taken, answered)
  run-snoc (d ∷ cs) c p s q o reached taken answered = elim (Option-cases (take_off d p)) [
    | inl impossible ↦ absurd (ground (arith, impossible, reached))
    | inr (t, done) ↦ elim (Option-cases (survivor (handle react d t))) [
      | inl over ↦ absurd (ground (arith, done, over, reached))
      | inr (u, on) ↦
          let rest = run-snoc cs c u s q o (ground (arith, done, on, reached)) taken answered in
          ground (arith, done, on, rest)
    ]
  ]

module _ {S : Type 0} (protocol : Protocol S) (kind : Kind) (id : ℕ) where
  -- A completion of the stream is the next of its own.
  abbrev pub own_after : ℕ → Completion → List Completion → List Completion
  own_after j c cs = if j == id then cs ++ c ∷ [] else cs

  -- The states of the server from one of its states on, and the completions of the stream since, in their order, while other
  -- connections are accepted and operations of any stream complete.
  pub data Interleaves (first : Acceptor) (before : StreamManager S)
      : List Completion → Acceptor → StreamManager S → Type 0 where
    begins : Interleaves first before [] first before
    closes :
        {cs : List Completion} {a : Acceptor} {m : StreamManager S}
        → Interleaves first before cs a m
        → Interleaves first before cs (Acceptor.close a) m
    accepts :
        {cs : List Completion} {a b : Acceptor} {m n : StreamManager S} (failed : Bool)
        → Interleaves first before cs a m
        → accept_done (StreamManager.on_accept protocol.initial) kind failed a m ≡ ok (b, n)
        → Interleaves first before cs b n
    delivers :
        {cs : List Completion} {a : Acceptor} {m n : StreamManager S} {p q : Pair S}
        (c : Completion) (j : ℕ)
        → Interleaves first before cs a m
        → Table.find j m.sessions ≡ some p
        → take_off c p ≡ some q
        → deliver protocol c j (hold j q m) ≡ ok (tt, n)
        → Interleaves first before (own_after j c cs) a n

  module _ {first : Acceptor} {before : StreamManager S}
      (running : Runs protocol kind first before) where
    pub Interleaves-Runs :
        {cs : List Completion} {a : Acceptor} {m : StreamManager S}
        → Interleaves first before cs a m
        → Runs protocol kind a m
    Interleaves-Runs begins = running
    Interleaves-Runs (closes t) = closing (Interleaves-Runs t)
    Interleaves-Runs (accepts failed t done) = accepting failed (Interleaves-Runs t) done
    Interleaves-Runs (delivers c j t found taken done) =
        delivering c j (Interleaves-Runs t) found taken done

    -- What the manager holds under the identifier once the stream itself is answered.
    find-committed :
        (o : Outcome S) (q : Pair S) (m : StreamManager S)
        → Table.find id (commit id o (hold id q m)).sessions ≡ survivor (ok o)
    unfolding commit survivor
    find-committed (goes_on r) q m = find-hold_self id r (hold id q m)
    find-committed (ends r) q m = find-drop_self id r (hold id q m)

    module _ (p : Pair S) (found : Table.find id before.sessions ≡ some p) where
      Interleaves-both :
          {cs : List Completion} {a : Acceptor} {m : StreamManager S}
          → Interleaves first before cs a m
          → (id < a.stream_id) × (Table.find id m.sessions ≡ run protocol.react cs p)
      unfolding Acceptor.close run
      Interleaves-both begins =
          let (old, _) = Runs-Held protocol kind running id p found in (old, found)
      Interleaves-both (closes t) = Interleaves-both t
      Interleaves-both (accepts {cs} {a} {b} {m} {n} failed t done) =
          let (old, same) = Interleaves-both t in
          let (still_old, kept) =
            accept_done-Unchanged protocol kind id {a = a} {b = b} {m = m} {n = n} failed
              (Interleaves-Runs t) old done in
          (still_old, kept ∙ same)
      Interleaves-both (delivers {cs} {a} {m} {n} {p = s} {q} c j t at taken done) =
          let (old, same) = Interleaves-both t in
          let (o, answered, last) =
            delivered protocol kind id c j (Interleaves-Runs t) at taken done in
          (
            old,
            elim (Bool-cases (j == id)) [
              | inl e ↦
                  let own : j ≡ id = (==_iff j id).0 e in
                  let after : commit id o (hold id q m) ≡ n =
                    ap (λ i. commit i o (hold i q m)) (sym own) ∙ last in
                  let reached : run protocol.react cs p ≡ some s =
                    sym same ∙ ap (λ i. Table.find i m.sessions) (sym own) ∙ at in
                  rw e (
                    ap (λ k. Table.find id k.sessions) (sym after)
                    ∙ find-committed o q m
                    ∙ sym (run-snoc protocol.react cs c p s q o reached taken answered))
              | inr e ↦
                  let other : id ≢ j = ground (arith, e) in
                  rw e (
                    ap (λ k. Table.find id k.sessions) (sym last)
                    ∙ find-commit_ne id j o (hold j q m) other
                    ∙ find-hold_ne id j q m other
                    ∙ same)
            ],
          )

  -- In a running server of either protocol, from a state in which it holds a session, and while other connections are accepted
  -- and operations of other streams complete in any order: what it holds under the identifier is what the session's own
  -- completions, in their order, make of the session alone, and nothing once they end it.
  pub Interleaves-run :
      {first a : Acceptor} {before m : StreamManager S} {cs : List Completion} (p : Pair S)
      → Runs protocol kind first before
      → Table.find id before.sessions ≡ some p
      → Interleaves first before cs a m
      → Table.find id m.sessions ≡ run protocol.react cs p
  Interleaves-run p running found t = let (_, same) = Interleaves-both running p found t in same
