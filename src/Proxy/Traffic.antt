-- ===== src/Proxy/Traffic.antt =====
-- A running server, and the bytes on the connections of one of its streams.
use mathlib.Core.Path.{subst}
use amgi_net_tools.Base.{
  ℕ, ◌<◌, ◌≡◌, ◌≢◌, refl, sym, ap, ◌∙◌, Bool, Bool-cases, some, ok, >>=-eq-ok, inl, inr, arith,
  ◌==◌, Result, if◌then◌else◌,
}
use amgi_net_tools.Base.Table
use amgi_net_tools.Base.Pipe.{Wire, silence}
use amgi_net_tools.Transport.ServerStream
use amgi_net_tools.Transport.ServerStream.{Kind}
use amgi_net_tools.Proxy.Store.{Pair, StreamManager}
use amgi_net_tools.Proxy.StreamManager
use amgi_net_tools.Proxy.Local.{hold, find-hold_self, find-hold_ne}
use amgi_net_tools.Proxy.Events.{Outcome, commit}
use amgi_net_tools.Proxy.Network.{Completion, take_off, handle}
use amgi_net_tools.Proxy.Acceptor.{Acceptor, start_accept, accept_done}
use amgi_net_tools.Proxy.Acceptor
use amgi_net_tools.Proxy.Protocol.{Protocol}
use amgi_net_tools.Proxy.Carry.{Cut, observe}
use amgi_net_tools.Proxy.Deliver.{deliver, deliver-handle, Runs, closing, accepting, delivering}
use amgi_net_tools.Proxy.Histories.{
  accepted, take_off-session, Reaches-keeps_id, Runs-Held, on_accept-fresh, fresh,
}

module _ {S : Type 0} (protocol : Protocol S) (kind : Kind) (id : ℕ) where
  -- What a completion for the stream `j` adds to the bytes on the connections of the stream `id`.
  abbrev pub observe_at : ℕ → Cut → Completion → Pair S → Wire → Wire
  observe_at j k c p w = if j == id then observe k c p w else w

  -- The states of the server from one of its states on, and the bytes that have passed on the connections of the stream
  -- since, while other connections are accepted and operations of any stream complete.
  pub data Traffic (first : Acceptor) (before : StreamManager S)
      : Acceptor → StreamManager S → Wire → Type 0 where
    begins : Traffic first before first before silence
    closes :
        {a : Acceptor} {m : StreamManager S} {w : Wire}
        → Traffic first before a m w
        → Traffic first before (Acceptor.close a) m w
    accepts :
        {a b : Acceptor} {m n : StreamManager S} {w : Wire} (failed : Bool)
        → Traffic first before a m w
        → accept_done (StreamManager.on_accept protocol.initial) kind failed a m ≡ ok (b, n)
        → Traffic first before b n w
    delivers :
        {a : Acceptor} {m n : StreamManager S} {p q : Pair S} {w : Wire} (k : Cut) (c : Completion)
        (j : ℕ)
        → Traffic first before a m w
        → Table.find j m.sessions ≡ some p
        → take_off c p ≡ some q
        → deliver protocol c j (hold j q m) ≡ ok (tt, n)
        → Traffic first before a n (observe_at j k c p w)

  module _ {first : Acceptor} {before : StreamManager S}
      (started : Runs protocol kind first before) where
    pub Traffic-Runs :
        {a : Acceptor} {m : StreamManager S} {w : Wire}
        → Traffic first before a m w
        → Runs protocol kind a m
    Traffic-Runs begins = started
    Traffic-Runs (closes t) = closing (Traffic-Runs t)
    Traffic-Runs (accepts failed t done) = accepting failed (Traffic-Runs t) done
    Traffic-Runs (delivers k c j t found taken done) =
        delivering c j (Traffic-Runs t) found taken done

  -- A completion for a stream of a running server is handled as its session does it alone.
  pub delivered :
      {a : Acceptor} {m n : StreamManager S} {p q : Pair S} (c : Completion) (j : ℕ)
      → Runs protocol kind a m
      → Table.find j m.sessions ≡ some p
      → take_off c p ≡ some q
      → deliver protocol c j (hold j q m) ≡ ok (tt, n)
      → (o : Outcome S) × (handle protocol.react c q ≡ ok o) × (commit j o (hold j q m) ≡ n)
  delivered {m} {n} {p} {q} c j running at taken done =
      let (_, alone) = Runs-Held protocol kind running j p at in
      let same : q.session.context.id ≡ j =
        ap (λ s. s.context.id) (take_off-session c p taken)
        ∙ Reaches-keeps_id protocol kind j alone in
      let k = q.session.context.id in
      let held : Table.find k (hold j q m).sessions ≡ some q =
        ap (λ i. Table.find i (hold j q m).sessions) same ∙ find-hold_self j q m in
      let (o, answered, last) = >>=-eq-ok (handle protocol.react c q) _ (
        sym (deliver-handle protocol q (hold j q m) c held)
        ∙ ap (λ i. deliver protocol c i (hold j q m)) same
        ∙ done) in
      (o, answered, ap (λ i. commit i o (hold j q m)) (sym same) ∙ cc last)

  -- The stream stays as it is in `m`, and its identifier is not given again.
  abbrev pub Unchanged : StreamManager S → Acceptor × StreamManager S → Type 0
  Unchanged m r = (id < r.0.stream_id) × (Table.find id r.1.sessions ≡ Table.find id m.sessions)

  Unchanged-answer :
      (m : StreamManager S) (r s : Acceptor × StreamManager S)
      → ◌≡◌ {A = Result (Acceptor × StreamManager S)} (ok r) (ok s)
      → Unchanged m r
      → Unchanged m s
  Unchanged-answer m r s h u = let same : r ≡ s = cc h in subst (Unchanged m) same u

  module _ {a b : Acceptor} {m n : StreamManager S} where
    -- An accept changes no older stream, and puts none in.
    pub accept_done-Unchanged :
        (failed : Bool)
        → Runs protocol kind a m
        → id < a.stream_id
        → accept_done (StreamManager.on_accept protocol.initial) kind failed a m ≡ ok (b, n)
        → Unchanged m (b, n)
    unfolding accept_done start_accept
    accept_done-Unchanged failed running old done = elim (Bool-cases a.is_open) [
      | inl opened ↦ elim (Bool-cases failed) [
        | inl failure ↦
            Unchanged-answer m (start_accept a, m) (b, n) (rw (opened, failure) at done)
              (omega (arith, old), refl)
        | inr success ↦
            let held = Runs-Held protocol kind running in
            let own = accepted protocol (ServerStream.make kind a.stream_id) in
            let other : id ≢ a.stream_id = ground (arith, old) in
            Unchanged-answer m (start_accept a, hold a.stream_id own m) (b, n)
              (rw
                (opened, success, on_accept-fresh protocol kind a m (fresh protocol kind a m held))
                at done)
              (omega (arith, old), find-hold_ne id a.stream_id own m other)
      ]
      | inr shut ↦ Unchanged-answer m (a, m) (b, n) (ground (arith, shut, done)) (old, refl)
    ]
