-- ===== src/Proxy/Follows.antt =====
-- A stream that relays in a running server, among the others.
use mathlib.Core.Path.{subst}
use amgi_net_tools.Base.{
  ℕ, ◌<◌, ◌≡◌, ◌≢◌, sym, ap, ◌∙◌, Bool-cases, some, none, ok, inl, inr, arith, ◌==◌, ==_iff,
}
use amgi_net_tools.Base.Table
use amgi_net_tools.Base.Pipe.{Wire}
use amgi_net_tools.Transport.ServerStream.{Kind}
use amgi_net_tools.Proxy.Store.{Pair, StreamManager}
use amgi_net_tools.Proxy.Local.{hold, find-hold_self, find-hold_ne, find-drop_self}
use amgi_net_tools.Proxy.Events.{Outcome, goes_on, ends, commit}
use amgi_net_tools.Proxy.Network.{Completion, take_off, handle}
use amgi_net_tools.Proxy.Acceptor.{Acceptor, start_accept, accept_done}
use amgi_net_tools.Proxy.Acceptor
use amgi_net_tools.Proxy.Protocol.{Protocol}
use amgi_net_tools.Proxy.Isolation.{find-commit_ne}
use amgi_net_tools.Proxy.Carry.{Cut, observe, Relays, begun, passed, InOrder}
use amgi_net_tools.Proxy.Deliver.{Runs}
use amgi_net_tools.Proxy.Histories.{Runs-Held}
use amgi_net_tools.Proxy.Traffic.{
  Traffic, begins, closes, accepts, delivers, Traffic-Runs, delivered, accept_done-Unchanged,
}

module _ {S : Type 0} (protocol : Protocol S) (kind : Kind) (id : ℕ) where
  -- What a protocol that relays in order from the pair `start` on says: also with a completion that ends the session.
  module _ (start : Pair S)
      (in_order : (p : Pair S) (w : Wire) → Relays protocol.react start p w → InOrder w)
      (at_end : (k : Cut) (p q r : Pair S) (w : Wire) (c : Completion)
        → Relays protocol.react start p w
        → take_off c p ≡ some q
        → handle protocol.react c q ≡ ok (ends r)
        → InOrder (observe k c p w)) where
    -- The stream is held and relays, or it has ended.
    data Follows (m : StreamManager S) (w : Wire) : Type 0 where
      relaying :
          (p : Pair S)
          → Table.find id m.sessions ≡ some p
          → Relays protocol.react start p w
          → Follows m w
      over : Table.find id m.sessions ≡ none → InOrder w → Follows m w

    Follows-InOrder : (m : StreamManager S) (w : Wire) → Follows m w → InOrder w
    Follows-InOrder m w (relaying p found history) = in_order p w history
    Follows-InOrder m w (over absent ordered) = ordered

    Follows-Relays :
        (m : StreamManager S) (w : Wire) (p : Pair S)
        → Table.find id m.sessions ≡ some p
        → Follows m w
        → Relays protocol.react start p w
    Follows-Relays m w p at (relaying s found history) =
        let same : s ≡ p = cc (at, found) in
        subst (λ x. Relays protocol.react start x w) same history
    Follows-Relays m w p at (over absent ordered) = absurd (cc (at, absent))

    Follows-same :
        (m n : StreamManager S) (w : Wire)
        → Table.find id n.sessions ≡ Table.find id m.sessions
        → Follows m w
        → Follows n w
    Follows-same m n w same (relaying p found history) = relaying p (same ∙ found) history
    Follows-same m n w same (over absent ordered) = over (same ∙ absent) ordered

    -- A completion of another stream.
    Follows-other :
        (j : ℕ) (o : Outcome S) (q : Pair S) (m : StreamManager S) (w : Wire)
        → id ≢ j
        → Follows m w
        → Follows (commit j o (hold j q m)) w
    Follows-other j o q m w other =
        Follows-same m (commit j o (hold j q m)) w
          (find-commit_ne id j o (hold j q m) other ∙ find-hold_ne id j q m other)

    -- A completion of the stream itself.
    Follows-own :
        (k : Cut) (c : Completion) (o : Outcome S) (p q : Pair S) (m : StreamManager S) (w : Wire)
        → Table.find id m.sessions ≡ some p
        → take_off c p ≡ some q
        → handle protocol.react c q ≡ ok o
        → Follows m w
        → Follows (commit id o (hold id q m)) (observe k c p w)
    unfolding commit
    Follows-own k c (goes_on r) p q m w at taken answered (relaying s found history) =
        let same : s ≡ p = cc (at, found) in
        relaying r (find-hold_self id r (hold id q m))
          (passed k c (subst (λ x. Relays protocol.react start x w) same history) taken answered)
    Follows-own k c (ends r) p q m w at taken answered (relaying s found history) =
        let same : s ≡ p = cc (at, found) in
        over (find-drop_self id r (hold id q m)) (
          at_end k p q r w c (subst (λ x. Relays protocol.react start x w) same history) taken
            answered)
    Follows-own k c o p q m w at taken answered (over absent ordered) = absurd (cc (at, absent))

    module _ {first : Acceptor} {before : StreamManager S}
        (running : Runs protocol kind first before)
        (found : Table.find id before.sessions ≡ some start) where
      Traffic-Follows :
          {a : Acceptor} {m : StreamManager S} {w : Wire}
          → Traffic protocol kind id first before a m w
          → (id < a.stream_id) × Follows m w
      unfolding Acceptor.close
      Traffic-Follows begins =
          let (old, _) = Runs-Held protocol kind running id start found in
          (old, relaying start found begun)
      Traffic-Follows (closes t) = Traffic-Follows t
      Traffic-Follows (accepts {a} {b} {m} {n} {w} failed t done) =
          let (old, follows) = Traffic-Follows t in
          let (still_old, same) =
            accept_done-Unchanged protocol kind id {a = a} {b = b} {m = m} {n = n} failed
              (Traffic-Runs protocol kind id running t) old done in
          (still_old, Follows-same m n w same follows)
      Traffic-Follows (delivers {a} {m} {n} {p} {q} {w} k c j t at taken done) =
          let (old, follows) = Traffic-Follows t in
          let (o, answered, last) =
            delivered protocol kind id c j (Traffic-Runs protocol kind id running t) at taken
              done in
          (
            old,
            elim (Bool-cases (j == id)) [
              | inl e ↦
                  let same : j ≡ id = (==_iff j id).0 e in
                  let after : commit id o (hold id q m) ≡ n =
                    ap (λ i. commit i o (hold i q m)) (sym same) ∙ last in
                  subst (λ v. Follows n v) (rw e)
                    (subst (λ l. Follows l (observe k c p w)) after
                      (Follows-own k c o p q m w (ap (λ i. Table.find i m.sessions) (sym same) ∙ at)
                        taken answered follows))
              | inr e ↦
                  let other : id ≢ j = ground (arith, e) in
                  subst (λ v. Follows n v) (rw e)
                    (subst (λ l. Follows l w) last (Follows-other j o q m w other follows))
            ],
          )

      -- What leaves on the connections of a stream, while the server runs.
      pub Traffic-InOrder :
          {a : Acceptor} {m : StreamManager S} {w : Wire}
          → Traffic protocol kind id first before a m w
          → InOrder w
      Traffic-InOrder {m} {w} t =
          let (_, follows) = Traffic-Follows t in Follows-InOrder m w follows

      -- A session that is still held has gone through its own completions alone.
      pub Traffic-Relays :
          {a : Acceptor} {m : StreamManager S} {w : Wire} {p : Pair S}
          → Traffic protocol kind id first before a m w
          → Table.find id m.sessions ≡ some p
          → Relays protocol.react start p w
      Traffic-Relays {m} {w} {p} t at =
          let (_, follows) = Traffic-Follows t in Follows-Relays m w p at follows
