-- ===== src/Tests/Interleaving.antt =====
-- A session that is run alone, in a server.
use mathlib.Core.Path.{subst}
use mathlib.Core.List.{append-nil, append_assoc}
use amgi_net_tools.Base.{
  ℕ, ◌≡◌, sym, ap, ◌∙◌, List, [], ◌∷◌, ◌++◌, some, ok, fault, Result, Option-cases, inl, inr,
  ==_refl, arith,
}
use amgi_net_tools.Base.Table
use amgi_net_tools.Transport.ServerStream.{tls}
use amgi_net_tools.Proxy.Store.{Pair, StreamManager}
use amgi_net_tools.Proxy.Local.{hold, find-hold_self}
use amgi_net_tools.Proxy.Events.{Outcome, goes_on, ends}
use amgi_net_tools.Proxy.Network.{Completion, take_off, handle}
use amgi_net_tools.Proxy.Acceptor.{Acceptor}
use amgi_net_tools.Proxy.Protocol.{Protocol}
use amgi_net_tools.Proxy.Deliver.{Runs}
use amgi_net_tools.Proxy.Histories.{take_off-session, Reaches-keeps_id, Runs-Held}
use amgi_net_tools.Proxy.Run.{run, survivor}
use amgi_net_tools.Proxy.Interleaving.{Interleaves, begins, delivers, own_after, Interleaves-Runs}
use amgi_net_tools.Tests.Running.{delivered_on}

survives :
    {S : Type 0} (answer : Result (Outcome S)) {r : Pair S}
    → survivor answer ≡ some r
    → answer ≡ ok (goes_on r)
unfolding survivor
survives (ok (goes_on s)) h = ground (arith, h)
survives (ok (ends s)) h = absurd (ground (arith, h))
survives (fault x) h = absurd (ground (arith, h))

module _ {S : Type 0} (protocol : Protocol S) (id : ℕ) {first : Acceptor} {before : StreamManager S}
    (running : Runs protocol tls first before) where
  -- A history with more completions of the stream.
  abbrev Longer : List Completion → Type 0
  Longer cs = (n : StreamManager S) × Interleaves protocol tls id first before cs first n

  own : (c : Completion) (cs : List Completion) → own_after protocol tls id id c cs ≡ cs ++ c ∷ []
  own c cs = rw (==_refl id)

  run-Longer :
      (ds cs : List Completion) (p r : Pair S) (m : StreamManager S)
      → Interleaves protocol tls id first before cs first m
      → Table.find id m.sessions ≡ some p
      → run protocol.react ds p ≡ some r
      → Longer (cs ++ ds)
  unfolding run
  run-Longer [] cs p r m history found ran = (
    m,
    subst (λ l. Interleaves protocol tls id first before l first m) (sym (append-nil cs)) history,
  )
  run-Longer (d ∷ ds) cs p r m history found ran = elim (Option-cases (take_off d p)) [
    | inl impossible ↦ absurd (ground (arith, impossible, ran))
    | inr (q, taken) ↦ elim (Option-cases (survivor (handle protocol.react d q))) [
      | inl over ↦ absurd (ground (arith, taken, over, ran))
      | inr (u, on) ↦
          let (_, alone) =
            Runs-Held protocol tls (Interleaves-Runs protocol tls id running history) id p found in
          let same : q.session.context.id ≡ id =
            ap (λ s. s.context.id) (take_off-session d p taken)
            ∙ Reaches-keeps_id protocol tls id alone in
          let n = hold id u (hold id q m) in
          let done =
            delivered_on protocol id q u d m same (survives (handle protocol.react d q) on) in
          let longer = delivers d id history found taken done in
          let next : Interleaves protocol tls id first before (cs ++ d ∷ []) first n =
            subst (λ l. Interleaves protocol tls id first before l first n) (own d cs) longer in
          let rest =
            run-Longer ds (cs ++ d ∷ []) u r n next (find-hold_self id u (hold id q m))
              (ground (arith, taken, on, ran)) in
          subst Longer (append_assoc cs (d ∷ []) ds) rest
    ]
  ]

  pub run-Interleaves :
      (ds : List Completion) (p r : Pair S)
      → Table.find id before.sessions ≡ some p
      → run protocol.react ds p ≡ some r
      → (n : StreamManager S) × Interleaves protocol tls id first before ds first n
  run-Interleaves ds p r found ran = run-Longer ds [] p r before begins found ran
