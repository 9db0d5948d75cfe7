-- ===== src/Proxy/Run.antt =====
-- A session under a given sequence of completions.
use amgi_net_tools.Base.{
  ◌+◌, refl, ◌∙◌, ◌≡◌, List, [], ◌∷◌, Option, none, some, Result, ok, fault, arith,
}
use amgi_net_tools.Transport.ClientStream
use amgi_net_tools.Transport.ServerStream.{Kind, tcp, tls}
use amgi_net_tools.Proxy.Store.{Pair}
use amgi_net_tools.Proxy.Events.{Event, Outcome, goes_on, ends}
use amgi_net_tools.Proxy.Network.{Completion, server_handshaken, client_resolved, take_off, handle}

-- What has to complete before the first packet is read.
abbrev pub opening : Kind → List Completion
opening tcp = []
opening tls = server_handshaken ∷ []

module _ {S : Type 0} where
  -- The pair of a session that goes on.
  unfoldable pub survivor : Result (Outcome S) → Option (Pair S)
  survivor (ok (goes_on r)) = some r
  survivor (ok (ends p)) = none
  survivor (fault x) = none

  module _ (react : Event → Pair S → Result (Outcome S)) where
    -- The pair after the completions, `none` where one cannot come or the session does not survive it.
    unfoldable pub run : List Completion → Pair S → Option (Pair S)
    unfolding survivor
    run [] p = some p
    run (c ∷ cs) p = elim (take_off c p) [
      | none ↦ none
      | some q ↦ elim (survivor (handle react c q)) [ none ↦ none | some r ↦ run cs r ]
    ]

    pub run-next :
        (c : Completion) (cs : List Completion) (p q r : Pair S)
        → take_off c p ≡ some q
        → handle react c q ≡ ok (goes_on r)
        → run (c ∷ cs) p ≡ run cs r
    unfolding run survivor
    run-next c cs p q r taken answered = ground (arith, taken, answered)

    -- A completion that can come and is answered.
    abbrev pub Answers : Completion → Pair S → Pair S → Type 0
    Answers c p r = (q : Pair S) × (take_off c p ≡ some q) × (handle react c q ≡ ok (goes_on r))

    pub Answers-run :
        (p r s : Pair S) (c : Completion) (cs : List Completion)
        → Answers c p r
        → run cs r ≡ some s
        → run (c ∷ cs) p ≡ some s
    Answers-run p r s c cs (q, taken, answered) rest = run-next c cs p q r taken answered ∙ rest

    pub host_resolved :
        (p : Pair S)
        → p.client.resolves ≡ 1
        → (r : Pair S) × Answers client_resolved p r
          × (r.session ≡ p.session)
          × (r.client.connects ≡ p.client.connects + 1)
          × (r.client.host ≡ p.client.host)
          × (r.client.port ≡ p.client.port)
    unfolding take_off handle ClientStream.do_connect
    host_resolved p resolving =
        let q : Pair S = record p { client = record p.client { resolves = 0 } } in
        let r : Pair S = record q { client = ClientStream.do_connect q.client } in
        (r, (q, ground (arith, resolving), refl), refl, ground arith, refl, refl)
