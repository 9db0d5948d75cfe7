-- ===== src/Tests/Running.antt =====
-- A server that goes on.
use amgi_net_tools.Base.{ℕ, ◌≡◌, sym, ap, ◌∙◌, some, ok, true, ◌>>=◌ as bind}
use amgi_net_tools.Base.Table
use amgi_net_tools.Transport.ServerStream
use amgi_net_tools.Transport.ServerStream.{tls}
use amgi_net_tools.Proxy.Store.{Pair, StreamManager}
use amgi_net_tools.Proxy.Local.{hold, find-hold_self}
use amgi_net_tools.Proxy.Events.{goes_on, commit}
use amgi_net_tools.Proxy.Network.{Completion, take_off, handle, Reaches, here, next}
use amgi_net_tools.Proxy.Acceptor.{Acceptor}
use amgi_net_tools.Proxy.Protocol.{Protocol}
use amgi_net_tools.Proxy.Histories.{accepted, take_off-session, Reaches-keeps_id}
use amgi_net_tools.Proxy.Deliver.{deliver, deliver-handle, Runs, delivering}

-- The accept loop after one connection.
abbrev pub loop : Acceptor
loop = record { stream_id = 2; is_open = true }

pub step :
    {S : Type 0} (protocol : Protocol S) {m : StreamManager S} {p q r : Pair S} (c : Completion)
    → Runs protocol tls loop m
    → Table.find q.session.context.id m.sessions ≡ some p
    → take_off c p ≡ some q
    → handle protocol.react c q ≡ ok (goes_on r)
    → Runs protocol tls loop (hold q.session.context.id r (hold q.session.context.id q m))
unfolding commit
step protocol {m} {p} {q} {r} c running at taken done =
    let k = q.session.context.id in
    delivering c k running at taken (
      deliver-handle protocol q (hold k q m) c (find-hold_self k q m)
      ∙ ap (λ x. bind x (λ o. ok (tt, commit k o (hold k q m)))) done)

module _ {S : Type 0} (protocol : Protocol S) (id : ℕ) where
  -- A completion of a session that goes on, in a server.
  pub delivered_on :
      (q r : Pair S) (c : Completion) (m : StreamManager S)
      → q.session.context.id ≡ id
      → handle protocol.react c q ≡ ok (goes_on r)
      → deliver protocol c id (hold id q m) ≡ ok (tt, hold id r (hold id q m))
  unfolding commit
  delivered_on q r c m same done =
      let k = q.session.context.id in
      ap (λ i. deliver protocol c i (hold i q m)) (sym same)
      ∙ deliver-handle protocol q (hold k q m) c (find-hold_self k q m)
      ∙ ap (λ x. bind x (λ o. ok (tt, commit k o (hold k q m)))) done
      ∙ ap (λ i. ok (tt, hold i r (hold i q m))) same

  -- A server in which the session is held.
  abbrev pub Holds : Acceptor → Pair S → Type 0
  Holds a p = (m : StreamManager S) × Runs protocol tls a m × (Table.find id m.sessions ≡ some p)

  -- What a session goes through alone, it goes through in a server that holds it.
  pub Reaches-Holds :
      {a : Acceptor} {p : Pair S}
      → Holds a (accepted protocol (ServerStream.make tls id))
      → Reaches protocol.react (accepted protocol (ServerStream.make tls id)) p
      → Holds a p
  Reaches-Holds start here = start
  Reaches-Holds start (next {p} {q} {r} c alone taken done) =
      let (m, running, found) = Reaches-Holds start alone in
      let same : q.session.context.id ≡ id =
        ap (λ s. s.context.id) (take_off-session c p taken)
        ∙ Reaches-keeps_id protocol tls id alone in
      (
        hold id r (hold id q m),
        delivering c id running found taken (delivered_on q r c m same done),
        find-hold_self id r (hold id q m),
      )
