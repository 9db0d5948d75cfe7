-- ===== src/Proxy/Service.antt =====
-- What a completion in a running server says of its session alone.
use mathlib.Core.Path.{subst}
use amgi_net_tools.Base.{ℕ, ◌≡◌, sym, ap, ◌∙◌, some, ok, fault, Fault, Result, ◌>>=◌ as bind}
use amgi_net_tools.Base.Table
use amgi_net_tools.Transport.ServerStream
use amgi_net_tools.Transport.ServerStream.{Kind}
use amgi_net_tools.Proxy.Store.{Pair, StreamManager}
use amgi_net_tools.Proxy.Local.{hold, find-hold_self}
use amgi_net_tools.Proxy.Events.{commit}
use amgi_net_tools.Proxy.Network.{Completion, take_off, handle, Reaches}
use amgi_net_tools.Proxy.Acceptor.{Acceptor}
use amgi_net_tools.Proxy.Protocol.{Protocol}
use amgi_net_tools.Proxy.Deliver.{deliver, deliver-handle, Runs}
use amgi_net_tools.Proxy.Histories.{accepted, take_off-session, Reaches-keeps_id, Runs-Held}

bind-fault :
    {A B : Type 0} (r : Result A) (f : A → B) {x : Fault}
    → bind r (λ a. ok (f a)) ≡ fault x
    → r ≡ fault x
bind-fault (ok a) f h = cc
bind-fault (fault e) f h = cc

module _ {S : Type 0} (protocol : Protocol S) where
  deliver-fault :
      (c : Completion) (q : Pair S) (m : StreamManager S) {x : Fault}
      → deliver protocol c q.session.context.id (hold q.session.context.id q m) ≡ fault x
      → handle protocol.react c q ≡ fault x
  deliver-fault c q m h =
      let k = q.session.context.id in
      bind-fault (handle protocol.react c q) (λ o. (tt, commit k o (hold k q m)))
        (sym (deliver-handle protocol q (hold k q m) c (find-hold_self k q m)) ∙ h)

  -- A fault in a running server is a fault of a session that runs alone.
  pub Runs-fault :
      (kind : Kind) {a : Acceptor} {m : StreamManager S} {p q : Pair S} {x : Fault} (c : Completion)
      (id : ℕ)
      → Runs protocol kind a m
      → Table.find id m.sessions ≡ some p
      → take_off c p ≡ some q
      → deliver protocol c id (hold id q m) ≡ fault x
      → Reaches protocol.react (accepted protocol (ServerStream.make kind id)) p
        × (handle protocol.react c q ≡ fault x)
  Runs-fault kind {a} {m} {p} {q} {x} c id running at taken h =
      let (_, alone) = Runs-Held protocol kind running id p at in
      let same : id ≡ q.session.context.id = sym (
        ap (λ s. s.context.id) (take_off-session c p taken)
        ∙ Reaches-keeps_id protocol kind id alone) in
      (alone, deliver-fault c q m (subst (λ i. deliver protocol c i (hold i q m) ≡ fault x) same h))
