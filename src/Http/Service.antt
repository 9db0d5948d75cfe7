-- ===== src/Http/Service.antt =====
-- What a running HTTP server can fault by.
use amgi_net_tools.Base.{ℕ, ◌≡◌, some, fault, Fault}
use amgi_net_tools.Base.Table
use amgi_net_tools.Transport.ServerStream.{Kind}
use amgi_net_tools.Proxy.Store.{Pair, StreamManager}
use amgi_net_tools.Proxy.Local.{hold}
use amgi_net_tools.Proxy.Network.{Completion, take_off}
use amgi_net_tools.Proxy.Acceptor.{Acceptor}
use amgi_net_tools.Proxy.Deliver.{deliver, Runs}
use amgi_net_tools.Proxy.Service.{Runs-fault}
use amgi_net_tools.Http.State.{State}
use amgi_net_tools.Http.Discipline.{accepted}
use amgi_net_tools.Http.Safety.{OnlyLengthError, Reaches-OnlyLengthError}
use amgi_net_tools.Http.Protocol.{http}

-- In a running server, whatever was accepted and completed before, the completion of an operation of a held
-- session faults only by `std::length_error`, while that session waits for its request, and on a buffer just received.
-- No method is called on a session that was erased, no write buffer is overrun and no request read past its end.
pub Runs-OnlyLengthError :
    (kind : Kind) {a : Acceptor} {m : StreamManager State} {p q : Pair State} {x : Fault}
    (c : Completion) (id : ℕ)
    → Runs http kind a m
    → Table.find id m.sessions ≡ some p
    → take_off c p ≡ some q
    → deliver http c id (hold id q m) ≡ fault x
    → OnlyLengthError c p x
unfolding accepted
Runs-OnlyLengthError kind c id running at taken h =
    let (alone, failed) = Runs-fault http kind c id running at taken h in
    Reaches-OnlyLengthError kind id c alone taken failed
