-- ===== src/Socks5/Service.antt =====
-- What a running SOCKS5 server can fault by.
use amgi_net_tools.Base.{ℕ, ◌≡◌, some, fault, Fault}
use amgi_net_tools.Base.Table
use amgi_net_tools.Transport.ServerStream.{Kind}
use amgi_net_tools.Proxy.Errors.{NetErrors}
use amgi_net_tools.Proxy.Store.{Pair, StreamManager}
use amgi_net_tools.Proxy.Local.{hold}
use amgi_net_tools.Proxy.Network.{Completion, take_off}
use amgi_net_tools.Proxy.Acceptor.{Acceptor}
use amgi_net_tools.Proxy.Deliver.{deliver, Runs}
use amgi_net_tools.Proxy.Service.{Runs-fault}
use amgi_net_tools.Socks5.Packet.{Inet}
use amgi_net_tools.Socks5.State.{State}
use amgi_net_tools.Socks5.Discipline.{accepted}
use amgi_net_tools.Socks5.Safety.{OnlyOverRead, Reaches-OnlyOverRead}
use amgi_net_tools.Socks5.Protocol.{socks5}

module _ (inet : Inet) (errors : NetErrors) where
  -- In a running server, whatever was accepted and completed before, the completion of an operation of a held
  -- session faults only by a read past the end of a packet, while that session waits for its connection request, and
  -- on a packet just received. No method is called on a session that was erased, no write buffer is overrun and
  -- no exception is thrown.
  pub Runs-OnlyOverRead :
      (kind : Kind) {a : Acceptor} {m : StreamManager State} {p q : Pair State} {x : Fault}
      (c : Completion) (id : ℕ)
      → Runs (socks5 inet errors) kind a m
      → Table.find id m.sessions ≡ some p
      → take_off c p ≡ some q
      → deliver (socks5 inet errors) c id (hold id q m) ≡ fault x
      → OnlyOverRead c p x
  unfolding accepted
  Runs-OnlyOverRead kind c id running at taken h =
      let (alone, failed) = Runs-fault (socks5 inet errors) kind c id running at taken h in
      Reaches-OnlyOverRead inet errors kind id c alone taken failed
