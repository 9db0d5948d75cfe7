-- ===== src/Tunnel/Order.antt =====
-- amgi_tunnel/session.hpp: the order of the operations of a session, before the TLS handshake with the remote side is
-- done and after it.
use amgi_net_tools.Base.{◌+◌, ◌≤◌, ◌≡◌, refl, ◌⊎◌, inl, inr, [], some, arith}
use amgi_net_tools.Tunnel.Session.{
  Session, create, start, close, do_connect, do_read_from_local, do_read_from_remote, handshake,
  do_resolve,
}
use amgi_net_tools.Tunnel.Events.{
  resolve, connect, shake, Event, resolved, connected, handshaken, failed, shut_down, take_off,
  handle, written, settle, done,
}
use amgi_net_tools.Base.Pipe.{awaiting}
use amgi_net_tools.Tunnel.Relay.{observe, Relays, accepted, completed}
use amgi_net_tools.Base.Pipe.{Wire, silence}
use amgi_net_tools.Tunnel.Completion.{if-either}
use amgi_net_tools.Tunnel.Relaying.{IsRelaying}
use amgi_net_tools.Tunnel.Step.{IsRelaying-step}

-- Before the handshake is done nothing has passed.
pub record IsOpening (s : Session) (w : Wire) : Type 0 where
  pub one_step : s.resolves + s.connects + s.handshakes ≤ 1
  pub no_local_read : s.local_reads ≡ 0
  pub no_remote_read : s.remote_reads ≡ 0
  pub no_remote_write : s.remote_writes ≡ []
  pub no_local_write : s.local_writes ≡ []
  pub silent : w ≡ silence

abbrev pub IsOrderly : Session → Wire → Type 0
IsOrderly s w = IsOpening s w ⊎ IsRelaying s w

close-IsOpening : (s : Session) (w : Wire) → IsOpening s w → IsOpening (close s) w
unfolding close
close-IsOpening s w o =
    if-either (λ u. IsOpening u w) s.remote_is_open (ground arith) (ground arith)

module _ (s t : Session) (w : Wire) (o : IsOpening s w) where
  IsOpening-step :
      (e : Event)
      → take_off e s ≡ some t
      → IsOpening (settle (handle e (written e s) t)) (observe e (written e s) t w)
        ⊎ IsRelaying (settle (handle e (written e s) t)) (observe e (written e s) t w)
  unfolding take_off done handle settle do_connect handshake do_read_from_local do_read_from_remote
  IsOpening-step resolved taken = inl (ground arith)
  IsOpening-step connected taken = inl (ground arith)
  IsOpening-step handshaken taken = inr (record {
    no_step = ground arith;
    outwards = awaiting (ground arith) (ground arith) (ground arith);
    inwards = awaiting (ground arith) (ground arith) (ground arith);
  })
  IsOpening-step shut_down taken = inl (ground arith)
  IsOpening-step (failed resolve) taken = inl (close-IsOpening t w (ground arith))
  IsOpening-step (failed connect) taken = inl (close-IsOpening t w (ground arith))
  IsOpening-step (failed shake) taken = inl (close-IsOpening t w (ground arith))
  IsOpening-step (failed _) taken = absurd (ground arith)
  IsOpening-step _ taken = absurd (ground arith)

pub Relays-IsOrderly : {s : Session} {w : Wire} → Relays s w → IsOrderly s w
unfolding start create do_resolve
Relays-IsOrderly accepted = inl (record {
  one_step = omega arith;
  no_local_read = refl;
  no_remote_read = refl;
  no_remote_write = refl;
  no_local_write = refl;
  silent = refl;
})
Relays-IsOrderly (completed {s} {t} {w} e earlier taken) = elim (Relays-IsOrderly earlier) [
  | inl o ↦ IsOpening-step s t w o e taken
  | inr r ↦ inr (IsRelaying-step s t w r e taken)
]
