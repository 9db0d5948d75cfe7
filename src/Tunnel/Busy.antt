-- ===== src/Tunnel/Busy.antt =====
-- amgi_tunnel/session.hpp: a session that has not left its manager goes on.
use amgi_net_tools.Base.{◌+◌, ◌≡◌, refl, false, [], ◌∷◌, some, length, length-append, arith}
use amgi_net_tools.Tunnel.Session.{
  Session, start, create, do_resolve, do_connect, handshake, do_read_from_local,
  do_read_from_remote, do_write_to_remote, do_write_to_local,
}
use amgi_net_tools.Tunnel.Events.{
  Event, resolved, connected, handshaken, local_received, remote_received, remote_sent, local_sent,
  remote_cut, local_cut, failed, shut_down, take_off, done, handle, written,
}
use amgi_net_tools.Base.Pipe.{first_or}

-- In each direction one operation is under way: a step of the opening, a read or a write.
abbrev pub Busy : Session → Type 0
Busy s =
    (s.resolves + s.connects + s.handshakes + s.local_reads + length s.remote_writes ≡ 1)
    × (s.resolves + s.connects + s.handshakes + s.remote_reads + length s.local_writes ≡ 1)

pub start-Busy : Busy (start create)
unfolding start create do_resolve
start-Busy = (refl, refl)

pub handle-Busy :
    (e : Event) (s t : Session)
    → Busy s
    → take_off e s ≡ some t
    → (handle e (written e s) t).1 ≡ false
    → Busy (handle e (written e s) t).0
unfolding take_off done handle do_connect handshake do_read_from_local do_read_from_remote
    do_write_to_remote do_write_to_local written first_or
handle-Busy resolved s t busy taken stays = ground arith
handle-Busy connected s t busy taken stays = ground arith
handle-Busy handshaken s t busy taken stays = ground arith
handle-Busy (local_received []) s t busy taken stays = absurd (ground arith)
handle-Busy (local_received (b ∷ bs)) s t busy taken stays =
    let longer = length-append t.remote_writes (length (b ∷ bs) ∷ []) in ground (arith, longer)
handle-Busy (remote_received []) s t busy taken stays = absurd (ground arith)
handle-Busy (remote_received (b ∷ bs)) s t busy taken stays =
    let longer = length-append t.local_writes (length (b ∷ bs) ∷ []) in ground (arith, longer)
handle-Busy remote_sent s t busy taken stays = ground arith
handle-Busy local_sent s t busy taken stays = ground arith
handle-Busy (failed op) s t busy taken stays = absurd (ground arith)
handle-Busy (remote_cut k) s t busy taken stays = absurd (ground arith)
handle-Busy (local_cut k) s t busy taken stays = absurd (ground arith)
handle-Busy shut_down s t busy taken stays = ground arith
