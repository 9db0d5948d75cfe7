-- ===== src/Tunnel/Histories.antt =====
-- amgi_tunnel/server.hpp and amgi_tunnel/manager.hpp: what holds in any history of the server.
use amgi_net_tools.Base.{ℕ, ◌+◌, ◌%◌, ◌^◌, ◌≡◌, true, false, some, length}
use amgi_net_tools.Tunnel.Session.{Session}
use amgi_net_tools.Tunnel.Events.{Event}
use amgi_net_tools.Tunnel.Manager.{contains}
use amgi_net_tools.Tunnel.Server.{Server, make, accept_done, signalled, find, deliver}
use amgi_net_tools.Tunnel.Busy.{Busy}
use amgi_net_tools.Tunnel.Sound.{
  IsSound, make-IsSound, accepts-IsSound, refuses-IsSound, deliver-IsSound,
}

-- The servers that one goes through, and how many of its accepts failed.
pub data Runs : ℕ → Server → Type 0 where
  made : Runs 0 make
  accepts : {n : ℕ} {s : Server} → Runs n s → s.is_running ≡ true → Runs n (accept_done false s)
  refuses :
      {n : ℕ} {s : Server} → Runs n s → s.is_running ≡ true → Runs (n + 1) (accept_done true s)
  happens :
      {n : ℕ} {s t : Server} (i : ℕ) (e : Event)
      → Runs n s
      → s.is_running ≡ true
      → deliver i e s ≡ some t
      → Runs n t
  stops : {n : ℕ} {s : Server} → Runs n s → Runs n (signalled s)

Runs-IsSound : (n : ℕ) (s : Server) → Runs n s → IsSound n s
unfolding signalled
Runs-IsSound n s made = make-IsSound
Runs-IsSound n s (accepts {s = r} history running) = accepts-IsSound n r (Runs-IsSound n r history)
Runs-IsSound n s (refuses {n = m} {s = r} history running) =
    refuses-IsSound m r (Runs-IsSound m r history)
Runs-IsSound n s (happens {s = r} i e history running delivered) =
    deliver-IsSound n i e r s delivered (Runs-IsSound n r history)
Runs-IsSound n s (stops {s = r} history) =
    let sound = Runs-IsSound n r history in
    record { counted = sound.counted; traced = sound.traced; busy = sound.busy }

-- In any history of the server the counter of sessions is, modulo 2 ^ 64, the number of the started sessions that live less
-- the number of the accepts that failed.
pub Runs-scount :
    (n : ℕ) (s : Server) → Runs n s → (s.scount + n) % 2 ^ 64 ≡ length s.living % 2 ^ 64
Runs-scount n s history = (Runs-IsSound n s history).counted

-- In any history of the server a session that is in the manager lives, and in each of its directions one operation is
-- under way.
pub Runs-Busy :
    (n : ℕ) (s : Server) (i : ℕ)
    → Runs n s
    → contains i s.members ≡ true
    → (t : Session) × (find i s.living ≡ some t) × Busy t
Runs-Busy n s i history member = (Runs-IsSound n s history).busy i member
