-- ===== src/Tunnel/Ended.antt =====
-- amgi_tunnel/server.hpp: a session that has left the manager has less to do after a completion that ends it.
use mathlib.Core.Path.{subst}
use amgi_net_tools.Base.{
  ℕ, ◌≤◌, ◌<◌, ◌≡◌, ◌⊎◌, inl, inr, Bool, true, false, some, none, ◌==◌, Option-cases, Bool-cases,
  if◌then◌else◌, arith,
}
use amgi_net_tools.Tunnel.Session.{Session}
use amgi_net_tools.Tunnel.Events.{Event, take_off, handle, written, settle}
use amgi_net_tools.Tunnel.Manager.{leave, contains, contains-leave_self}
use amgi_net_tools.Tunnel.Server.{Server, destroyed, find, put, under_way, release, answer, deliver}
use amgi_net_tools.Tunnel.Sessions.{find-put_self}
use amgi_net_tools.Tunnel.Ending.{is_ending, weight, ending-weight}
use amgi_net_tools.Tunnel.Alive.{IsAlive, occurs, occurs-put, find-remove_self}

-- The session is destroyed, or a session of less weight is left.
pub record Ended (i bound : ℕ) (s : Server) : Type 0 where
  pub outside : contains i s.members ≡ false
  pub some_weight : 0 < bound
  pub left :
      (find i s.living ≡ none) ⊎ (t : Session) × (find i s.living ≡ some t) × (weight t < bound)

release-Ended :
    (i bound : ℕ) (t : Session) (s : Server)
    → occurs i s.living ≤ 1
    → contains i s.members ≡ false
    → find i s.living ≡ some t
    → weight t < bound
    → Ended i bound (release i t s)
unfolding release destroyed
release-Ended i bound t s once outside found less = elim (Bool-cases (under_way t == 0)) [
  | inl idle ↦
      rw (outside, idle)
        (record {
          outside = outside;
          some_weight = omega (arith, less);
          left = inl (find-remove_self i s.living once);
        })
  | inr busy ↦
      rw (outside, busy)
        (record {
          outside = outside;
          some_weight = omega (arith, less);
          left = inr (t, found, less);
        })
]

answer-Ended :
    (i bound : ℕ) (u : Session) (leaves : Bool) (s : Server) {t : Session}
    → IsAlive s
    → contains i s.members ≡ false
    → find i s.living ≡ some t
    → weight (settle (u, leaves)) < bound
    → Ended i bound (answer i (u, leaves) s)
unfolding answer
answer-Ended i bound u leaves s alive outside found less =
    let after = settle (u, leaves) in
    release-Ended i bound after
      (record s {
        members = if leaves then leave i s.members else s.members;
        living = put i after s.living;
      })
      (omega (arith, alive.once i, occurs-put i i after s.living))
      (ground (arith, outside, contains-leave_self i s.members))
      (find-put_self i after s.living found) less

pub deliver-Ended :
    (i : ℕ) (e : Event) (s t : Server) {u : Session}
    → IsAlive s
    → contains i s.members ≡ false
    → find i s.living ≡ some u
    → is_ending e ≡ true
    → deliver i e s ≡ some t
    → Ended i (weight u) t
unfolding deliver
deliver-Ended i e s t {u} alive outside found ending delivered =
    elim (Option-cases (take_off e u)) [
      | inl impossible ↦ absurd (ground (arith, found, impossible))
      | inr (v, taken) ↦
          let result = handle e (written e u) v in
          let answered : answer i (result.0, result.1) s ≡ t = ground (arith, found, taken) in
          subst (Ended i (weight u)) answered (
            answer-Ended i (weight u) result.0 result.1 s alive outside found
              (ending-weight e (written e u) u v ending taken))
    ]
