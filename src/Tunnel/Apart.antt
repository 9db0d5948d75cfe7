-- ===== src/Tunnel/Apart.antt =====
-- amgi_tunnel/server.hpp: what the server does beside one of its sessions.
use mathlib.Core.Path.{subst}
use amgi_net_tools.Base.{
  ℕ, ◌≤◌, ◌<◌, ◌≡◌, ◌≢◌, refl, ◌∙◌, Bool, true, false, inl, inr, some, Bool-cases, Option-cases,
  ◌==◌, ==_ne, if◌then◌else◌, arith,
}
use amgi_net_tools.Tunnel.Session.{Session}
use amgi_net_tools.Tunnel.Events.{Event, take_off, handle, written, settle}
use amgi_net_tools.Tunnel.Manager.{leave, contains, contains-join_ne, contains-leave_ne}
use amgi_net_tools.Tunnel.Server.{
  Server, destroyed, started, start_accept, accept_done, signalled, find, put, under_way, release,
  answer, deliver,
}
use amgi_net_tools.Tunnel.Sessions.{find-put_ne, find-remove_ne}

-- The session stays as it is, and in the manager if it is there.
pub record Apart (i : ℕ) (s t : Server) : Type 0 where
  pub members : contains i t.members ≡ contains i s.members
  pub living : find i t.living ≡ find i s.living
  pub later : s.waiting ≤ t.waiting

release-Apart : (i j : ℕ) (u : Session) (s : Server) → i ≢ j → Apart i s (release j u s)
unfolding release destroyed
release-Apart i j u s other = elim (Bool-cases (contains j s.members)) [
  | inl inside ↦ rw inside (record { members = refl; living = refl; later = omega arith })
  | inr outside ↦ elim (Bool-cases (under_way u == 0)) [
    | inl idle ↦
        rw (outside, idle)
          (record {
            members = refl;
            living = find-remove_ne i j s.living other;
            later = omega arith;
          })
    | inr busy ↦ rw (outside, busy) (record { members = refl; living = refl; later = omega arith })
  ]
]

members_kept :
    (i j : ℕ) (leaves : Bool) (s : Server)
    → i ≢ j
    → contains i (if leaves then leave j s.members else s.members) ≡ contains i s.members
members_kept i j true s other = contains-leave_ne i j s.members other
members_kept i j false s other = refl

answer-Apart :
    (i j : ℕ) (u : Session) (leaves : Bool) (s : Server)
    → i ≢ j
    → Apart i s (answer j (u, leaves) s)
unfolding answer
answer-Apart i j u leaves s other =
    let after = settle (u, leaves) in
    let released =
      release-Apart i j after
        (record s {
          members = if leaves then leave j s.members else s.members;
          living = put j after s.living;
        })
        other in
    record {
      members = released.members ∙ members_kept i j leaves s other;
      living = released.living ∙ find-put_ne i j after s.living other;
      later = released.later;
    }

pub deliver-Apart :
    (i j : ℕ) (e : Event) (s t : Server) → i ≢ j → deliver j e s ≡ some t → Apart i s t
unfolding deliver
deliver-Apart i j e s t other delivered = elim (Option-cases (find j s.living)) [
  | inl missing ↦ absurd (ground (arith, missing))
  | inr (u, found) ↦ elim (Option-cases (take_off e u)) [
    | inl impossible ↦ absurd (ground (arith, found, impossible))
    | inr (v, taken) ↦
        let result = handle e (written e u) v in
        let answered : answer j (result.0, result.1) s ≡ t = ground (arith, found, taken) in
        subst (Apart i s) answered (answer-Apart i j result.0 result.1 s other)
  ]
]

pub accept_done-Apart :
    (i : ℕ) (is_error : Bool) (s : Server) → i < s.waiting → Apart i s (accept_done is_error s)
unfolding accept_done started destroyed start_accept find
accept_done-Apart i true s old = record { members = refl; living = refl; later = omega arith }
accept_done-Apart i false s old =
    let other : i ≢ s.waiting = ground (arith, old) in
    record {
      members = contains-join_ne i s.waiting s.members other;
      living = rw (==_ne i s.waiting other) refl;
      later = omega arith;
    }

pub signalled-Apart : (i : ℕ) (s : Server) → Apart i s (signalled s)
unfolding signalled
signalled-Apart i s = record { members = refl; living = refl; later = omega arith }

-- Only an accept makes a session.
pub deliver-waiting :
    (i : ℕ) (e : Event) (s t : Server) → deliver i e s ≡ some t → t.waiting ≡ s.waiting
unfolding deliver answer release destroyed
deliver-waiting i e s t delivered = ground arith
