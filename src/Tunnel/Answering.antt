-- ===== src/Tunnel/Answering.antt =====
-- amgi_tunnel/server.hpp: the sessions that live, where one of them is answered.
use mathlib.Core.Path.{subst, ap, ◌∙◌}
use native.Mathlib.Decide.{ℕ_discrete}
use amgi_net_tools.Base.{
  ℕ, ◌⊎◌, zero, suc, ◌≤◌, ◌≡◌, ◌≢◌, refl, sym, inl, inr, Bool, true, false, List, [], ◌∷◌, some,
  ◌==◌, Option-cases, Bool-cases, if◌then◌else◌, arith,
}
use amgi_net_tools.Tunnel.Session.{
  Session, close, do_connect, handshake, do_read_from_local, do_read_from_remote,
  do_write_to_remote, do_write_to_local,
}
use amgi_net_tools.Tunnel.Events.{
  Event, local_received, remote_received, remote_sent, local_sent, failed, remote_cut, local_cut,
  take_off, done, handle, written, settle,
}
use amgi_net_tools.Tunnel.Manager.{leave, contains, contains-leave_ne}
use amgi_net_tools.Tunnel.Server.{
  Server, destroyed, signalled, find, put, remove, under_way, release, answer, deliver,
}
use amgi_net_tools.Tunnel.Sessions.{find-put_self, find-put_ne, find-remove_ne}
use amgi_net_tools.Tunnel.Histories.{Runs, made, accepts, refuses, happens, stops}
use amgi_net_tools.Tunnel.Alive.{
  IsAlive, occurs, occurs-put, occurs-remove, find-remove_self, make-IsAlive, accepts-IsAlive,
  refuses-IsAlive,
}

-- The other sessions, while one of them is answered.
record IsAliveBut (i : ℕ) (s : Server) : Type 0 where
  once : (j : ℕ) → occurs j s.living ≤ 1
  later : (j : ℕ) → s.waiting ≤ j → occurs j s.living ≡ 0
  kept :
      (j : ℕ) (t : Session)
      → j ≢ i
      → find j s.living ≡ some t
      → contains j s.members ≡ false
      → (under_way t ≢ 0) × (t.local_is_open ≡ false)

destroyed-IsAlive :
    (i : ℕ) (s : Server)
    → IsAliveBut i s
    → IsAlive (destroyed (record s { living = remove i s.living }))
unfolding destroyed
destroyed-IsAlive i s alive = record {
  once = λ j. omega (arith, alive.once j, occurs-remove j i s.living);
  later = λ j late. omega (arith, alive.later j late, occurs-remove j i s.living);
  kept = λ j t found outside. elim (ℕ_discrete j i) [
    | yes same ↦ absurd (
        ground (
          arith,
          found,
          find-remove_self i s.living (alive.once i),
          ap (λ k. find k (remove i s.living)) same,
        ))
    | no other ↦ alive.kept j t other (sym (find-remove_ne j i s.living other) ∙ found) outside
  ];
}

stays-IsAlive :
    (i : ℕ) (t : Session) (s : Server)
    → find i s.living ≡ some t
    → (contains i s.members ≡ false → (under_way t ≢ 0) × (t.local_is_open ≡ false))
    → IsAliveBut i s
    → IsAlive s
stays-IsAlive i t s found busy alive = record {
  once = alive.once;
  later = alive.later;
  kept = λ j u at outside. elim (ℕ_discrete j i) [
    | yes same ↦
        let outside_i : contains i s.members ≡ false =
          ap (λ k. contains k s.members) (sym same) ∙ outside in
        let equal : t ≡ u = cc (found, at, ap (λ k. find k s.living) same) in
        subst (λ x. (under_way x ≢ 0) × (x.local_is_open ≡ false)) equal (busy outside_i)
    | no other ↦ alive.kept j u other at outside
  ];
}

release-IsAlive :
    (i : ℕ) (t : Session) (s : Server)
    → find i s.living ≡ some t
    → (contains i s.members ≡ false → t.local_is_open ≡ false)
    → IsAliveBut i s
    → IsAlive (release i t s)
unfolding release
release-IsAlive i t s found shut alive = elim (Bool-cases (contains i s.members)) [
  | inl inside ↦
      rw inside
        (stays-IsAlive i t s found (λ outside. absurd (ground (arith, inside, outside))) alive)
  | inr outside ↦ elim (Bool-cases (under_way t == 0)) [
    | inl idle ↦ rw (outside, idle) (destroyed-IsAlive i s alive)
    | inr busy ↦
        rw (outside, busy)
          (stays-IsAlive i t s found (λ _. (ground (arith, busy), shut outside)) alive)
  ]
]

-- A session that is not in the manager after a completion has its local socket closed.
settled_shut :
    (i : ℕ) (u t : Session) (leaves : Bool) (members : List ℕ)
    → (leaves ≡ true) ⊎ (u.local_is_open ≡ t.local_is_open)
    → contains i (if leaves then leave i members else members) ≡ false
    → (contains i members ≡ false → t.local_is_open ≡ false)
    → (settle (u, leaves)).local_is_open ≡ false
unfolding settle close
settled_shut i u t true members same outside shut = ground arith
settled_shut i u t false members (inl h) outside shut = absurd (ground (arith, h))
settled_shut i u t false members (inr same) outside shut = same ∙ shut outside

-- Only `start` opens the local socket, and only `close` closes it.
handled_open :
    (e : Event) (n : ℕ) (s t : Session)
    → take_off e s ≡ some t
    → ((handle e n t).1 ≡ true) ⊎ ((handle e n t).0.local_is_open ≡ s.local_is_open)
unfolding take_off done handle do_connect handshake do_read_from_local do_read_from_remote
    do_write_to_remote do_write_to_local
handled_open (local_received []) n s t taken = inl refl
handled_open (remote_received []) n s t taken = inl refl
handled_open (local_received (b ∷ bs)) n s t taken = inr (ground arith)
handled_open (remote_received (b ∷ bs)) n s t taken = inr (ground arith)
handled_open remote_sent zero s t taken = inl refl
handled_open local_sent zero s t taken = inl refl
handled_open remote_sent (suc n) s t taken = inr (ground arith)
handled_open local_sent (suc n) s t taken = inr (ground arith)
handled_open (failed op) n s t taken = inl refl
handled_open (remote_cut k) n s t taken = inl refl
handled_open (local_cut k) n s t taken = inl refl
handled_open _ n s t taken = inr (ground arith)

answered-IsAlive :
    (i : ℕ) (u : Session) (leaves : Bool) (s : Server) {t : Session}
    → find i s.living ≡ some t
    → (leaves ≡ true) ⊎ (u.local_is_open ≡ t.local_is_open)
    → IsAlive s
    → IsAlive (answer i (u, leaves) s)
unfolding answer
answered-IsAlive i u leaves s {t} found same alive =
    let after = settle (u, leaves) in
    release-IsAlive i after
      (record s {
        members = if leaves then leave i s.members else s.members;
        living = put i after s.living;
      })
      (find-put_self i after s.living found)
      (λ outside.
        settled_shut i u t leaves s.members same outside
          (λ before. (alive.kept i t found before).1))
      (record {
        once = λ j. omega (arith, alive.once j, occurs-put j i after s.living);
        later = λ j late. omega (arith, alive.later j late, occurs-put j i after s.living);
        kept = λ j t other at outside.
            alive.kept j t (sym (find-put_ne j i after s.living other) ∙ at)
              (ground (arith, outside, contains-leave_ne j i s.members other));
      })

pub deliver-IsAlive :
    (i : ℕ) (e : Event) (s t : Server) → deliver i e s ≡ some t → IsAlive s → IsAlive t
unfolding deliver
deliver-IsAlive i e s t delivered alive = elim (Option-cases (find i s.living)) [
  | inl missing ↦ absurd (ground (arith, missing))
  | inr (u, found) ↦ elim (Option-cases (take_off e u)) [
    | inl impossible ↦ absurd (ground (arith, found, impossible))
    | inr (v, taken) ↦
        let result = handle e (written e u) v in
        let answered : answer i (result.0, result.1) s ≡ t = ground (arith, found, taken) in
        subst IsAlive answered (
          answered-IsAlive i result.0 result.1 s {t = u} found
            (handled_open e (written e u) u v taken) alive)
  ]
]

pub Runs-IsAlive : (n : ℕ) (s : Server) → Runs n s → IsAlive s
unfolding signalled
Runs-IsAlive n s made = make-IsAlive
Runs-IsAlive n s (accepts {s = r} history running) = accepts-IsAlive r (Runs-IsAlive n r history)
Runs-IsAlive n s (refuses {n = m} {s = r} history running) =
    refuses-IsAlive r (Runs-IsAlive m r history)
Runs-IsAlive n s (happens {s = r} i e history running delivered) =
    deliver-IsAlive i e r s delivered (Runs-IsAlive n r history)
Runs-IsAlive n s (stops {s = r} history) =
    let alive = Runs-IsAlive n r history in
    record { once = alive.once; later = alive.later; kept = alive.kept }
