-- ===== src/Tunnel/Alive.antt =====
-- amgi_tunnel/server.hpp: which sessions live, in any history of the server.
use mathlib.Core.Path.{ap, ◌∙◌}
use native.Mathlib.Decide.{ℕ_discrete}
use amgi_net_tools.Base.{
  ℕ, ◌+◌, ◌≤◌, ◌≡◌, ◌≢◌, refl, sym, true, false, List, [], ◌∷◌, some, none, ◌==◌, ==_refl, ==_ne,
  if◌then◌else◌, arith,
}
use amgi_net_tools.Tunnel.Session.{Session}
use amgi_net_tools.Tunnel.Manager.{join, contains, contains-join_ne}
use amgi_net_tools.Tunnel.Server.{
  Living, Server, start_accept, make, destroyed, started, accept_done, find, put, remove, under_way,
}

-- How often a number occurs.
abbrev pub occurs : ℕ → List Living → ℕ
occurs i [] = 0
occurs i (l ∷ ls) = let rest = occurs i ls in if i == l.number then rest + 1 else rest

pub occurs-put : (i j : ℕ) (s : Session) (ls : List Living) → occurs i (put j s ls) ≡ occurs i ls
unfolding put
occurs-put i j s [] = refl
occurs-put i j s (l ∷ ls) = let rest = occurs-put i j s ls in ground (arith, rest)

pub occurs-remove : (i j : ℕ) (ls : List Living) → occurs i (remove j ls) ≤ occurs i ls
unfolding remove
occurs-remove i j [] = omega arith
occurs-remove i j (l ∷ ls) = let rest = occurs-remove i j ls in ground (arith, rest)

pub find-absent : (i : ℕ) (ls : List Living) → occurs i ls ≡ 0 → find i ls ≡ none
unfolding find
find-absent i [] absent = refl
find-absent i (l ∷ ls) absent = let rest = find-absent i ls in ground (arith, rest)

pub find-remove_self : (i : ℕ) (ls : List Living) → occurs i ls ≤ 1 → find i (remove i ls) ≡ none
unfolding find remove
find-remove_self i [] once = refl
find-remove_self i (l ∷ ls) once =
    let rest = find-remove_self i ls in
    let absent = find-absent i ls in ground (arith, rest, absent)

-- A session lives once, and only if it was created; it is in the manager, or its local socket is closed and something is
-- under way for it.
pub record IsAlive (s : Server) : Type 0 where
  pub once : (i : ℕ) → occurs i s.living ≤ 1
  pub later : (i : ℕ) → s.waiting ≤ i → occurs i s.living ≡ 0
  pub kept :
      (i : ℕ) (t : Session)
      → find i s.living ≡ some t
      → contains i s.members ≡ false
      → (under_way t ≢ 0) × (t.local_is_open ≡ false)

pub make-IsAlive : IsAlive make
unfolding make start_accept find
make-IsAlive = record {
  once = λ i. omega arith;
  later = λ i late. refl;
  kept = λ i t found outside. absurd (ground arith);
}

contains-join_self : (i : ℕ) (members : List ℕ) → contains i (join i members) ≡ true
unfolding contains join
contains-join_self i members = let same = ==_refl i in ground (arith, same)

pub accepts-IsAlive : (s : Server) → IsAlive s → IsAlive (accept_done false s)
unfolding accept_done started start_accept find
accepts-IsAlive s alive = record {
  once = λ i.
      let some_time = alive.once i in let late = alive.later i in ground (arith, some_time, late);
  later = λ i late. let absent = alive.later i in ground (arith, absent);
  kept = λ i t found outside. elim (ℕ_discrete i s.waiting) [
    | yes same ↦ absurd (
        ground (
          arith,
          contains-join_self s.waiting s.members,
          ap (λ k. contains k (join s.waiting s.members)) same,
        ))
    | no other ↦
        alive.kept i t (rw (==_ne i s.waiting other) at found)
          (sym (contains-join_ne i s.waiting s.members other) ∙ outside)
  ];
}

pub refuses-IsAlive : (s : Server) → IsAlive s → IsAlive (accept_done true s)
unfolding accept_done destroyed start_accept
refuses-IsAlive s alive = record {
  once = alive.once;
  later = λ i late. alive.later i (omega (arith, late));
  kept = alive.kept;
}
