-- ===== src/Tunnel/Manager.antt =====
-- amgi_tunnel/manager.hpp: the sessions that are served, a set of pointers. A session is pointed to by its number.
use amgi_net_tools.Base.{
  ℕ, ◌+◌, refl, ◌≡◌, ◌≢◌, Bool, false, List, [], ◌∷◌, length, ◌==◌, ◌||◌, if◌then◌else◌, arith,
}

-- Whether a pointer is in the set.
unfoldable pub contains : ℕ → List ℕ → Bool
contains i [] = false
contains i (j ∷ js) = (i == j) || contains i js

-- `insert`, which leaves a pointer that is there.
unfoldable pub join : ℕ → List ℕ → List ℕ
unfolding contains
join i members = if contains i members then members else i ∷ members

-- `erase`; that the session stops is part of `settle`.
unfoldable pub leave : ℕ → List ℕ → List ℕ
leave i [] = []
leave i (j ∷ js) = let rest = leave i js in if i == j then rest else j ∷ rest

unfoldable pub ses_count : List ℕ → ℕ
ses_count members = length members

pub contains-join_ne :
    (i j : ℕ) (members : List ℕ) → i ≢ j → contains i (join j members) ≡ contains i members
unfolding contains join
contains-join_ne i j members other = ground arith

pub contains-leave_self : (i : ℕ) (members : List ℕ) → contains i (leave i members) ≡ false
unfolding contains leave
contains-leave_self i [] = refl
contains-leave_self i (k ∷ ks) = let rest = contains-leave_self i ks in ground (arith, rest)

pub contains-leave_ne :
    (i j : ℕ) (members : List ℕ) → i ≢ j → contains i (leave j members) ≡ contains i members
unfolding contains leave
contains-leave_ne i j [] other = refl
contains-leave_ne i j (k ∷ ks) other =
    let rest = contains-leave_ne i j ks other in ground (arith, rest)

pub ses_count-join :
    (i : ℕ) (members : List ℕ)
    → contains i members ≡ false
    → ses_count (join i members) ≡ ses_count members + 1
unfolding join ses_count
ses_count-join i members absent = ground (arith)
