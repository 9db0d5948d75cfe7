-- ===== src/Tunnel/Completion.antt =====
-- The parts of a session that a completed operation is taken off.
use amgi_net_tools.Base.{ℕ, zero, suc, ◌≡◌, refl, Bool, true, false, List, [], ◌∷◌, some, arith}
use mathlib.Core.Path.{subst}
use amgi_net_tools.Base.{if◌then◌else◌, none, Option}
use amgi_net_tools.Proxy.Network.{fewer, later, map_option}

pub if-either :
    {A : Type 0} (P : A → Type 0) (test : Bool) {a b : A} → P a → P b → P (if test then a else b)
if-either P true pa pb = pa
if-either P false pa pb = pb

-- An operation that completes was under way.
pub fewer-some :
    {A : Type 0} (P : A → Type 0) (f : ℕ → A) (n : ℕ) {a : A}
    → map_option f (fewer n) ≡ some a
    → ((k : ℕ) → n ≡ suc k → P (f k))
    → P a
fewer-some P f zero was_some with_one_fewer = absurd (ground arith)
fewer-some P f (suc k) was_some with_one_fewer =
    let made : f k ≡ _ = ground arith in subst P made (with_one_fewer k refl)

pub later-some :
    {A : Type 0} (P : A → Type 0) (f : List ℕ → A) (ns : List ℕ) {a : A}
    → map_option f (later ns) ≡ some a
    → ((m : ℕ) (ms : List ℕ) → ns ≡ m ∷ ms → P (f ms))
    → P a
later-some P f [] was_some with_later = absurd (ground arith)
later-some P f (m ∷ ms) was_some with_later =
    let made : f ms ≡ _ = ground arith in subst P made (with_later m ms refl)

pub guarded-some :
    {A : Type 0} (test : Bool) {o : Option A} {a : A}
    → (if test then o else none) ≡ some a
    → (test ≡ true) × (o ≡ some a)
guarded-some true was_some = (refl, was_some)
guarded-some false was_some = absurd (ground arith)
