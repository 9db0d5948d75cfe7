-- ===== src/Base/Outcomes.antt =====
-- What a computation of the program may end in besides a value.
use mathlib.Core.Path.{◌≡◌, refl}
use mathlib.Core.Logic.{◌⊎◌, inl, inr}
use mathlib.Core.Option.{Option, none, some}

-- A read past the end of a buffer, a write past the end of an array, an access through a pointer to
-- an erased session, and the exception `std::length_error`.
pub data Fault : Type 0 where
  over_read over_write use_after_free length_error : Fault

pub data Result {μ} (V : Type μ) : Type μ where
  ok : V → Result V
  fault : Fault → Result V

-- Faults end the computation.
infixl 5 ◌>>=◌
abbrev pub ◌>>=◌ {μ ν} : {V : Type μ} {W : Type ν} → Result V → (V → Result W) → Result W
fault reason >>= next = fault reason
ok value >>= next = next value

-- The value of an option, or a fault where there is none.
abbrev pub or_fault {μ} : {V : Type μ} → Option V → Fault → Result V
or_fault (some value) reason = ok value
or_fault none reason = fault reason

pub >>=-eq-ok {μ ν} :
    {V : Type μ} {W : Type ν} (first : Result V) (next : V → Result W) {last : W}
    → (first >>= next) ≡ ok last
    → (value : V) × (first ≡ ok value) × (next value ≡ ok last)
>>=-eq-ok (fault reason) next done = cc
>>=-eq-ok (ok value) next done = (value, refl, done)

pub Result-cases {ℓ} :
    {A : Type ℓ} (r : Result A) → ((a : A) × (r ≡ ok a)) ⊎ ((e : Fault) × (r ≡ fault e))
Result-cases (ok a) = inl (a, refl)
Result-cases (fault e) = inr (e, refl)

pub >>=_assoc {ℓ κ μ} :
    {A : Type ℓ} {B : Type κ} {C : Type μ} (r : Result A) (f : A → Result B) (g : B → Result C)
    → (r >>= f) >>= g ≡ r >>= (λ a. f a >>= g)
>>=_assoc (ok a) f g = refl
>>=_assoc (fault e) f g = refl
