-- ===== src/Base/Table.antt =====
-- A map keyed by numbers, as a function: `std::unordered_map` without its order.
use Prim.Native.Nat.{ℕ}
use mathlib.Core.Path.{◌≡◌, refl, ap, fun_ext}
use mathlib.Core.Logic.{◌≢◌}
use mathlib.Core.Option.{Option, none, some}
use native.Mathlib.Omega.{arith}
use amgi_net_tools.Base.Tests.{◌==◌, if◌then◌else◌, ==_refl, ==_ne}

pub record Table {ℓ} (V : Type ℓ) : Type ℓ where
  entry : ℕ → Option V

of_entries {ℓ} : {V : Type ℓ} → (ℕ → Option V) → Table V
of_entries f = record { entry = f }

module _ {ℓ} {V : Type ℓ} where
  unfoldable pub empty : Table V
  empty = record { entry = λ k. none }

  unfoldable pub find : ℕ → Table V → Option V
  find k t = t.entry k

  -- Assignment to an entry, present or not.
  unfoldable pub put : ℕ → V → Table V → Table V
  put k v t = record { entry = λ j. if j == k then some v else t.entry j }

  unfoldable pub erase : ℕ → Table V → Table V
  erase k t = record { entry = λ j. if j == k then none else t.entry j }

  put_absent : Option V → ℕ → V → Table V → Table V
  put_absent none k v t = put k v t
  put_absent (some w) k v t = t

  -- `insert` of `std::unordered_map`: an entry that is there stays.
  unfoldable pub insert : ℕ → V → Table V → Table V
  unfolding put_absent
  insert k v t = put_absent (find k t) k v t

  pub find-empty : (k : ℕ) → find k empty ≡ none
  unfolding find empty
  find-empty k = refl

  pub find-put_self : (k : ℕ) (v : V) (t : Table V) → find k (put k v t) ≡ some v
  unfolding find put
  find-put_self k v t = rw (==_refl k)

  pub find-put_ne : (j k : ℕ) (v : V) (t : Table V) → j ≢ k → find j (put k v t) ≡ find j t
  unfolding find put
  find-put_ne j k v t h = rw (==_ne j k h)

  pub find-erase_self : (k : ℕ) (t : Table V) → find k (erase k t) ≡ none
  unfolding find erase
  find-erase_self k t = rw (==_refl k)

  pub find-erase_ne : (j k : ℕ) (t : Table V) → j ≢ k → find j (erase k t) ≡ find j t
  unfolding find erase
  find-erase_ne j k t h = rw (==_ne j k h)

  pub put-put : (k : ℕ) (v w : V) (t : Table V) → put k v (put k w t) ≡ put k v t
  unfolding put of_entries
  put-put k v w t = ap of_entries (fun_ext λ j. ground arith)

  pub erase-put : (k : ℕ) (w : V) (t : Table V) → erase k (put k w t) ≡ erase k t
  unfolding put erase of_entries
  erase-put k w t = ap of_entries (fun_ext λ j. ground arith)

  pub put-find : (k : ℕ) (v : V) (t : Table V) → find k t ≡ some v → put k v t ≡ t
  unfolding put find of_entries
  put-find k v t h = ap of_entries (fun_ext λ j. ground arith)

  pub insert-absent : (k : ℕ) (v : V) (t : Table V) → find k t ≡ none → insert k v t ≡ put k v t
  unfolding insert
  insert-absent k v t h = rw (h, put_absent)

  pub insert-present : (k : ℕ) (v w : V) (t : Table V) → find k t ≡ some w → insert k v t ≡ t
  unfolding insert
  insert-present k v w t h = rw (h, put_absent)
