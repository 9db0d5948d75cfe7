-- ===== src/Base/Attempts.antt =====
-- A sequence of calls of a library, each of which may throw an exception: its text is what `what()` says.
use mathlib.Core.List.{Memᴰ, append-nil, append_assoc}
use mathlib.Core.Path.{◌≡◌, refl, sym, ap, ◌∙◌}
use mathlib.Core.Logic.{◌⊎◌, inl, inr}
use mathlib.Core.Option.{Option, none, some}
use mathlib.Core.Bool.{Bool, false, ◌||◌}
use native.Mathlib.Omega.{arith}
use mathlib.Core.List.{List, [], ◌∷◌, ◌++◌}
use amgi_net_tools.Base.Lists.{Bytes}
use amgi_net_tools.Base.Tests.{Option-cases}

-- The calls that were made, and the exception of the one after them.
pub data Attempt (C : Type 0) : Type 0 where
  finished : List C → Attempt C
  threw : List C → Bytes → Attempt C

module _ {C : Type 0} (throws : List C → C → Option Bytes) where
  -- The calls in turn, once `made` were made, up to the first that throws.
  unfoldable pub perform : List C → List C → Attempt C
  perform [] made = finished made
  perform (c ∷ cs) made =
      let rest = perform cs (made ++ c ∷ []) in
      elim (throws made c) [ none ↦ rest | some what ↦ threw made what ]

  -- No call throws.
  pub data Quiet : List C → List C → Type 0 where
    none_left : {made : List C} → Quiet made []
    quietly :
        {made cs : List C} {c : C}
        → throws made c ≡ none
        → Quiet (made ++ c ∷ []) cs
        → Quiet made (c ∷ cs)

  -- The first call that throws, with those before and after it.
  pub record Broken (made cs : List C) : Type 0 where
    pub before : List C
    pub culprit : C
    pub after : List C
    pub what : Bytes
    pub parts : cs ≡ before ++ culprit ∷ after
    pub quiet : Quiet made before
    pub thrown : throws (made ++ before) culprit ≡ some what

  Broken-later :
      (made cs : List C) (c : C)
      → throws made c ≡ none
      → Broken (made ++ c ∷ []) cs
      → Broken made (c ∷ cs)
  Broken-later made cs c quiet b = record {
    before = c ∷ b.before;
    culprit = b.culprit;
    after = b.after;
    what = b.what;
    parts = ap (λ l. c ∷ l) b.parts;
    quiet = quietly quiet b.quiet;
    thrown = ap (λ l. throws l b.culprit) (sym (append_assoc made (c ∷ []) b.before)) ∙ b.thrown;
  }

  pub Quiet-append : (made xs ys : List C) → Quiet made (xs ++ ys) → Quiet made xs
  Quiet-append made [] ys quiet = none_left
  Quiet-append made (x ∷ xs) ys (quietly first rest) =
      quietly first (Quiet-append (made ++ x ∷ []) xs ys rest)

  pub Quiet-call :
      (made cs : List C) {c : C}
      → Memᴰ c cs
      → Quiet made cs
      → (before : List C) × (throws before c ≡ none)
  Quiet-call made [] nowhere quiet = elim nowhere [ ]
  Quiet-call made (d ∷ cs) (Memᴰ.head same) (quietly first rest) =
      (made, ap (throws made) same ∙ first)
  Quiet-call made (d ∷ cs) (Memᴰ.tail later) (quietly first rest) =
      Quiet-call (made ++ d ∷ []) cs later rest

  -- All calls are made, or those before the first that throws.
  pub perform-cases :
      (cs made : List C)
      → (Quiet made cs × (perform cs made ≡ finished (made ++ cs)))
        ⊎ (b : Broken made cs) × (perform cs made ≡ threw (made ++ b.before) b.what)
  unfolding perform Broken-later
  perform-cases [] made = inl (none_left, ap finished (sym (append-nil made)))
  perform-cases (c ∷ cs) made = elim (Option-cases (throws made c)) [
    | inl quiet ↦ elim (perform-cases cs (made ++ c ∷ [])) [
      | inl (all, done) ↦ inl (
        quietly quiet all,
        rw (quiet, perform) (done ∙ ap finished (append_assoc made (c ∷ []) cs)),
      )
      | inr (b, stopped) ↦ inr (
        Broken-later made cs c quiet b,
        rw (quiet, perform)
            (stopped ∙ ap (λ l. threw l b.what) (append_assoc made (c ∷ []) b.before)),
      )
    ]
    | inr (what, thrown) ↦ inr (
      record {
        before = [];
        culprit = c;
        after = cs;
        what = what;
        parts = refl;
        quiet = none_left;
        thrown = ap (λ l. throws l c) (append-nil made) ∙ thrown;
      },
      rw (thrown, perform) (ap (λ l. threw l what) (sym (append-nil made))),
    )
  ]

module _ {C : Type 0} (marked : C → Bool) where
  -- Whether one of the calls is marked.
  abbrev pub some_of : List C → Bool
  some_of [] = false
  some_of (c ∷ cs) = marked c || some_of cs

  -- What stands before a call has no mark, where only the last call may have one.
  pub some_of-prefix :
      (xs before after : List C) (a c : C)
      → some_of xs ≡ false
      → xs ++ a ∷ [] ≡ before ++ c ∷ after
      → some_of before ≡ false
  some_of-prefix xs [] after a c unmarked parts = refl
  some_of-prefix [] (b ∷ []) after a c unmarked parts = absurd (ground (arith, parts))
  some_of-prefix [] (b ∷ d ∷ bs) after a c unmarked parts = absurd (ground (arith, parts))
  some_of-prefix (x ∷ xs) (b ∷ bs) after a c unmarked parts =
      let rest = some_of-prefix xs bs after a c in ground (arith, rest, parts)

pub past_five :
    {C : Type 0} {x a b c d e : C} {cs : List C} → Memᴰ x cs → Memᴰ x (a ∷ b ∷ c ∷ d ∷ e ∷ cs)
past_five m = Memᴰ.tail (Memᴰ.tail (Memᴰ.tail (Memᴰ.tail (Memᴰ.tail m))))
