-- ===== src/Http/Splits.antt =====
-- What `split` does at the first delimiter and without one.
use mathlib.Core.List.{append-nil, append_assoc}
use amgi_net_tools.Base.{ℕ, ◌≡◌, ap, ◌∙◌, true, false, [], ◌∷◌, ◌++◌, Bytes}
use amgi_net_tools.Http.Text.{is_one_of, emit, split_from, split}

-- No byte of the text is a delimiter.
abbrev pub Lacks : Bytes → Bytes → Type 0
Lacks delimeter [] = Unit {0}
Lacks delimeter (c ∷ cs) = (is_one_of delimeter c ≡ false) × Lacks delimeter cs

pub Lacks-append : (d xs ys : Bytes) → Lacks d xs → Lacks d ys → Lacks d (xs ++ ys)
Lacks-append d [] ys h k = k
Lacks-append d (x ∷ xs) ys h k = (h.0, Lacks-append d xs ys h.1 k)

-- Fewer delimiters.
pub Lacks-mono :
    (d e xs : Bytes)
    → ((c : ℕ) → is_one_of d c ≡ false → is_one_of e c ≡ false)
    → Lacks d xs
    → Lacks e xs
Lacks-mono d e [] f h = tt
Lacks-mono d e (x ∷ xs) f h = (f x h.0, Lacks-mono d e xs f h.1)

split_from-until :
    (d item xs : Bytes) (c : ℕ) (ys : Bytes)
    → Lacks d xs
    → is_one_of d c ≡ true
    → split_from d item (xs ++ c ∷ ys) ≡ emit (item ++ xs) (split_from d [] ys)
unfolding split_from
split_from-until d item [] c ys h k = rw (k, append-nil item)
split_from-until d item (x ∷ xs) c ys h k =
    rw h.0 (split_from-until d (item ++ x ∷ []) xs c ys h.1 k)
    ∙ ap (λ i. emit i (split_from d [] ys)) (append_assoc item (x ∷ []) xs)

split_from-rest : (d item xs : Bytes) → Lacks d xs → split_from d item xs ≡ emit (item ++ xs) []
unfolding split_from
split_from-rest d item [] h = rw (append-nil item)
split_from-rest d item (x ∷ xs) h =
    rw h.0 (split_from-rest d (item ++ x ∷ []) xs h.1)
    ∙ ap (λ i. emit i []) (append_assoc item (x ∷ []) xs)

-- The text before the first delimiter is the first item, unless it is empty.
pub split-until :
    (d xs : Bytes) (c : ℕ) (ys : Bytes)
    → Lacks d xs
    → is_one_of d c ≡ true
    → split (xs ++ c ∷ ys) d ≡ emit xs (split ys d)
unfolding split
split-until d xs c ys h k = split_from-until d [] xs c ys h k

-- A text without delimiters is one item, unless it is empty.
pub split-whole : (d xs : Bytes) → Lacks d xs → split xs d ≡ emit xs []
unfolding split
split-whole d xs h = split_from-rest d [] xs h
