-- ===== src/Decimal.antt =====
-- Decimal text of port numbers: `std::to_string`, which socks5.cpp calls, and `std::from_chars`, which
-- transport/server.cpp, transport/tls/tls_server.cpp and amgi_tunnel/server.hpp call.
use amgi_net_tools.Base.{
  ℕ, zero, suc, ◌+◌, ◌-◌, ◌*◌, ◌/◌, ◌%◌, ◌<◌, ◌≡◌, refl, ◌∙◌, ap, Bool, ◌&&◌, [], ◌∷◌, Bytes, leb,
  ltb, ◌==◌, ◌||◌, if◌then◌else◌, arith, Bool-cases, inl, inr, true, false, is_empty, tests,
}

abbrev digit : ℕ → ℕ
digit n = b'0' + n % 10

-- The digits of `n` before `after`.
decimal_onto : ℕ → ℕ → Bytes → Bytes
decimal_onto zero n after = after
decimal_onto (suc fuel) n after =
    let more = decimal_onto fuel (n / 10) (digit n ∷ after) in
    if ltb n 10 then digit n ∷ after else more

-- One round for each digit, and `n + 1` rounds are more than its digits.
unfoldable pub decimal : ℕ → Bytes
unfolding decimal_onto
decimal n = decimal_onto (suc n) n []

is_digit : ℕ → Bool
is_digit c = leb b'0' c && leb c b'9'

-- The value of the leading digits, and whether there was one.
leading : ℕ → Bytes → ℕ
unfolding is_digit
leading value [] = value
leading value (c ∷ cs) =
    let rest = leading (value * 10 + (c - b'0')) cs in if is_digit c then rest else value

-- `std::from_chars` into a uint16 that holds 0: text that starts with no digit, or a number out of
-- range, leaves it as it was. The code reads no error.
unfoldable pub from_chars : Bytes → ℕ
unfolding leading
from_chars text = if ltb (leading 0 text) 65536 then leading 0 text else 0

is_digit-digit : (n : ℕ) → is_digit (digit n) ≡ true
unfolding is_digit
is_digit-digit n = let h : n % 10 < 10 = omega arith in ground arith

leading_step :
    (value n : ℕ) (after : Bytes)
    → leading value (digit n ∷ after) ≡ leading (value * 10 + n % 10) after
unfolding leading
leading_step value n after =
    rw (is_digit-digit n) (ap (λ (v : ℕ). leading (value * 10 + v) after) (omega arith))

leading-decimal_onto :
    (fuel n : ℕ) (after : Bytes)
    → n < fuel
    → leading 0 (decimal_onto fuel n after) ≡ leading n after
unfolding decimal_onto
leading-decimal_onto zero n after h = absurd (omega arith)
leading-decimal_onto (suc fuel) n after h = elim (Bool-cases (ltb n 10)) [
  | inl small ↦ rw small (leading_step 0 n after ∙ ap (λ (v : ℕ). leading v after) (omega (tests)))
  | inr large ↦ rw large (
      leading-decimal_onto fuel (n / 10) (digit n ∷ after) (ground arith)
      ∙ leading_step (n / 10) n after
      ∙ ap (λ (v : ℕ). leading v after) (omega arith))
]

-- Reading back a port that was printed gives that port.
pub from_chars-decimal : (port : ℕ) → port < 65536 → from_chars (decimal port) ≡ port
unfolding from_chars decimal leading
from_chars-decimal port h = ground (arith, leading-decimal_onto (suc port) port [])

decimal_onto-ne-nil :
    (fuel n c : ℕ) (after : Bytes) → is_empty (decimal_onto fuel n (c ∷ after)) ≡ false
unfolding decimal_onto
decimal_onto-ne-nil zero n c after = refl
decimal_onto-ne-nil (suc fuel) n c after =
    ground (arith, decimal_onto-ne-nil fuel (n / 10) (digit n) (c ∷ after))

pub decimal-ne-nil : (n : ℕ) → is_empty (decimal n) ≡ false
unfolding decimal decimal_onto
decimal-ne-nil n = ground (arith, decimal_onto-ne-nil n (n / 10) (digit n) [])

-- Whether a byte stands in a text.
abbrev pub has : ℕ → Bytes → Bool
has c [] = false
has c (x ∷ xs) = x == c || has c xs

decimal_onto-lacks :
    (fuel n c : ℕ) (after : Bytes)
    → c ≡ b':'
    → has c after ≡ false
    → has c (decimal_onto fuel n after) ≡ false
unfolding decimal_onto
decimal_onto-lacks zero n c after colon none_of = none_of
decimal_onto-lacks (suc fuel) n c after colon none_of =
    let small : n % 10 < 10 = omega arith in
    let rest = decimal_onto-lacks fuel (n / 10) c (digit n ∷ after) colon in ground (arith, rest)

-- A printed number has no colon.
pub decimal-lacks : (n : ℕ) → has b':' (decimal n) ≡ false
unfolding decimal
decimal-lacks n = decimal_onto-lacks (suc n) n b':' [] refl refl
