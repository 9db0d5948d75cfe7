-- ===== src/Socks5/Packet/Hello.antt =====
-- The hello packet: `is_socks5_auth_request` of socks5.cpp.
use amgi_net_tools.Base.{
  ℕ, zero, suc, ◌+◌, ◌≤◌, ◌<◌, ◌≡◌, ◌⊎◌, inl, inr, refl, ap, ◌∙◌, true, false, some, none, Option,
  Bytes, length, get_elem?, get_elem?-in_bounds, ◌==◌, Result, ok, arith, ltb, Bool-cases, [], ◌∷◌,
  ==_iff,
}
use mathlib.Core.Path.{subst}
use native.Mathlib.Decide.{ℕ_discrete}
use amgi_net_tools.Socks5.Packet.{
  version, no_auth, bad_initial_packet, unsupported_version, invalid_length, unsupported_auth,
  header_min_length, byte_at, find_no_auth, check_methods, is_socks5_auth_request,
}

pub byte_at-in_bounds :
    (buffer : Bytes) (i : ℕ)
    → i < length buffer
    → (b : ℕ) × (byte_at buffer i ≡ ok b) × (get_elem? buffer i ≡ some b)
unfolding byte_at
byte_at-in_bounds buffer i h = let (b, e) = get_elem?-in_bounds buffer i h in (b, rw e, e)

-- A method among the `rounds` from number `i` on is "no authentication".
abbrev pub Offers : Bytes → ℕ → ℕ → Type 0
Offers buffer i rounds =
    (j : ℕ) × (i ≤ j) × (j < i + rounds) × (get_elem? buffer (header_min_length + j) ≡ some no_auth)

-- The loop stays inside the packet and finds the method exactly when it is there.
abbrev Finds : Bytes → ℕ → ℕ → Type 0
Finds buffer i rounds =
    ((find_no_auth buffer i rounds ≡ ok true) × Offers buffer i rounds)
    ⊎ ((find_no_auth buffer i rounds ≡ ok false) × ¬ Offers buffer i rounds)

-- Not the first method, so one of the others.
Offers-later :
    (buffer : Bytes) (i rounds : ℕ) {b : ℕ}
    → get_elem? buffer (header_min_length + i) ≡ some b
    → (b == no_auth) ≡ false
    → Offers buffer i (suc rounds)
    → Offers buffer (i + 1) rounds
Offers-later buffer i rounds {b} at miss (j, from, to, found) = elim (ℕ_discrete i j) [
  | yes same ↦
      absurd (ground (arith, ap (λ (k : ℕ). get_elem? buffer (header_min_length + k)) same))
  | no other ↦ (j, omega arith, omega arith, found)
]

find_no_auth-Finds :
    (buffer : Bytes) (i rounds : ℕ)
    → header_min_length + i + rounds ≤ length buffer
    → Finds buffer i rounds
unfolding find_no_auth
find_no_auth-Finds buffer i zero h = inr (refl, λ o. omega (arith, o.1, o.2))
find_no_auth-Finds buffer i (suc rounds) h =
    let (b, read, at) = byte_at-in_bounds buffer (header_min_length + i) (omega arith) in
    elim (Bool-cases (b == no_auth)) [
      | inl hit ↦ inl (
        rw (read, hit) refl,
        (i, omega arith, omega arith, at ∙ ap some ((==_iff b no_auth).0 hit)),
      )
      | inr miss ↦ elim (find_no_auth-Finds buffer (i + 1) rounds (omega arith)) [
        | inl (e, (j, from, to, found)) ↦
            inl (rw (read, miss) e, (j, omega arith, omega arith, found))
        | inr (e, none_left) ↦
            inr (rw (read, miss) e, λ o. none_left (Offers-later buffer i rounds at miss o))
      ]
    ]

-- What makes a hello packet good: the version, room for the methods, and "no authentication" among them.
pub record IsGood (buffer : Bytes) : Type 0 where
  pub methods : ℕ
  pub versioned : get_elem? buffer 0 ≡ some version
  pub counted : get_elem? buffer 1 ≡ some methods
  pub fits : methods + header_min_length ≤ length buffer
  pub offers : Offers buffer 0 methods

abbrev pub Decides : Bytes → Result (Option Bytes) → Type 0
Decides buffer r =
    ((r ≡ ok none) × IsGood buffer) ⊎ ((e : Bytes) × (r ≡ ok (some e)) × ¬ IsGood buffer)

check_methods-Decides :
    (buffer : Bytes) (methods : ℕ)
    → get_elem? buffer 0 ≡ some version
    → get_elem? buffer 1 ≡ some methods
    → Decides buffer (check_methods buffer methods)
unfolding check_methods
check_methods-Decides buffer methods v c =
    elim (Bool-cases (ltb (length buffer) (methods + header_min_length))) [
      | inl short ↦ inr (invalid_length, rw short refl, λ g. ground (arith, g.counted, g.fits))
      | inr long ↦ elim (find_no_auth-Finds buffer 0 methods (ground arith)) [
        | inl (e, o) ↦ inl (
          rw (long, e) refl,
          record { methods = methods; versioned = v; counted = c; fits = ground arith; offers = o },
        )
        | inr (e, missing) ↦ inr (
          unsupported_auth,
          rw (long, e) refl,
          λ g.
              let same : g.methods ≡ methods = cc (g.counted, c) in
              missing (subst (Offers buffer 0) (same) g.offers),
        )
      ]
    ]

ltb_two : (n : ℕ) → ltb (suc (suc n)) header_min_length ≡ false
ltb_two n = ground arith

-- Reading a hello packet never leaves it, and finds no error exactly in the good ones.
pub is_socks5_auth_request-Decides :
    (buffer : Bytes) → Decides buffer (is_socks5_auth_request buffer)
unfolding is_socks5_auth_request
is_socks5_auth_request-Decides [] = inr (bad_initial_packet, refl, λ g. ground (arith, g.versioned))
is_socks5_auth_request-Decides (v ∷ []) =
    inr (bad_initial_packet, refl, λ g. ground (arith, g.counted))
is_socks5_auth_request-Decides (v ∷ methods ∷ rest) = elim (Bool-cases (v == version)) [
  | inl same ↦
      rw (same, ltb_two (length rest))
        (check_methods-Decides (v ∷ methods ∷ rest) methods (ap some ((==_iff v version).0 same))
          refl)
  | inr other ↦
      rw (other, ltb_two (length rest))
        (inr (unsupported_version, refl, λ g. ground (arith, g.versioned)))
]
