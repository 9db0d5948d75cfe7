-- ===== src/Tunnel/Sessions.antt =====
-- The list of the living sessions.
use amgi_net_tools.Base.{ℕ, suc, ◌≡◌, ◌≢◌, refl, List, [], ◌∷◌, some, length, ◌==◌, arith}
use amgi_net_tools.Tunnel.Session.{Session}
use amgi_net_tools.Tunnel.Completion.{if-either}
use amgi_net_tools.Tunnel.Server.{Living, find, put, remove}

pub data All (P : Session → Type 0) : List Living → Type 0 where
  nothing : All P []
  both : {l : Living} {ls : List Living} → P l.session → All P ls → All P (l ∷ ls)

pub length-put : (i : ℕ) (s : Session) (ls : List Living) → length (put i s ls) ≡ length ls
unfolding put
length-put i s [] = refl
length-put i s (l ∷ ls) = let rest = length-put i s ls in ground (arith, rest)

pub length-remove :
    (i : ℕ) (ls : List Living) {s : Session}
    → find i ls ≡ some s
    → suc (length (remove i ls)) ≡ length ls
unfolding find remove
length-remove i [] found = absurd (ground arith)
length-remove i (l ∷ ls) {s} found = let rest = length-remove i ls {s = s} in ground (arith, rest)

pub find-put_self :
    (i : ℕ) (t : Session) (ls : List Living) {s : Session}
    → find i ls ≡ some s
    → find i (put i t ls) ≡ some t
unfolding find put
find-put_self i t [] found = absurd (ground arith)
find-put_self i t (l ∷ ls) {s} found =
    let rest = find-put_self i t ls {s = s} in ground (arith, rest)

pub find-put_ne :
    (j i : ℕ) (t : Session) (ls : List Living) → j ≢ i → find j (put i t ls) ≡ find j ls
unfolding find put
find-put_ne j i t [] other = refl
find-put_ne j i t (l ∷ ls) other = let rest = find-put_ne j i t ls other in ground (arith, rest)

pub find-remove_ne : (j i : ℕ) (ls : List Living) → j ≢ i → find j (remove i ls) ≡ find j ls
unfolding find remove
find-remove_ne j i [] other = refl
find-remove_ne j i (l ∷ ls) other = let rest = find-remove_ne j i ls other in ground (arith, rest)

module _ {P : Session → Type 0} where
  pub All-find : (i : ℕ) (ls : List Living) {s : Session} → All P ls → find i ls ≡ some s → P s
  unfolding find
  All-find i [] all found = absurd (ground arith)
  All-find i (l ∷ ls) {s} (both p all) found =
      let rest = All-find i ls {s = s} all in ground (arith, p, rest)

  pub All-put : (i : ℕ) (t : Session) (ls : List Living) → P t → All P ls → All P (put i t ls)
  unfolding put
  All-put i t [] pt all = nothing
  All-put i t (l ∷ ls) pt (both p all) =
      if-either (All P) (i == l.number) (both pt all) (both p (All-put i t ls pt all))

  pub All-remove : (i : ℕ) (ls : List Living) → All P ls → All P (remove i ls)
  unfolding remove
  All-remove i [] all = nothing
  All-remove i (l ∷ ls) (both p all) =
      if-either (All P) (i == l.number) all (both p (All-remove i ls all))
