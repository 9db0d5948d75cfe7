-- ===== src/Base/Pipe.antt =====
-- A relay. A pipe is one direction of it: the numbers of its reads and writes under way, its buffer, and the bytes that came in and
-- went out.
use mathlib.Core.List.{append-nil, append_assoc}
use Prim.Native.Nat.{ℕ, zero, suc, ◌+◌, ◌≤◌}
use mathlib.Core.Path.{subst, ◌≡◌, refl, sym, ap, ◌∙◌}
use mathlib.Core.List.{List, [], ◌∷◌, ◌++◌}
use native.Mathlib.Omega.{arith}
use amgi_net_tools.Base.Lists.{Bytes, length, length-take, length-drop, take, drop}

-- The bytes on the two connections of a relay, as their other ends see them.
pub record Wire : Type 0 where
  pub from_local : Bytes
  pub to_remote : Bytes
  pub from_remote : Bytes
  pub to_local : Bytes

abbrev pub silence : Wire
silence = record { from_local = []; to_remote = []; from_remote = []; to_local = [] }

-- The length of the oldest write.
unfoldable pub first_or : ℕ → List ℕ → ℕ
first_or n [] = n
first_or n (m ∷ ms) = m

-- What left is a beginning of what came in, and no more than `limit` bytes are still to leave.
abbrev pub Passes : (limit : ℕ) (received sent : Bytes) → Type 0
Passes limit received sent = (rest : Bytes) × (received ≡ sent ++ rest) × (length rest ≤ limit)

-- What came in and has not gone out: nothing while the next bytes are awaited, the bytes of the write that is under way,
-- or those that a failed write left.
pub data Pipe (limit reads : ℕ) (writes : List ℕ) (buffer received sent : Bytes) : Type 0 where
  awaiting :
      reads ≡ 1 → writes ≡ [] → received ≡ sent → Pipe limit reads writes buffer received sent
  sending :
      (n : ℕ)
      → reads ≡ 0
      → writes ≡ n ∷ []
      → n ≤ limit
      → received ≡ sent ++ take n buffer
      → Pipe limit reads writes buffer received sent
  broken :
      (rest : Bytes)
      → reads ≡ 0
      → writes ≡ []
      → length rest ≤ limit
      → received ≡ sent ++ rest
      → Pipe limit reads writes buffer received sent

take-append-drop : (k : ℕ) (bytes : Bytes) → take k bytes ++ drop k bytes ≡ bytes
take-append-drop zero bytes = refl
take-append-drop (suc k) [] = refl
take-append-drop (suc k) (b ∷ bytes) = ap (◌∷◌ b) (take-append-drop k bytes)

take-nil : (k : ℕ) → let nothing : Bytes = [] in take k nothing ≡ nothing
take-nil zero = refl
take-nil (suc k) = refl

module _ {limit reads reads' : ℕ} {writes : List ℕ} {buffer received sent : Bytes} where
  pub Pipe-receive :
      (bytes filled : Bytes)
      → take (length bytes) filled ≡ bytes
      → length bytes ≤ limit
      → reads ≡ suc reads'
      → Pipe limit reads writes buffer received sent
      → Pipe limit reads' (writes ++ length bytes ∷ []) filled (received ++ bytes) sent
  Pipe-receive bytes filled starts fits fewer_reads (awaiting one none_sent same) =
      sending (length bytes) (omega (arith, one, fewer_reads)) (rw none_sent) fits
        (rw (same, starts))
  Pipe-receive bytes filled starts fits fewer_reads (sending n none_read _ _ _) =
      absurd (omega (arith, none_read, fewer_reads))
  Pipe-receive bytes filled starts fits fewer_reads (broken rest none_read _ _ _) =
      absurd (omega (arith, none_read, fewer_reads))

  pub Pipe-read_failed :
      reads ≡ suc reads'
      → Pipe limit reads writes buffer received sent
      → Pipe limit reads' writes buffer received sent
  Pipe-read_failed fewer_reads (awaiting one none_sent same) =
      broken [] (omega (arith, one, fewer_reads)) none_sent (omega arith)
        (rw (same, append-nil sent))
  Pipe-read_failed fewer_reads (sending n none_read _ _ _) =
      absurd (omega (arith, none_read, fewer_reads))
  Pipe-read_failed fewer_reads (broken rest none_read _ _ _) =
      absurd (omega (arith, none_read, fewer_reads))

module _ {limit reads : ℕ} {writes writes' : List ℕ} {buffer received sent : Bytes} where
  pub Pipe-sent :
      (n : ℕ)
      → writes ≡ n ∷ writes'
      → Pipe limit reads writes buffer received sent
      → Pipe limit (reads + 1) writes' buffer received (sent ++ take n buffer)
  Pipe-sent n fewer_writes (awaiting one none_sent same) = absurd (cc (fewer_writes, none_sent))
  Pipe-sent n fewer_writes (sending m none_read one_sent fits same) =
      let length_is : n ≡ m = cc (fewer_writes, one_sent) in
      awaiting (omega (arith, none_read)) (cc (fewer_writes, one_sent)) (rw (length_is, same))
  Pipe-sent n fewer_writes (broken rest none_read none_sent _ _) =
      absurd (cc (fewer_writes, none_sent))

  pub Pipe-write_failed :
      (n : ℕ)
      → writes ≡ n ∷ writes'
      → Pipe limit reads writes buffer received sent
      → Pipe limit reads writes' buffer received sent
  Pipe-write_failed n fewer_writes (awaiting one none_sent same) =
      absurd (cc (fewer_writes, none_sent))
  Pipe-write_failed n fewer_writes (sending m none_read one_sent fits same) =
      broken (take m buffer) none_read (cc (fewer_writes, one_sent))
        (omega (arith, length-take m buffer, fits)) same
  Pipe-write_failed n fewer_writes (broken rest none_read none_sent _ _) =
      absurd (cc (fewer_writes, none_sent))

  -- A write that fails once some of its bytes went out.
  pub Pipe-cut :
      (k n : ℕ)
      → writes ≡ n ∷ writes'
      → Pipe limit reads writes buffer received sent
      → Pipe limit reads writes' buffer received (sent ++ take k (take n buffer))
  Pipe-cut k n fewer_writes (awaiting one none_sent same) = absurd (cc (fewer_writes, none_sent))
  Pipe-cut k n fewer_writes (sending m none_read one_sent fits same) =
      let length_is : m ≡ n = cc (fewer_writes, one_sent) in
      let bytes = take n buffer in
      broken (drop k bytes) none_read (cc (fewer_writes, one_sent))
        (omega (arith, length-take n buffer, length-drop k bytes, fits, length_is))
        (same
          ∙ ap (λ j. sent ++ take j buffer) length_is
          ∙ ap (λ l. sent ++ l) (sym (take-append-drop k bytes))
          ∙ sym (append_assoc sent (take k bytes) (drop k bytes)))
  Pipe-cut k n fewer_writes (broken rest none_read none_sent _ _) =
      absurd (cc (fewer_writes, none_sent))

module _ {limit reads : ℕ} {writes : List ℕ} {buffer received sent : Bytes} where
  -- What came in is what went out and a rest of at most one buffer.
  pub Pipe-rest : Pipe limit reads writes buffer received sent → Passes limit received sent
  Pipe-rest (awaiting one none_sent same) = ([], rw (same, append-nil sent), omega arith)
  Pipe-rest (sending n none_read one_sent fits same) =
      (take n buffer, same, omega (arith, length-take n buffer, fits))
  Pipe-rest (broken rest none_read none_sent fits same) = (rest, same, fits)

uncut :
    {limit : ℕ} {received : Bytes} (sent : Bytes) (k : ℕ)
    → Passes limit received sent
    → let nothing : Bytes = [] in Passes limit received (sent ++ take k nothing)
uncut {limit} {received} sent k passes =
    subst (λ l. Passes limit received (sent ++ l)) (sym (take-nil k))
      (subst (λ l. Passes limit received l) (sym (append-nil sent)) passes)

module _ {limit reads : ℕ} {writes : List ℕ} {buffer received sent : Bytes} where
  -- What the oldest write has sent of its bytes leaves a rest.
  pub Pipe-cut-Passes :
      (k : ℕ)
      → Pipe limit reads writes buffer received sent
      → Passes limit received (sent ++ take k (take (first_or 0 writes) buffer))
  unfolding first_or
  Pipe-cut-Passes k (sending n none_read one_sent fits same) =
      let pipe : Pipe limit reads writes buffer received sent =
        sending n none_read one_sent fits same in
      rw one_sent (Pipe-rest (Pipe-cut k n one_sent pipe))
  Pipe-cut-Passes k (awaiting one none_sent same) =
      let pipe : Pipe limit reads writes buffer received sent = awaiting one none_sent same in
      rw none_sent (uncut sent k (Pipe-rest pipe))
  Pipe-cut-Passes k (broken rest none_read none_sent fits same) =
      rw none_sent (uncut sent k (rest, same, fits))

pub Pipe-same :
    {limit reads reads' : ℕ} {writes writes' : List ℕ} {buffer buffer' received sent : Bytes}
    → reads' ≡ reads
    → writes' ≡ writes
    → buffer' ≡ buffer
    → Pipe limit reads writes buffer received sent
    → Pipe limit reads' writes' buffer' received sent
Pipe-same {limit} {received} {sent} same_reads same_writes same_buffer pipe =
    rw (same_reads, same_writes, same_buffer) pipe
