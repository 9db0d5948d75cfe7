-- ===== src/Tunnel/Ending.antt =====
-- amgi_tunnel/session.hpp: how much a session that is closed still has to do.
use amgi_net_tools.Base.{
  ℕ, zero, suc, ◌+◌, ◌*◌, ◌<◌, ◌≡◌, ◌≢◌, ◌⊎◌, refl, true, false, Bool, List, [], ◌∷◌, some, length,
  inl, inr, arith,
}
use amgi_net_tools.Tunnel.Session.{Session, close}
use amgi_net_tools.Tunnel.Events.{
  Event, resolve, connect, shake, read_local, read_remote, write_remote, write_local,
  local_received, remote_received, remote_cut, local_cut, failed, shut_down, take_off, done, handle,
  settle,
}
use amgi_net_tools.Tunnel.Server.{under_way}

-- The completions of a session whose connections are closed: errors, ends of a stream and the handlers of the shutdown.
abbrev pub is_ending : Event → Bool
is_ending (failed op) = true
is_ending (remote_cut k) = true
is_ending (local_cut k) = true
is_ending (local_received []) = true
is_ending (remote_received []) = true
is_ending shut_down = true
is_ending _ = false

-- Each error closes the session again, and that may start the two operations of the shutdown.
abbrev pub weight : Session → ℕ
weight s =
    3
      * (s.resolves
          + s.connects
          + s.handshakes
          + s.local_reads
          + s.remote_reads
          + length s.remote_writes
          + length s.local_writes)
    + s.closings

pub ending-weight :
    (e : Event) (n : ℕ) (s t : Session)
    → is_ending e ≡ true
    → take_off e s ≡ some t
    → weight (settle (handle e n t)) < weight s
unfolding take_off done handle settle close
ending-weight (failed resolve) n s t ending taken = ground arith
ending-weight (failed connect) n s t ending taken = ground arith
ending-weight (failed shake) n s t ending taken = ground arith
ending-weight (failed read_local) n s t ending taken = ground arith
ending-weight (failed read_remote) n s t ending taken = ground arith
ending-weight (failed write_remote) n s t ending taken = ground arith
ending-weight (failed write_local) n s t ending taken = ground arith
ending-weight (remote_cut k) n s t ending taken = ground arith
ending-weight (local_cut k) n s t ending taken = ground arith
ending-weight (local_received []) n s t ending taken = ground arith
ending-weight (remote_received []) n s t ending taken = ground arith
ending-weight shut_down n s t ending taken = ground arith
ending-weight _ n s t ending taken = absurd (ground arith)

number-cases : (n : ℕ) → (n ≡ 0) ⊎ (k : ℕ) × (n ≡ suc k)
number-cases zero = inl refl
number-cases (suc k) = inr (k, refl)

lengths-cases : (ns : List ℕ) → (ns ≡ []) ⊎ (m : ℕ) × (ms : List ℕ) × (ns ≡ m ∷ ms)
lengths-cases [] = inl refl
lengths-cases (m ∷ ms) = inr (m, ms, refl)

-- A session for which something is under way has a completion that ends it.
pub ending_comes :
    (s : Session)
    → under_way s ≢ 0
    → (e : Event) × (t : Session) × (is_ending e ≡ true) × (take_off e s ≡ some t)
unfolding take_off done under_way
ending_comes s some_left = elim (number-cases s.resolves) [
  | inr (k, one) ↦ (failed resolve, record s { resolves = k }, refl, rw one)
  | inl a ↦ elim (number-cases s.connects) [
    | inr (k, one) ↦ (failed connect, record s { connects = k }, refl, rw one)
    | inl b ↦ elim (number-cases s.handshakes) [
      | inr (k, one) ↦ (failed shake, record s { handshakes = k }, refl, rw one)
      | inl c ↦ elim (number-cases s.local_reads) [
        | inr (k, one) ↦ (failed read_local, record s { local_reads = k }, refl, rw one)
        | inl d ↦ elim (number-cases s.remote_reads) [
          | inr (k, one) ↦ (failed read_remote, record s { remote_reads = k }, refl, rw one)
          | inl e ↦ elim (lengths-cases s.remote_writes) [
            | inr (m, ms, one) ↦
                (failed write_remote, record s { remote_writes = ms }, refl, rw one)
            | inl f ↦ elim (lengths-cases s.local_writes) [
              | inr (m, ms, one) ↦
                  (failed write_local, record s { local_writes = ms }, refl, rw one)
              | inl g ↦ elim (number-cases s.closings) [
                | inr (k, one) ↦ (shut_down, record s { closings = k }, refl, rw one)
                | inl h ↦ absurd (some_left (ground arith))
              ]
            ]
          ]
        ]
      ]
    ]
  ]
]
