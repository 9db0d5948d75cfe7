-- ===== src/Tunnel/Leaving.antt =====
-- amgi_tunnel/server.hpp and amgi_tunnel/session.hpp: what becomes of a session that has left the manager.
use amgi_net_tools.Base.{
  leb, ℕ, ◌∙◌, suc, ◌+◌, ◌≤◌, ◌<◌, ◌≡◌, ◌≢◌, ◌⊎◌, inl, inr, Bool, true, false, some, none,
  Bool-cases, arith,
}
use amgi_net_tools.Tunnel.Session.{Session}
use amgi_net_tools.Tunnel.Events.{Event, handle, written}
use amgi_net_tools.Tunnel.Manager.{contains}
use amgi_net_tools.Tunnel.Server.{Server, accept_done, signalled, find, answer, deliver}
use amgi_net_tools.Tunnel.Apart.{
  Apart, deliver-Apart, accept_done-Apart, signalled-Apart, deliver-waiting,
}
use amgi_net_tools.Tunnel.Histories.{Runs}
use amgi_net_tools.Tunnel.Ending.{is_ending, weight, ending_comes}
use amgi_net_tools.Tunnel.Alive.{IsAlive, find-absent, accepts-IsAlive, refuses-IsAlive}
use amgi_net_tools.Tunnel.Answering.{Runs-IsAlive, deliver-IsAlive}
use amgi_net_tools.Tunnel.Ended.{deliver-Ended}

-- The servers from one of the servers on, after a number of completions of one session, each of which ends it, while connections are
-- accepted and events of other sessions happen.
pub data Ends (i : ℕ) (first : Server) : ℕ → Server → Type 0 where
  unchanged : Ends i first 0 first
  ended :
      {n : ℕ} {s t : Server} (e : Event)
      → Ends i first n s
      → is_ending e ≡ true
      → deliver i e s ≡ some t
      → Ends i first (suc n) t
  elsewhere :
      {n : ℕ} {s t : Server} (j : ℕ) (e : Event)
      → Ends i first n s
      → i ≢ j
      → deliver j e s ≡ some t
      → Ends i first n t
  accepting :
      {n : ℕ} {s : Server} (is_error : Bool)
      → Ends i first n s
      → Ends i first n (accept_done is_error s)
  stopping : {n : ℕ} {s : Server} → Ends i first n s → Ends i first n (signalled s)

-- After so many completions: the session is destroyed, or what is left weighs less by at least their number.
record Lasts (i bound n : ℕ) (s : Server) : Type 0 where
  alive : IsAlive s
  older : i < s.waiting
  outside : contains i s.members ≡ false
  within : n ≤ bound
  left :
      (find i s.living ≡ none) ⊎ (t : Session) × (find i s.living ≡ some t) × (weight t + n ≤ bound)

-- A completion comes only for a session that lives.
delivered-lives :
    (i : ℕ) (e : Event) (s t : Server) → deliver i e s ≡ some t → find i s.living ≢ none
unfolding deliver
delivered-lives i e s t delivered missing = ground (arith, missing)

-- A session that lives was made.
find-older :
    (i : ℕ) (s : Server) {u : Session} → IsAlive s → find i s.living ≡ some u → i < s.waiting
find-older i s alive found = elim (Bool-cases (leb s.waiting i)) [
  | inl late_test ↦
      let late : s.waiting ≤ i = ground (arith, late_test) in
      absurd (cc (found, find-absent i s.living (alive.later i late)))
  | inr old ↦ ground (arith, old)
]

-- What the server does beside the session changes nothing of it.
Apart-Lasts :
    (i bound n : ℕ) (s t : Server) → IsAlive t → Apart i s t → Lasts i bound n s → Lasts i bound n t
Apart-Lasts i bound n s t alive apart so_far = record {
  alive = alive;
  older = omega (arith, apart.later, so_far.older);
  outside = apart.members ∙ so_far.outside;
  within = so_far.within;
  left = elim so_far.left [
    | inl gone ↦ inl (apart.living ∙ gone)
    | inr (u, there, weighs) ↦ inr (u, apart.living ∙ there, weighs)
  ];
}

accept_done-IsAlive : (is_error : Bool) (s : Server) → IsAlive s → IsAlive (accept_done is_error s)
accept_done-IsAlive true s alive = refuses-IsAlive s alive
accept_done-IsAlive false s alive = accepts-IsAlive s alive

signalled-IsAlive : (s : Server) → IsAlive s → IsAlive (signalled s)
unfolding signalled
signalled-IsAlive s alive = record { once = alive.once; later = alive.later; kept = alive.kept }

Ends-Lasts :
    (i : ℕ) (first : Server) (n : ℕ) (s : Server) {u : Session}
    → IsAlive first
    → contains i first.members ≡ false
    → find i first.living ≡ some u
    → Ends i first n s
    → Lasts i (weight u) n s
Ends-Lasts i first n s {u} alive outside found unchanged = record {
  alive = alive;
  older = find-older i first alive found;
  outside = outside;
  within = omega arith;
  left = inr (u, found, omega arith);
}
Ends-Lasts i first n t {u} alive outside found (ended {n = k} {s} e earlier ending delivered) =
    let so_far = Ends-Lasts i first k s {u = u} alive outside found earlier in
    elim so_far.left [
      | inl missing ↦ absurd (delivered-lives i e s t delivered missing)
      | inr (v, at, weighs) ↦
          let after = deliver-Ended i e s t so_far.alive so_far.outside at ending delivered in
          record {
            alive = deliver-IsAlive i e s t delivered so_far.alive;
            older = omega (arith, so_far.older, deliver-waiting i e s t delivered);
            outside = after.outside;
            within = omega (arith, weighs, after.some_weight);
            left = elim after.left [
              | inl gone ↦ inl gone
              | inr (x, there, less) ↦ inr (x, there, omega (arith, weighs, less))
            ];
          }
    ]
Ends-Lasts i first n t {u} alive outside found (elsewhere {s} j e earlier other delivered) =
    let so_far = Ends-Lasts i first n s {u = u} alive outside found earlier in
    Apart-Lasts i (weight u) n s t (deliver-IsAlive j e s t delivered so_far.alive)
      (deliver-Apart i j e s t other delivered) so_far
Ends-Lasts i first n t {u} alive outside found (accepting {s} is_error earlier) =
    let so_far = Ends-Lasts i first n s {u = u} alive outside found earlier in
    Apart-Lasts i (weight u) n s (accept_done is_error s)
      (accept_done-IsAlive is_error s so_far.alive) (accept_done-Apart i is_error s so_far.older)
      so_far
Ends-Lasts i first n t {u} alive outside found (stopping {s} earlier) =
    let so_far = Ends-Lasts i first n s {u = u} alive outside found earlier in
    Apart-Lasts i (weight u) n s (signalled s) (signalled-IsAlive s so_far.alive)
      (signalled-Apart i s) so_far

-- After any history of the server, take a session that lives and has left the manager, and then a history in which connections
-- are accepted, other sessions have events in any order, the server may be stopped, and `n` completions of the session come,
-- which are errors, ends of a stream or handlers of the shutdown. Its local socket was closed when it left, `n` is not more than
-- its weight, three for each operation that is not of the shutdown and one for each that is, and at the end of that history
-- the session is destroyed or another such completion can come.
pub Ends-weight :
    (m i n : ℕ) (first s : Server) (u : Session)
    → Runs m first
    → find i first.living ≡ some u
    → contains i first.members ≡ false
    → Ends i first n s
    → (u.local_is_open ≡ false)
      × (n ≤ weight u)
      × ((find i s.living ≡ none)
          ⊎ (e : Event) × (t : Server) × (is_ending e ≡ true) × (deliver i e s ≡ some t))
unfolding deliver
Ends-weight m i n first s u history found outside endings =
    let lasts =
      Ends-Lasts i first n s {u = u} (Runs-IsAlive m first history) outside found endings in
    (
      ((Runs-IsAlive m first history).kept i u found outside).1,
      lasts.within,
      elim lasts.left [
        | inl gone ↦ inl gone
        | inr (v, at, weighs) ↦
            let (busy, _) = lasts.alive.kept i v at lasts.outside in
            let (e, t, ending, taken) = ending_comes v busy in
            inr (e, answer i (handle e (written e v) t) s, ending, ground (arith, at, taken))
      ],
    )
