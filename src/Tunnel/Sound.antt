-- ===== src/Tunnel/Sound.antt =====
-- amgi_tunnel/server.hpp and amgi_tunnel/manager.hpp: what each step of the server keeps.
use mathlib.Core.Path.{subst, ap, ◌∙◌}
use native.Mathlib.Decide.{ℕ_discrete}
use amgi_net_tools.Base.{
  ℕ, suc, ◌+◌, ◌%◌, ◌^◌, ◌≡◌, ◌≢◌, refl, sym, inl, inr, Bool, true, false, some, length, ◌==◌,
  Option-cases, Bool-cases, ==_refl, ==_ne, arith,
}
use amgi_net_tools.Tunnel.Session
use amgi_net_tools.Tunnel.Session.{Session}
use amgi_net_tools.Tunnel.Events.{Event, take_off, handle, written, settle}
use amgi_net_tools.Tunnel.Relay.{observe, Relays, accepted, completed}
use amgi_net_tools.Base.Pipe.{Wire, silence}
use amgi_net_tools.Tunnel.Manager.{
  leave, contains, contains-join_ne, contains-leave_ne, contains-leave_self,
}
use amgi_net_tools.Tunnel.Server.{
  Server, incremented, decremented, start_accept, make, destroyed, started, accept_done, find, put,
  remove, under_way, release, answer, deliver,
}
use amgi_net_tools.Tunnel.Sessions.{
  All, nothing, both, length-put, length-remove, find-put_self, find-put_ne, find-remove_ne,
  All-find, All-put, All-remove,
}
use amgi_net_tools.Tunnel.Busy.{Busy, start-Busy, handle-Busy}
use amgi_net_tools.Tunnel.Completion.{if-either}

abbrev IsTraced : Session → Type 0
IsTraced s = (w : Wire) × Relays s w

pub record IsSound (n : ℕ) (s : Server) : Type 0 where
  pub counted : (s.scount + n) % 2 ^ 64 ≡ length s.living % 2 ^ 64
  pub traced : All IsTraced s.living
  pub busy :
      (i : ℕ) → contains i s.members ≡ true → (t : Session) × (find i s.living ≡ some t) × Busy t

pub make-IsSound : IsSound 0 make
unfolding make start_accept contains
make-IsSound = record { counted = refl; traced = nothing; busy = λ i member. absurd (ground arith) }

incremented-counted :
    (c n l : ℕ) → (c + n) % 2 ^ 64 ≡ l % 2 ^ 64 → (incremented c + n) % 2 ^ 64 ≡ suc l % 2 ^ 64
incremented-counted c n l counted = omega (arith, counted)

decremented-counted :
    (c n l : ℕ) → (c + n) % 2 ^ 64 ≡ suc l % 2 ^ 64 → (decremented c + n) % 2 ^ 64 ≡ l % 2 ^ 64
decremented-counted c n l counted = omega (arith, counted)

failed-counted :
    (c n l : ℕ) → (c + n) % 2 ^ 64 ≡ l % 2 ^ 64 → (decremented c + (n + 1)) % 2 ^ 64 ≡ l % 2 ^ 64
failed-counted c n l counted = omega (arith, counted)

pub accepts-IsSound : (n : ℕ) (s : Server) → IsSound n s → IsSound n (accept_done false s)
unfolding accept_done started start_accept find
accepts-IsSound n s sound = record {
  counted = incremented-counted s.scount n (length s.living) sound.counted;
  traced = both (silence, accepted) sound.traced;
  busy = λ i member. elim (ℕ_discrete i s.waiting) [
    | yes same ↦ (Session.start Session.create, rw (same, ==_refl s.waiting), start-Busy)
    | no other ↦
        let (t, found, busy) =
          sound.busy i (sym (contains-join_ne i s.waiting s.members other) ∙ member) in
        (t, rw (==_ne i s.waiting other, found), busy)
  ];
}

pub refuses-IsSound : (n : ℕ) (s : Server) → IsSound n s → IsSound (n + 1) (accept_done true s)
unfolding accept_done destroyed start_accept
refuses-IsSound n s sound = record {
  counted = failed-counted s.scount n (length s.living) sound.counted;
  traced = sound.traced;
  busy = sound.busy;
}

-- A session that is in no set and awaits nothing is destroyed.
destroyed-IsSound :
    (n i : ℕ) (t : Session) (s : Server)
    → find i s.living ≡ some t
    → contains i s.members ≡ false
    → IsSound n s
    → IsSound n (destroyed (record s { living = remove i s.living }))
unfolding destroyed
destroyed-IsSound n i t s found outside sound = record {
  counted =
      decremented-counted s.scount n (length (remove i s.living))
        (sound.counted ∙ ap (λ l. l % 2 ^ 64) (sym (length-remove i s.living found)));
  traced = All-remove i s.living sound.traced;
  busy = λ j member.
      let other : j ≢ i = λ same. absurd (ground (arith, ap (λ k. contains k s.members) same)) in
      let (u, at, busy) = sound.busy j member in (u, find-remove_ne j i s.living other ∙ at, busy);
}

release-IsSound :
    (n i : ℕ) (t : Session) (s : Server)
    → find i s.living ≡ some t
    → IsSound n s
    → IsSound n (release i t s)
unfolding release
release-IsSound n i t s found sound = elim (Bool-cases (contains i s.members)) [
  | inl inside ↦ rw inside sound
  | inr outside ↦ rw outside (
      if-either (IsSound n) (under_way t == 0) (destroyed-IsSound n i t s found outside sound)
        sound)
]

-- The session of a completion handler is put back, and leaves the set if the handler has it leave.
answered-IsSound :
    (n i : ℕ) (u : Session) (leaves : Bool) (server : Server) {s : Session}
    → find i server.living ≡ some s
    → IsTraced (settle (u, leaves))
    → (leaves ≡ false → contains i server.members ≡ true → Busy u)
    → IsSound n server
    → IsSound n (answer i (u, leaves) server)
unfolding answer settle
answered-IsSound n i u true server found traced busy sound =
    release-IsSound n i (settle (u, true))
      (record server {
        members = leave i server.members;
        living = put i (settle (u, true)) server.living;
      })
      (find-put_self i (settle (u, true)) server.living found)
      (record {
        counted =
            sound.counted
            ∙ ap (λ l. l % 2 ^ 64) (sym (length-put i (settle (u, true)) server.living));
        traced = All-put i (settle (u, true)) server.living traced sound.traced;
        busy = λ j member.
            let gone = contains-leave_self i server.members in
            let other : j ≢ i = λ same.
              absurd (ground (arith, gone, ap (λ k. contains k (leave i server.members)) same)) in
            let (t, at, goes_on) =
              sound.busy j (sym (contains-leave_ne j i server.members other) ∙ member) in
            (t, find-put_ne j i (settle (u, true)) server.living other ∙ at, goes_on);
      })
answered-IsSound n i u false server found traced busy sound =
    release-IsSound n i u (record server { living = put i u server.living })
      (find-put_self i u server.living found)
      (record {
        counted = sound.counted ∙ ap (λ l. l % 2 ^ 64) (sym (length-put i u server.living));
        traced = All-put i u server.living traced sound.traced;
        busy = λ j member. elim (ℕ_discrete j i) [
          | yes same ↦ (
            u,
            rw same (find-put_self i u server.living found),
            busy refl (ap (λ k. contains k server.members) (sym same) ∙ member),
          )
          | no other ↦
              let (t, at, goes_on) = sound.busy j member in
              (t, find-put_ne j i u server.living other ∙ at, goes_on)
        ];
      })

answer-IsSound :
    (n i : ℕ) (e : Event) (s t : Session) (server : Server)
    → find i server.living ≡ some s
    → take_off e s ≡ some t
    → IsSound n server
    → IsSound n (answer i (handle e (written e s) t) server)
answer-IsSound n i e s t server found taken sound =
    let (w, history) = All-find i server.living sound.traced found in
    let result = handle e (written e s) t in
    answered-IsSound n i result.0 result.1 server found
      (observe e (written e s) t w, completed e history taken)
      (λ stays member.
        let (r, at, busy) = sound.busy i member in
        let same : r ≡ s = cc (at, found) in handle-Busy e s t (subst Busy same busy) taken stays)
      sound

pub deliver-IsSound :
    (n i : ℕ) (e : Event) (s t : Server) → deliver i e s ≡ some t → IsSound n s → IsSound n t
unfolding deliver
deliver-IsSound n i e s t delivered sound = elim (Option-cases (find i s.living)) [
  | inl missing ↦ absurd (ground (arith, missing))
  | inr (u, found) ↦ elim (Option-cases (take_off e u)) [
    | inl impossible ↦ absurd (ground (arith, found, impossible))
    | inr (v, taken) ↦
        let answered : answer i (handle e (written e u) v) s ≡ t = ground (arith, found, taken) in
        subst (IsSound n) answered (answer-IsSound n i e u v s found taken sound)
  ]
]
