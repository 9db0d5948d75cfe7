-- ===== src/Proxy/Awaits.antt =====
-- A session that has an operation under way awaits its completion.
use amgi_net_tools.Base.{
  ℕ, zero, suc, ◌+◌, ◌<◌, ◌≡◌, refl, ◌⊎◌, inl, inr, List, [], ◌∷◌, length, some, arith,
}
use amgi_net_tools.Proxy.Store.{Pair}
use amgi_net_tools.Proxy.Load.{load}
use amgi_net_tools.Proxy.Network.{
  Completion, server_handshaken, server_sent, server_received, client_resolved, client_connected,
  client_sent, client_received, take_off, fewer, later,
}

zero-cases : (n : ℕ) → (n ≡ 0) ⊎ (0 < n)
zero-cases zero = inl refl
zero-cases (suc n) = inr (omega arith)

fewer-cases : (n : ℕ) → (n ≡ 0) ⊎ ((k : ℕ) × (fewer n ≡ some k))
fewer-cases zero = inl refl
fewer-cases (suc k) = inr (k, refl)

later-cases : (ns : List ℕ) → (length ns ≡ 0) ⊎ ((ms : List ℕ) × (later ns ≡ some ms))
later-cases [] = inl refl
later-cases (n ∷ ns) = inr (ns, refl)

module _ {S : Type 0} (p : Pair S) where
  abbrev pub Awaits : Type 0
  Awaits = (c : Completion) × (q : Pair S) × (take_off c p ≡ some q)

  server-Awaits : 0 < (load p).handshakes + (load p).server_reads + (load p).server_writes → Awaits
  unfolding take_off
  server-Awaits busy = elim (fewer-cases p.server.handshakes) [
    | inr (k, e) ↦
        (server_handshaken, record p { server = record p.server { handshakes = k } }, rw e refl)
    | inl no_handshake ↦ elim (fewer-cases p.server.reads) [
      | inr (k, e) ↦
          (server_received [], record p { server = record p.server { reads = k } }, rw e refl)
      | inl no_read ↦ elim (later-cases p.server.writes) [
        | inr (ns, e) ↦
            (server_sent, record p { server = record p.server { writes = ns } }, rw e refl)
        | inl no_write ↦ absurd (omega (arith, busy, no_handshake, no_read, no_write))
      ]
    ]
  ]

  client-Awaits :
      0 < (load p).resolves + (load p).connects + (load p).client_reads + (load p).client_writes
      → Awaits
  unfolding take_off
  client-Awaits busy = elim (fewer-cases p.client.resolves) [
    | inr (k, e) ↦
        (client_resolved, record p { client = record p.client { resolves = k } }, rw e refl)
    | inl no_resolve ↦ elim (fewer-cases p.client.connects) [
      | inr (k, e) ↦
          (client_connected, record p { client = record p.client { connects = k } }, rw e refl)
      | inl no_connect ↦ elim (fewer-cases p.client.reads) [
        | inr (k, e) ↦
            (client_received [], record p { client = record p.client { reads = k } }, rw e refl)
        | inl no_read ↦ elim (later-cases p.client.writes) [
          | inr (ns, e) ↦
              (client_sent, record p { client = record p.client { writes = ns } }, rw e refl)
          | inl no_write ↦ absurd (omega (arith, busy, no_resolve, no_connect, no_read, no_write))
        ]
      ]
    ]
  ]

  pub busy-Awaits :
      0
        < (load p).handshakes
          + (load p).server_reads
          + (load p).server_writes
          + (load p).resolves
          + (load p).connects
          + (load p).client_reads
          + (load p).client_writes
      → Awaits
  busy-Awaits busy =
      elim (zero-cases ((load p).handshakes + (load p).server_reads + (load p).server_writes)) [
        | inr more ↦ server-Awaits more
        | inl idle ↦ client-Awaits (omega (arith, busy, idle))
      ]
