-- ===== src/Proxy/Counts.antt =====
-- The counts of the bytes that a session of the proxy relays, whatever its protocol.
use amgi_net_tools.Base.{
  ◌∷◌, ℕ, ◌+◌, ◌%◌, ◌^◌, ◌<◌, ◌≡◌, [], Bytes, Result, ok, some, length, length-append, arith,
}
use amgi_net_tools.Base.Pipe.{Wire}
use amgi_net_tools.Proxy.Store.{Pair, Context}
use amgi_net_tools.Proxy.Events.{Event, Outcome, goes_on}
use amgi_net_tools.Proxy.Network.{Completion, server_received, client_received, take_off, handle}
use amgi_net_tools.Proxy.Carry.{Cut, observe, Relays, begun, passed}

-- A count of 64 bits.
abbrev pub count : ℕ → ℕ
count n = n % 2 ^ 64

-- The counts of a session and the bytes that came in on the two connections.
pub record IsCounted (first now : Context) (w : Wire) : Type 0 where
  pub to_remote :
      now.transferred_bytes_to_remote
      ≡ count (first.transferred_bytes_to_remote + length w.from_local)
  pub to_local :
      now.transferred_bytes_to_local
      ≡ count (first.transferred_bytes_to_local + length w.from_remote)

-- The bytes that a completion brings from each side.
abbrev pub from_local : Completion → Bytes
from_local (server_received bytes) = bytes
from_local _ = []

abbrev pub from_remote : Completion → Bytes
from_remote (client_received bytes) = bytes
from_remote _ = []

-- What a completion adds to the counts.
pub record Tallies (before after : Context) (c : Completion) : Type 0 where
  pub to_remote :
      after.transferred_bytes_to_remote
      ≡ count (before.transferred_bytes_to_remote + length (from_local c))
  pub to_local :
      after.transferred_bytes_to_local
      ≡ count (before.transferred_bytes_to_local + length (from_remote c))

count-small : (n : ℕ) → n < 2 ^ 64 → n ≡ count (n + 0)
count-small n small = omega (arith, small)

abbrev pub IsSmall : Context → Type 0
IsSmall c = (c.transferred_bytes_to_remote < 2 ^ 64) × (c.transferred_bytes_to_local < 2 ^ 64)

IsCounted-IsSmall : (first now : Context) (w : Wire) → IsCounted first now w → IsSmall now
IsCounted-IsSmall first now w t = (omega (arith, t.to_remote), omega (arith, t.to_local))

module _ {S : Type 0} where
  Tallies-IsCounted :
      (k : Cut) (first now after : Context) (p : Pair S) (w : Wire) (c : Completion)
      → Tallies now after c
      → IsCounted first now w
      → IsCounted first after (observe k c p w)
  Tallies-IsCounted k first now after p w (server_received bytes) step t = record {
    to_remote = omega (arith, t.to_remote, step.to_remote, length-append w.from_local bytes);
    to_local = omega (arith, t.to_local, step.to_local);
  }
  Tallies-IsCounted k first now after p w (client_received []) step t = record {
    to_remote = omega (arith, t.to_remote, step.to_remote);
    to_local = omega (arith, t.to_local, step.to_local);
  }
  Tallies-IsCounted k first now after p w (client_received (b ∷ bs)) step t = record {
    to_remote = omega (arith, t.to_remote, step.to_remote);
    to_local = omega (arith, t.to_local, step.to_local, length-append w.from_remote (b ∷ bs));
  }
  Tallies-IsCounted k first now after p w _ step t = record {
    to_remote = omega (arith, t.to_remote, step.to_remote);
    to_local = omega (arith, t.to_local, step.to_local);
  }

  -- A protocol whose completions are each tallied, in some states that it stays in, counts all bytes that come in.
  module _ (react : Event → Pair S → Result (Outcome S)) (start : Pair S) (Stays : Pair S → Type 0)
      (stays : (p : Pair S) (w : Wire) → Relays react start p w → Stays p)
      (tallies : (p q r : Pair S) (c : Completion)
        → Stays p
        → IsSmall p.session.context
        → take_off c p ≡ some q
        → handle react c q ≡ ok (goes_on r)
        → Tallies p.session.context r.session.context c)
      (small : IsSmall start.session.context) where
    pub Relays-IsCounted :
        (p : Pair S) (w : Wire)
        → Relays react start p w
        → IsCounted start.session.context p.session.context w
    Relays-IsCounted p w begun = record {
      to_remote = count-small start.session.context.transferred_bytes_to_remote small.0;
      to_local = count-small start.session.context.transferred_bytes_to_local small.1;
    }
    Relays-IsCounted r w (passed {p} {q} {w = v} k c earlier taken answered) =
        let so_far = Relays-IsCounted p v earlier in
        let c0 = start.session.context in
        let c1 = p.session.context in
        Tallies-IsCounted k c0 c1 r.session.context p v c
          (tallies p q r c (stays p v earlier) (IsCounted-IsSmall c0 c1 v so_far) taken answered)
          so_far
