-- ===== src/Proxy/Carry.antt =====
-- What a session of the proxy passes on while it relays, whatever its protocol.
use amgi_net_tools.Base.{
  ℕ, suc, ◌+◌, ◌≤◌, ◌≡◌, refl, [], ◌∷◌, ◌++◌, Bytes, Result, ok, some, length, take,
}
use amgi_net_tools.Base.Pipe.{
  Wire, silence, first_or, Passes, Pipe, awaiting, Pipe-receive, Pipe-sent, Pipe-same, Pipe-rest,
  Pipe-cut-Passes,
}
use amgi_net_tools.Transport.Buffer.{max_buffer_size}
use amgi_net_tools.Proxy.Store.{Pair}
use amgi_net_tools.Proxy.Events.{Event, Outcome, goes_on}
use amgi_net_tools.Proxy.Network.{
  Completion, server_sent, server_received, server_failed, client_sent, client_received,
  client_failed, take_off, handle,
}

abbrev pub InOrder : Wire → Type 0
InOrder w =
    Passes max_buffer_size w.from_local w.to_remote
    × Passes max_buffer_size w.from_remote w.to_local

-- The most that is sent of a write on each side.
pub record Cut : Type 0 where
  pub local : ℕ
  pub remote : ℕ

module _ {S : Type 0} where
  -- What is sent of the oldest write of each side where an operation fails: by a write that fails, before it does, and by one
  -- that is under way, later.
  abbrev cut_off : Cut → Pair S → Wire → Wire
  cut_off k p w = record w {
    to_local = w.to_local ++ take k.local (take (first_or 0 p.server.writes) p.server.write_buffer);
    to_remote =
        w.to_remote ++ take k.remote (take (first_or 0 p.client.writes) p.client.write_buffer);
  }

  -- The bytes that pass with a completion. A write sends the first bytes of its buffer, as they are when it completes. An error, or
  -- the end of the remote side, ends a session that relays: with it pass the bytes that its writes have sent or still send.
  abbrev pub observe : Cut → Completion → Pair S → Wire → Wire
  observe k (server_received bytes) p w = record w { from_local = w.from_local ++ bytes }
  observe k (client_received []) p w = cut_off k p w
  observe k (client_received (b ∷ bs)) p w = record w { from_remote = w.from_remote ++ b ∷ bs }
  observe k server_sent p w = record w {
    to_local = w.to_local ++ take (first_or 0 p.server.writes) p.server.write_buffer;
  }
  observe k client_sent p w = record w {
    to_remote = w.to_remote ++ take (first_or 0 p.client.writes) p.client.write_buffer;
  }
  observe k (server_failed op ec) p w = cut_off k p w
  observe k (client_failed op ec) p w = cut_off k p w
  observe k _ p w = w

  -- The pairs that a session goes through from one that it starts with, and the bytes that have passed since.
  pub data Relays (react : Event → Pair S → Result (Outcome S)) (start : Pair S)
      : Pair S → Wire → Type 0 where
    begun : Relays react start start silence
    passed :
        {p q r : Pair S} {w : Wire} (k : Cut) (c : Completion)
        → Relays react start p w
        → take_off c p ≡ some q
        → handle react c q ≡ ok (goes_on r)
        → Relays react start r (observe k c p w)

  -- Neither direction is changed.
  pub record SameOut (p r : Pair S) : Type 0 where
    pub reads : r.server.reads ≡ p.server.reads
    pub writes : r.client.writes ≡ p.client.writes
    pub buffer : r.client.write_buffer ≡ p.client.write_buffer

  pub record SameIn (p r : Pair S) : Type 0 where
    pub reads : r.client.reads ≡ p.client.reads
    pub writes : r.server.writes ≡ p.server.writes
    pub buffer : r.server.write_buffer ≡ p.server.write_buffer

  -- What a completion does to a pair that relays: what was read is written on, and what was written has the next read.
  pub data Carries (p r : Pair S) : Completion → Type 0 where
    takes_out :
        (bytes : Bytes)
        → length bytes ≤ max_buffer_size
        → p.server.reads ≡ suc r.server.reads
        → r.client.writes ≡ p.client.writes ++ length bytes ∷ []
        → take (length bytes) r.client.write_buffer ≡ bytes
        → SameIn p r
        → Carries p r (server_received bytes)
    takes_in :
        (b : ℕ) (bs : Bytes)
        → length (b ∷ bs) ≤ max_buffer_size
        → p.client.reads ≡ suc r.client.reads
        → r.server.writes ≡ p.server.writes ++ length (b ∷ bs) ∷ []
        → take (length (b ∷ bs)) r.server.write_buffer ≡ b ∷ bs
        → SameOut p r
        → Carries p r (client_received (b ∷ bs))
    gives_out :
        p.client.writes ≡ first_or 0 p.client.writes ∷ r.client.writes
        → r.client.write_buffer ≡ p.client.write_buffer
        → r.server.reads ≡ p.server.reads + 1
        → SameIn p r
        → Carries p r client_sent
    gives_in :
        p.server.writes ≡ first_or 0 p.server.writes ∷ r.server.writes
        → r.server.write_buffer ≡ p.server.write_buffer
        → r.client.reads ≡ p.client.reads + 1
        → SameOut p r
        → Carries p r server_sent

  -- Both directions of a pair that relays.
  pub record IsCarrying (p : Pair S) (w : Wire) : Type 0 where
    pub outwards :
        Pipe max_buffer_size p.server.reads p.client.writes p.client.write_buffer w.from_local
          w.to_remote
    pub inwards :
        Pipe max_buffer_size p.client.reads p.server.writes p.server.write_buffer w.from_remote
          w.to_local

  pub Carries-IsCarrying :
      (k : Cut) (p r : Pair S) (w : Wire) (c : Completion)
      → Carries p r c
      → IsCarrying p w
      → IsCarrying r (observe k c p w)
  Carries-IsCarrying k p r w c (takes_out bytes fits fewer_reads queued filled same) t = record {
    outwards =
        Pipe-same refl queued refl
          (Pipe-receive bytes r.client.write_buffer filled fits fewer_reads t.outwards);
    inwards = Pipe-same same.reads same.writes same.buffer t.inwards;
  }
  Carries-IsCarrying k p r w c (takes_in b bs fits fewer_reads queued filled same) t = record {
    outwards = Pipe-same same.reads same.writes same.buffer t.outwards;
    inwards =
        Pipe-same refl queued refl
          (Pipe-receive (b ∷ bs) r.server.write_buffer filled fits fewer_reads t.inwards);
  }
  Carries-IsCarrying k p r w c (gives_out fewer_writes kept more same) t = record {
    outwards =
        Pipe-same more refl kept (Pipe-sent (first_or 0 p.client.writes) fewer_writes t.outwards);
    inwards = Pipe-same same.reads same.writes same.buffer t.inwards;
  }
  Carries-IsCarrying k p r w c (gives_in fewer_writes kept more same) t = record {
    outwards = Pipe-same same.reads same.writes same.buffer t.outwards;
    inwards =
        Pipe-same more refl kept (Pipe-sent (first_or 0 p.server.writes) fewer_writes t.inwards);
  }

  pub IsCarrying-InOrder : (p : Pair S) (w : Wire) → IsCarrying p w → InOrder w
  IsCarrying-InOrder p w t =
      let (out, out_same, out_fits) = Pipe-rest t.outwards in
      let (inn, in_same, in_fits) = Pipe-rest t.inwards in
      ((out, out_same, out_fits), (inn, in_same, in_fits))

  -- The bytes that pass where an operation fails are the first of those that are still to leave.
  pub cut_off-InOrder : (k : Cut) (p : Pair S) (w : Wire) → IsCarrying p w → InOrder (cut_off k p w)
  cut_off-InOrder k p w t = (Pipe-cut-Passes k.remote t.outwards, Pipe-cut-Passes k.local t.inwards)

  -- A pair with a read under way on each side, and no write, starts to relay.
  pub fresh-IsCarrying :
      (p : Pair S)
      → p.server.reads ≡ 1
      → p.client.reads ≡ 1
      → p.server.writes ≡ []
      → p.client.writes ≡ []
      → IsCarrying p silence
  fresh-IsCarrying p local_read remote_read no_local_write no_remote_write = record {
    outwards = awaiting local_read no_remote_write refl;
    inwards = awaiting remote_read no_local_write refl;
  }

  -- A protocol that, in some states, carries all completions on and stays in these states relays in order.
  module _ (react : Event → Pair S → Result (Outcome S)) (start : Pair S) (Stays : Pair S → Type 0)
      (carries : (p q r : Pair S) (c : Completion)
        → Stays p
        → take_off c p ≡ some q
        → handle react c q ≡ ok (goes_on r)
        → Carries p r c × Stays r)
      (stays : Stays start) (fresh : IsCarrying start silence) where
    pub relays_on : (p : Pair S) (w : Wire) → Relays react start p w → Stays p × IsCarrying p w
    relays_on p w begun = (stays, fresh)
    relays_on r w (passed {p} {q} {w = v} k c earlier taken answered) =
        let (stays_there, t) = relays_on p v earlier in
        let (carried, stays_on) = carries p q r c stays_there taken answered in
        (stays_on, Carries-IsCarrying k p r v c carried t)
