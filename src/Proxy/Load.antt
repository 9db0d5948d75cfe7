-- ===== src/Proxy/Load.antt =====
-- The operations that a session has under way.
use amgi_net_tools.Base.{ℕ, ◌≡◌, length}
use amgi_net_tools.Proxy.Store.{Pair}

-- The numbers of operations under way.
pub record Load : Type 0 where
  pub handshakes : ℕ
  pub server_reads : ℕ
  pub server_writes : ℕ
  pub resolves : ℕ
  pub connects : ℕ
  pub client_reads : ℕ
  pub client_writes : ℕ

abbrev pub load : {S : Type 0} → Pair S → Load
load p = record {
  handshakes = p.server.handshakes;
  server_reads = p.server.reads;
  server_writes = length p.server.writes;
  resolves = p.client.resolves;
  connects = p.client.connects;
  client_reads = p.client.reads;
  client_writes = length p.client.writes;
}

abbrev pub ClientIdle : Load → Type 0
ClientIdle l = (l.resolves ≡ 0) × (l.connects ≡ 0) × (l.client_reads ≡ 0) × (l.client_writes ≡ 0)
