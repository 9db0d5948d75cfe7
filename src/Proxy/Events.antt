-- ===== src/Proxy/Events.antt =====
-- What a stream reports to the manager of its session, and what a session on its own answers.
use amgi_net_tools.Base.{ℕ, Bytes}
use amgi_net_tools.Proxy.Errors.{ErrorCode}
use amgi_net_tools.Proxy.Store.{Pair, StreamManager}
use amgi_net_tools.Proxy.Local.{hold, drop}

-- The callbacks of stream_manager.h, less `on_accept` and `on_close`. The events of a write and of a
-- connect carry an empty buffer, which no state reads.
pub data Event : Type 0 where
  server_read : Bytes → Event
  server_write : Event
  server_error : ErrorCode → Event
  client_connect : Event
  client_read : Bytes → Event
  client_write : Event
  client_error : ErrorCode → Event

-- A session goes on with its pair changed, or ends with its streams stopped.
pub data Outcome (S : Type 0) : Type 0 where
  goes_on : Pair S → Outcome S
  ends : Pair S → Outcome S

-- The manager after the session under `k` has answered.
unfoldable pub commit : {S : Type 0} → ℕ → Outcome S → StreamManager S → StreamManager S
commit k (goes_on p) m = hold k p m
commit k (ends p) m = drop k p m
