-- ===== src/Proxy/Errors.antt =====
-- The error codes of asio that the states of a session test. Their numbers are asio's and the
-- platform's, so they are a parameter.
use amgi_net_tools.Base.{ℕ, Bytes}

-- `net::error_code`, by what the code asks of it: `value()`, which is 0 where there is no error, and
-- `message()`.
pub record ErrorCode : Type 0 where
  pub value : ℕ
  pub message : Bytes

-- The constants of `net::error`.
pub record NetErrors : Type 0 where
  pub network_unreachable : ℕ
  pub host_unreachable : ℕ
  pub host_not_found : ℕ
  pub no_data : ℕ
  pub connection_refused : ℕ
  pub connection_aborted : ℕ
  pub connection_reset : ℕ
  pub timed_out : ℕ
