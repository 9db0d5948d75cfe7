-- ===== src/Http.antt =====
-- amgi_proxy/http: the HTTP proxy protocol.
pub mod Text
pub mod Splits
pub mod Request
pub mod State
pub mod Callbacks
pub mod Automaton
pub mod Refinement
pub mod Discipline
pub mod Plain
pub mod Safety
pub mod Progress
pub mod Lossless
pub mod Protocol
pub mod Service
pub mod Turns
pub mod Serving
pub mod Counts
pub mod Traffic
pub mod Served
