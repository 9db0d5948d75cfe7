-- ===== src/Socks5.antt =====
-- amgi_proxy/socks5: the SOCKS5 protocol.
pub mod Packet
pub mod State
pub mod Callbacks
pub mod Automaton
pub mod Refinement
pub mod Answers
pub mod Discipline
pub mod Safety
pub mod Relay
pub mod Progress
pub mod Turns
pub mod Serving
pub mod Lossless
pub mod Protocol
pub mod Service
pub mod Counts
pub mod Traffic
pub mod Served
