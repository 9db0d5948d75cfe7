-- ===== src/Tunnel.antt =====
-- amgi_tunnel: a client side of the proxy that forwards each accepted connection over TLS to one target.
pub mod Session
pub mod Events
pub mod Relay
pub mod Completion
pub mod Relaying
pub mod Reads
pub mod Writes
pub mod Step
pub mod Order
pub mod Lossless
pub mod Manager
pub mod Server
pub mod Sessions
pub mod Busy
pub mod Sound
pub mod Histories
pub mod Ending
pub mod Alive
pub mod Answering
pub mod Apart
pub mod Ended
pub mod Leaving
pub mod Main
pub mod Setup
pub mod Startup
pub mod Text
