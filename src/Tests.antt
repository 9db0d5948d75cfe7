-- ===== src/Tests.antt =====
-- The statements at concrete inputs.
mod Samples
mod Packets
mod Endpoints
mod Sessions
mod HttpSessions
mod HttpRequests
mod Greeting
mod Running
mod Relaying
mod Tunnelling
mod Service
mod Logging
mod Tunnels
mod Mains
pub mod Traffic
pub mod HttpTraffic
pub mod Leaving
pub mod Startup
pub mod TunnelStartup
pub mod Interleaving
pub mod Served
pub mod HttpServed
