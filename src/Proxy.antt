-- ===== src/Proxy.antt =====
-- amgi_proxy: sessions and the manager that owns them. The two protocols' managers and sessions
-- have the same text but for the states of a session, which are a parameter here.
pub mod Store
pub mod Traffic
pub mod StreamManager
pub mod Session
pub mod Local
pub mod Errors
pub mod Events
pub mod Network
pub mod Load
pub mod Awaits
pub mod Run
pub mod Carry
pub mod Acceptor
pub mod Protocol
pub mod Isolation
pub mod Deliver
pub mod Histories
pub mod Service
pub mod Follows
pub mod Counts
pub mod Setup
pub mod Startup
pub mod Interleaving
