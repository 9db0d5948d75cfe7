-- ===== src/Transport.antt =====
-- amgi_proxy/transport: the streams that a session reads and writes.
pub mod Buffer
pub mod ServerStream
pub mod ClientStream
pub mod Effects
pub mod Endpoint
