-- ===== src/Protocol.antt =====
-- The protocol library, protocol: what the client and the server exchange.
pub mod Command
pub mod Header
pub mod Bytes
pub mod Clock
pub mod Structs
pub mod Serialize
pub mod Parse
pub mod RoundTrip
