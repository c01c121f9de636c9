-- ===== src/Protocol.antt =====
-- internal/protocol: packets, their cryptographic fields, and the matching of replies.
pub mod Types
pub mod Buffer
pub mod Layout
pub mod Crypto
pub mod Challenge
pub mod Login
pub mod Heartbeat
pub mod Logout
pub mod Packets
pub mod Parsers
pub mod Octets
pub mod Sent
pub mod Response
