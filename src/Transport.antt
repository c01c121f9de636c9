-- ===== src/Transport.antt =====
-- internal/transport: the failures of an exchange, its repetition, the exchange of datagrams and the
-- choice of the interface.
pub mod Failure
pub mod Retry
pub mod Udp
pub mod Pin
