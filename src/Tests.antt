-- ===== src/Tests.antt =====
-- Concrete inputs for the theorems on the protocol, the transport and the runner.
mod Samples
mod Packets
mod Octets
mod Replies
mod Exchanges
mod Sessions
mod Wires
mod Pins
mod Opens
mod Commands
mod Settings
mod Supervision
mod Tray
mod Logs
mod Datagrams
mod Startup
mod Adapters
