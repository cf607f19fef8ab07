-- ===== src/Packet.antt =====
-- net.go: the packets that a memberlist takes from its transport.
pub mod Types
pub mod Acks
pub mod Receive
pub mod Handle
pub mod Listening
pub mod Run
pub mod Refinement
pub mod Draining
pub mod Safety
pub mod Send
pub mod RoundTrip
pub mod Delivery
pub mod AckLaws
pub mod Piggyback
