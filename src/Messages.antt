-- ===== src/Messages.antt =====
-- internal/wire/wire.go: the protocol messages and their MessagePack codec.
pub mod Keys
pub mod Types
pub mod Encode
pub mod Decode
pub mod Entries
pub mod RoundTrip
pub mod SourceRoundTrip
pub mod AnyRoundTrip
pub mod Truncation
pub mod Unknown
