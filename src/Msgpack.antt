-- ===== src/Msgpack.antt =====
-- internal/msgpack: the subset of MessagePack that the messages use.
pub mod Reader
pub mod Append
pub mod Read
pub mod Skip
pub mod RoundTrip
pub mod RawRoundTrip
pub mod Stable
pub mod SkipValue
