-- ===== src/Util.antt =====
-- The node list helpers of util.go.
pub mod Shuffle
pub mod MoveDead
