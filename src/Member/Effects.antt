-- ===== src/Member/Effects.antt =====
-- What each message does to the table of node states: which entry it may change, and to what.
pub mod AliveEffect
pub mod Edges
