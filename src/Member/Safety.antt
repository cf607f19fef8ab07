-- ===== src/Member/Safety.antt =====
-- The membership protocol of state.go at work: self-defence, refutation, state exchanges, timers,
-- leaving and shutting down.
pub mod Frame
pub mod SelfDefence
pub mod Refutation
pub mod Exchange
pub mod Timers
pub mod Ending
