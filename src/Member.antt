-- ===== src/Member.antt =====
-- The membership state machine of state.go and memberlist.go: what a node knows of the others, and
-- how each message, timer and lifecycle call changes it.
pub mod Types
pub mod Nodes
pub mod Alive
pub mod Dead
pub mod Suspect
pub mod Merge
pub mod Lifecycle
pub mod Effects
pub mod Run
pub mod Protocol
pub mod Invariant
pub mod Safety
