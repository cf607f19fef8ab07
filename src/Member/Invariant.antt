-- ===== src/Member/Invariant.antt =====
-- The invariant of the membership tables of state.go, operation by operation.
pub mod Defs
pub mod Shared
pub mod AliveKeeps
pub mod DeadKeeps
pub mod SuspectKeeps
pub mod LifecycleKeeps
