-- ===== src/Tests.antt =====
-- Runs at concrete inputs, and the theorems at inputs that meet their hypotheses.
mod Fixture
mod MemberRuns
mod QueueRuns
mod WireRuns
mod CodecRuns
mod PacketRuns
