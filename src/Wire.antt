-- ===== src/Wire.antt =====
-- The framing of packets: labels and compound messages.
pub mod Label
pub mod Compound
