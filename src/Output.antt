-- ===== src/Output.antt =====
-- The outputs: src/outputs.
pub mod Gelf
pub mod Formats
