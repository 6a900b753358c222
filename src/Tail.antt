-- ===== src/Tail.antt =====
-- The tail input: src/inputs/tail.
pub mod Lines
pub mod Blocks
pub mod Matches
pub mod Reader
pub mod Growth
pub mod Truncation
pub mod Positions
pub mod Monitor
pub mod Message
