-- ===== src/Udp.antt =====
-- The GELF input over UDP: src/inputs/gelf/udp.
pub mod Chunk
pub mod Session
pub mod Reassembly
pub mod Delivery
pub mod Others
pub mod Traffic
