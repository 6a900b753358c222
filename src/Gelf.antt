-- ===== src/Gelf.antt =====
-- GELF messages: src/formats/gelf. A JSON document is what rapidjson makes of a text, and a double
-- is a parameter, with the operations that the code uses. `Object`, an unordered map, is a table in
-- the order in which its keys were added.
pub mod Json
pub mod Reading
pub mod Writing
pub mod Valid
pub mod Checked
pub mod RoundTrip
pub mod Message
pub mod Setting
