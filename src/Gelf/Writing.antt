-- ===== src/Gelf/Writing.antt =====
-- What `gelf::dump` of src/formats/gelf/GelfMessage.cpp hands to the writer of rapidjson: the
-- members of the object, in their order. The text that the writer makes of them is a parameter, `write`
-- of `Codec` (it writes nothing for a double that is infinite or not a number, so that a text with
-- such a timestamp is no document).
use iqlogger.Common.{ℕ, List, [], ◌∷◌, Bytes, codes, ◌==◌, if◌then◌else◌}
use iqlogger.Common.Int.{pos}
use iqlogger.Gelf.Json.{Value, string, int, double, bool, Document, object}
use iqlogger.Gelf.Reading.{Field, text, integer, real, flag, Gelf}

module _ {D : Type 0} where
  -- `utils::json::writeValue`.
  abbrev pub write_value : Field D → Value D
  write_value (text s) = string s
  write_value (integer i) = int i
  write_value (real d) = double d
  write_value (flag b) = bool b

  abbrev pub field_members : List (Bytes × Field D) → List (Bytes × Value D)
  field_members [] = []
  field_members ((key, f) ∷ fields) = (key, write_value f) ∷ field_members fields

  abbrev pub level_members : ℕ → List (Bytes × Value D) → List (Bytes × Value D)
  level_members level ms = if level == 0 then ms else (codes "level", int (pos level)) ∷ ms

  abbrev pub full_message_members : Bytes → List (Bytes × Value D) → List (Bytes × Value D)
  full_message_members [] ms = ms
  full_message_members (c ∷ cs) ms = (codes "full_message", string (c ∷ cs)) ∷ ms

  abbrev pub dump : Gelf D → Document D
  dump g = object (
      (codes "version", string g.version)
      ∷ (codes "host", string g.host)
      ∷ (codes "short_message", string g.short_message)
      ∷ full_message_members g.full_message (
          (codes "timestamp", double g.timestamp)
          ∷ level_members g.level (field_members g.additional_fields)))
