-- ===== src/Tests/OutputFormats.antt =====
-- A record of the journal, a JSON message and a line of a file at a GELF output; the JSON values are
-- natural numbers, of which all but 0 are scalars.
use iqlogger.Common.{
  ℕ, ◌≡◌, refl, Bool, not, none, some, [], ◌∷◌, Bytes, codes, bytes_eq, ◌==◌, arith, inl, true,
  false, ◌&&◌, ◌%◌, IsText,
}
use iqlogger.Common.Int.{pos}
use iqlogger.Common.Result.{ok}
use iqlogger.Common.Table.{bytes_key, lookup}
use iqlogger.Gelf.Json.{malformed}
use iqlogger.Gelf.Reading.{text, integer, Gelf, prefixed, is_system_field}
use iqlogger.Gelf.Writing.{dump}
use iqlogger.Gelf.Message.{Codec, gelf_message, export_message, IsWritten}
use iqlogger.Gelf.Setting.{Conversions}
use iqlogger.Pipeline.{import_bulk}
use iqlogger.Output.Formats.{
  JournalMessage, is_special, journal_gelf, members, primitive, json_gelf,
}
use iqlogger.Output.Formats.Journal.{IsRecord, IsJournalField, made, journal_gelf-sent}
use iqlogger.Output.Formats.Json.{import_bulk_keyless}
use iqlogger.Tests.GelfFormat.{whole_doubles}

abbrev conversions : Conversions ℕ ℕ
conversions = record {
  as_string = λ j. none;
  as_double = λ j. some j;
  as_uchar = λ j. some (j % 256);
  as_variant = λ j. some (integer (pos j));
  double_to_uchar = λ d. d % 256;
}

abbrev is_scalar : ℕ → Bool
is_scalar j = not (j == 0)

-- The field `B` comes before `_B`, and its value is the one that is sent.
abbrev entry : JournalMessage ℕ
entry = record {
  fields =
      (codes "B", text (codes "x"))
      ∷ (codes "MESSAGE", text (codes "hi"))
      ∷ (codes "_HOSTNAME", text (codes "h"))
      ∷ (codes "_B", text (codes "y"))
      ∷ [];
  seconds = 1_600_000_000;
  exported = [];
}

abbrev no_zero : Bytes → Bool
no_zero [] = true
no_zero (c ∷ cs) = not (c == 0) && no_zero cs

no_zero-IsText : (b : Bytes) → no_zero b ≡ true → IsText b
no_zero-IsText [] h = tt
no_zero-IsText (c ∷ cs) h = (ground arith, no_zero-IsText cs (ground arith))

field-IsJournalField :
    (c : ℕ) (cs value : Bytes)
    → no_zero (c ∷ cs) ≡ true
    → is_system_field (c ∷ cs) ≡ false
    → no_zero value ≡ true
    → IsJournalField {D = ℕ} (c ∷ cs, text value)
field-IsJournalField c cs value h k l =
    ((λ e. cc), no_zero-IsText (c ∷ cs) h, k, no_zero-IsText value l)

entry-IsRecord : IsRecord whole_doubles conversions (codes "n") (codes "hi") (codes "h") entry
unfolding lookup bytes_eq is_system_field
entry-IsRecord = record {
  has_message = refl;
  message_text = (ground arith, (ground arith, tt));
  message_some = ground arith;
  has_host = inl refl;
  host_text = (ground arith, tt);
  host_some = ground arith;
  in_time = refl;
  fields = (
    field-IsJournalField _ _ (codes "x") refl refl refl,
    (
      field-IsJournalField _ _ (codes "hi") refl refl refl,
      (
        field-IsJournalField _ _ (codes "h") refl refl refl,
        (field-IsJournalField _ _ (codes "y") refl refl refl, tt),
      ),
    ),
  );
}

-- Libraries that write every document as `{}.`, and read the message of the entry.
abbrev entry_codec : Codec ℕ
entry_codec = record {
  gunzip = λ b. none;
  inflate = λ b. none;
  parse = λ b. dump (made whole_doubles conversions (codes "n") (codes "hi") (codes "h") entry);
  write = λ d. codes "{}.";
}

entry-IsWritten :
    IsWritten entry_codec whole_doubles
      (made whole_doubles conversions (codes "n") (codes "hi") (codes "h") entry)
entry-IsWritten = record {
  text = (ground arith, (ground arith, (ground arith, tt)));
  rest = codes "}.";
  braces = refl;
  size = omega arith;
  parses = refl;
}

journal_gelf-sent_example :
    (g : Gelf ℕ) × (journal_gelf whole_doubles conversions (codes "n") 7 entry ≡ ok g)
    × (gelf_message entry_codec whole_doubles 9 (export_message entry_codec whole_doubles g) ≡ ok g)
    × (g.short_message ≡ codes "hi")
    × (g.host ≡ codes "h")
    × (g.timestamp ≡ 1_600_000_000)
    × (lookup (codes "_B") g.additional_fields ≡ some (text (codes "x")))
unfolding is_special prefixed bytes_eq
journal_gelf-sent_example =
    journal_gelf-sent whole_doubles conversions (codes "n") entry_codec 7 9 (codes "hi") (codes "h")
      (codes "_B") entry entry-IsRecord entry-IsWritten

import_bulk_keyless_example :
    import_bulk (members ((codes "a", 1) ∷ []) ∷ primitive 5 ∷ []) (record {
      convert = json_gelf whole_doubles conversions (codes "n") is_scalar 1_600_000_000;
      enqueued = [];
    })
    ≡ none
import_bulk_keyless_example =
    import_bulk_keyless whole_doubles conversions (codes "n") is_scalar 1_600_000_000
      (members ((codes "a", 1) ∷ []) ∷ []) [] (primitive 5) [] refl

abbrev codec : Codec ℕ
codec = record { gunzip = λ b. none; inflate = λ b. none; parse = λ b. malformed; write = λ d. [] }
