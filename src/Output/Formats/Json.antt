-- ===== src/Output/Formats/Json.antt =====
-- JSON messages and the lines of files at a GELF output.
use iqlogger.Common.{
  IsText, ◌≡◌, ◌≢◌, refl, Bool, true, false, none, some, List, [], ◌∷◌, ◌++◌, Bytes, codes, arith,
  Bool-cases, bytes_eq, inl, inr,
}
use iqlogger.Common.Table.{bytes_key, lookup, insert}
use iqlogger.Common.Result.{ok, std_exception}
use iqlogger.Gelf.Json.{Doubles}
use iqlogger.Gelf.Reading.{text, Gelf, gelf, prefixed}
use iqlogger.Gelf.Writing.{dump}
use iqlogger.Gelf.RoundTrip.{gelf-dump}
use iqlogger.Gelf.Message.{Codec}
use iqlogger.Gelf.Setting.{Conversions, new_gelf, type_error}
use iqlogger.Pipeline.{import_bulk}
use iqlogger.Pipeline.Import.{export_all_std}
use iqlogger.Output.Formats.{
  JsonDocument, members, null, uncaught, elements, primitive, without_keys, set_document, json_gelf,
  TailData, parse_error, tail_gelf, with_file,
}

-- A document that is iterated over and has no keys, and is a string, a number or a boolean, or has
-- one among its elements.
abbrev pub IsKeyless : {J : Type 0} → (J → Bool) → JsonDocument J → Type 0
IsKeyless {J} is_scalar (elements js) =
    (j : J) × (before : List J) × (after : List J) × (js ≡ before ++ (j ∷ after))
    × (is_scalar j ≡ true)
IsKeyless is_scalar (primitive j) = is_scalar j ≡ true
IsKeyless is_scalar _ = ⊥

without_keys-throws :
    {A J : Type 0} (is_scalar : J → Bool) (before after : List J) (j : J) (g : A)
    → is_scalar j ≡ true
    → without_keys is_scalar (before ++ (j ∷ after)) g ≡ type_error g
unfolding without_keys
without_keys-throws is_scalar [] after j g h = rw h refl
without_keys-throws is_scalar (x ∷ before) after j g h = elim (Bool-cases (is_scalar x)) [
  | inl e ↦ rw e refl
  | inr e ↦ rw e (without_keys-throws is_scalar before after j g h)
]

module _ {D J : Type 0} (doubles : Doubles D) (conversions : Conversions D J)
    (hostname : Bytes) where
  json_gelf-throws :
      (is_scalar : J → Bool) (now : D) (document : JsonDocument J)
      → IsKeyless is_scalar document
      → json_gelf doubles conversions hostname is_scalar now document ≡ std_exception
  unfolding json_gelf set_document uncaught
  json_gelf-throws is_scalar now (members ms) h = elim h [ ]
  json_gelf-throws is_scalar now (elements js) (j, before, after, e, h) =
      rw (e, without_keys-throws is_scalar before after j (new_gelf hostname now) h) refl
  json_gelf-throws is_scalar now null h = elim h [ ]
  json_gelf-throws is_scalar now (primitive j) h =
      rw (without_keys-throws is_scalar [] [] j (new_gelf hostname now) h) refl

  -- A JSON message that is a number, a string or a boolean, or an array with one of these, ends the
  -- thread that gives the messages to a GELF output, whatever the other messages of the bulk are.
  pub import_bulk_keyless :
      (is_scalar : J → Bool) (now : D) (before after : List (JsonDocument J))
      (document : JsonDocument J) (enqueued : List (Gelf D))
      → IsKeyless is_scalar document
      → import_bulk (before ++ (document ∷ after)) (record {
        convert = json_gelf doubles conversions hostname is_scalar now;
        enqueued = enqueued;
      })
        ≡ none
  unfolding import_bulk
  import_bulk_keyless is_scalar now before after document enqueued h =
      rw
        (export_all_std (json_gelf doubles conversions hostname is_scalar now) before document after
          (json_gelf-throws is_scalar now document h))
        refl

  -- A line that is made a message of its own.
  abbrev line_gelf : Bytes → Bytes → D → Gelf D
  line_gelf message filename now = record {
    version = codes "1.1";
    host = hostname;
    short_message = message;
    full_message = [];
    timestamp = now;
    level = 1;
    additional_fields = (codes "_file", text filename) ∷ [];
  }

  -- A line of a file that is no JSON and not empty becomes a message with this text and the name of
  -- the file, which a GELF input reads as the same message from the document that is written; the
  -- machine must have a name, and the time must be one that GELF allows.
  pub tail_gelf-sent :
      (codec : Codec D) (is_scalar : J → Bool) (parse : Bytes → TailData J) (now later : D)
      (message filename : Bytes)
      → parse message ≡ parse_error
      → IsText message
      → message ≢ []
      → IsText filename
      → IsText hostname
      → hostname ≢ []
      → doubles.is_early now ≡ false
      → (g : Gelf D) × (tail_gelf doubles conversions hostname codec is_scalar parse now message
            filename
          ≡ ok g)
        × (gelf doubles later (dump g) ≡ ok g)
        × (g.short_message ≡ message)
        × (lookup (codes "_file") g.additional_fields ≡ some (text filename))
  unfolding tail_gelf lookup with_file bytes_eq insert prefixed
  tail_gelf-sent codec is_scalar parse now later message filename e t n ft ht hn early = (
    line_gelf message filename now,
    rw e refl,
    gelf-dump doubles later (line_gelf message filename now) (record {
      version_1 = refl;
      host_text = ht;
      host_some = hn;
      short_message_text = t;
      short_message_some = n;
      full_message_text = tt;
      in_time = early;
      level_low = omega arith;
      level_high = omega arith;
      fields = (
        (((refl, (ground arith, (ground arith, (ground arith, (ground arith, tt))))), ft), tt),
        (refl, tt),
      );
    }),
    refl,
    refl,
  )
