-- ===== src/Output/Formats.antt =====
-- The records of a GELF output that are made of messages of the other formats: the constructors of
-- `Record<Gelf>` in src/outputs/gelf/Output.cpp. What they write is `dump` of the message here. The
-- parser of nlohmann's library is given.
pub mod Journal
pub mod Json
use iqlogger.Common.{
  Bool, true, false, not, ◌&&◌, ◌||◌, Option, none, some, List, [], ◌∷◌, Bytes, codes, bytes_eq,
  if◌then◌else◌,
}
use iqlogger.Common.Table.{bytes_key, lookup}
use iqlogger.Common.Result.{Result, ok, exception, std_exception, and_then}
use iqlogger.Gelf.Json.{Doubles}
use iqlogger.Gelf.Reading.{Field, text, real, Gelf}
use iqlogger.Gelf.Message.{Codec, gelf_message}
use iqlogger.Gelf.Setting.{
  Conversions, Argument, plain, json, Outcome, done, type_error, invalid_argument, new_gelf,
  set_field, set_fields, set_next,
}

-- `JournalMessage`: its fields in the order of their iteration, with keys that differ; the time is
-- that of the message in seconds; `text` is `exportMessage`.
pub record JournalMessage (D : Type 0) : Type 0 where
  pub fields : List (Bytes × Field D)
  pub seconds : D
  pub exported : Bytes

-- What nlohmann's library gives for a text, if it is no error: the members of an object; an array;
-- null, which has nothing to iterate over; or another value.
pub data JsonDocument (J : Type 0) : Type 0 where
  members : List (Bytes × J) → JsonDocument J
  elements : List J → JsonDocument J
  null : JsonDocument J
  primitive : J → JsonDocument J

-- What the message of a tailed file is: no JSON, JSON without a member `data`, or with one that is
-- an object or is not.
pub data TailData (J : Type 0) : Type 0 where
  parse_error : TailData J
  without_data : TailData J
  data_object : List (Bytes × J) → TailData J
  data_other : TailData J

-- An exception that no handler of the constructors catches.
unfoldable pub uncaught : {A : Type 0} → Outcome A → Result A
uncaught (done g) = ok g
uncaught (type_error g) = std_exception
uncaught (invalid_argument g) = std_exception

unfoldable pub is_special : Bytes → Bool
is_special key = bytes_eq key (codes "MESSAGE") || bytes_eq key (codes "_HOSTNAME")

-- A JSON message. `key()` throws for an element of an array, and for a value that stands alone.
unfoldable pub without_keys : {A J : Type 0} → (J → Bool) → List J → A → Outcome A
without_keys is_scalar [] g = done g
without_keys is_scalar (j ∷ js) g =
    let rest = without_keys is_scalar js g in if is_scalar j then type_error g else rest

module _ {D J : Type 0} (doubles : Doubles D) (conversions : Conversions D J)
    (hostname : Bytes) where
  -- `data.at("MESSAGE")`.
  unfoldable pub journal_message : Option (Field D) → JournalMessage D → Gelf D → Outcome (Gelf D)
  unfolding set_field
  journal_message (some v) m g = set_field doubles conversions (codes "short_message") (plain v) g
  journal_message none m g =
      set_field doubles conversions (codes "short_message") (plain (text m.exported)) g

  -- `data.at("_HOSTNAME")`.
  unfoldable pub journal_host : Option (Field D) → Gelf D → Outcome (Gelf D)
  unfolding set_field
  journal_host (some v) g = set_field doubles conversions (codes "host") (plain v) g
  journal_host none g = done g

  -- The loop over the fields.
  unfoldable pub journal_fields : List (Bytes × Field D) → Gelf D → Outcome (Gelf D)
  unfolding set_field set_next is_special
  journal_fields [] g = done g
  journal_fields ((key, v) ∷ fields) g =
      set_next (if is_special key then done g else set_field doubles conversions key (plain v) g)
        (journal_fields fields)

  unfoldable pub journal_gelf : D → JournalMessage D → Result (Gelf D)
  unfolding uncaught set_next journal_message journal_host journal_fields new_gelf lookup
  journal_gelf now m = uncaught (
      set_next (journal_message (lookup (codes "MESSAGE") m.fields) m (new_gelf hostname now)) (λ g.
        set_next (set_field doubles conversions (codes "timestamp") (plain (real m.seconds)) g)
          (λ g.
            set_next (journal_host (lookup (codes "_HOSTNAME") m.fields) g)
              (journal_fields m.fields))))

  -- The members that the loops over JSON take: strings, numbers and booleans.
  unfoldable pub set_members : (J → Bool) → List (Bytes × J) → Gelf D → Outcome (Gelf D)
  unfolding set_field set_next
  set_members is_scalar [] g = done g
  set_members is_scalar ((key, j) ∷ ms) g =
      set_next (if is_scalar j then set_field doubles conversions key (json j) g else done g)
        (set_members is_scalar ms)

  unfoldable pub set_document : (J → Bool) → JsonDocument J → Gelf D → Outcome (Gelf D)
  unfolding set_members without_keys
  set_document is_scalar (members ms) g = set_members is_scalar ms g
  set_document is_scalar (elements js) g = without_keys is_scalar js g
  set_document is_scalar null g = done g
  set_document is_scalar (primitive j) g = without_keys is_scalar (j ∷ []) g

  unfoldable pub json_gelf : (J → Bool) → D → JsonDocument J → Result (Gelf D)
  unfolding uncaught set_document new_gelf
  json_gelf is_scalar now document =
      uncaught (set_document is_scalar document (new_gelf hostname now))

  -- `DummyMessage`.
  unfoldable pub dummy_gelf : D → Bytes → Result (Gelf D)
  unfolding uncaught set_field new_gelf
  dummy_gelf now message = uncaught (
      set_field doubles conversions (codes "short_message") (plain (text message))
        (new_gelf hostname now))

  -- The handlers of the constructor for a tailed file's message: what the members set before an
  -- exception of the JSON library stays.
  unfoldable pub tail_members : Bytes → Outcome (Gelf D) → Outcome (Gelf D)
  unfolding set_field
  tail_members message (done g) = done g
  tail_members message (type_error g) =
      set_field doubles conversions (codes "short_message") (plain (text message)) g
  tail_members message (invalid_argument g) = invalid_argument g

  unfoldable pub with_file : Bytes → Gelf D → Outcome (Gelf D)
  unfolding set_field
  with_file filename g = set_field doubles conversions (codes "file") (plain (text filename)) g

  unfoldable pub tail_parsed :
      Codec D → (J → Bool) → TailData J → D → Bytes → Bytes → Result (Gelf D)
  unfolding uncaught set_next set_field tail_members set_members with_file new_gelf gelf_message
      and_then
  tail_parsed codec is_scalar parse_error now message filename = uncaught (
      set_next
        (set_field doubles conversions (codes "short_message") (plain (text message))
          (new_gelf hostname now))
        (with_file filename))
  tail_parsed codec is_scalar without_data now message filename =
      and_then (gelf_message codec doubles now message) (λ g. uncaught (with_file filename g))
  tail_parsed codec is_scalar (data_object ms) now message filename = uncaught (
      set_next (tail_members message (set_members is_scalar ms (new_gelf hostname now)))
        (with_file filename))
  tail_parsed codec is_scalar data_other now message filename = exception

  unfoldable pub tail_gelf :
      Codec D → (J → Bool) → (Bytes → TailData J) → D → Bytes → Bytes → Result (Gelf D)
  unfolding tail_parsed
  tail_gelf codec is_scalar parse now message filename =
      tail_parsed codec is_scalar (parse message) now message filename
