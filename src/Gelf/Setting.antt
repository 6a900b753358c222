-- ===== src/Gelf/Setting.antt =====
-- Messages that the program makes itself: the constructor of `gelf` without a text, and `setField`,
-- of src/formats/gelf/GelfMessage.cpp and GelfMessage.h. A value is one of `ObjectVariants`, or one
-- of nlohmann's library, whose conversions are given (`none` if they throw a `type_error`).
use iqlogger.Common.{
  ℕ, Bool, true, false, Option, none, some, List, [], ◌∷◌, Bytes, codes, bytes_eq, if◌then◌else◌,
}
use iqlogger.Common.Int.{ℤ, pos}
use iqlogger.Common.Table.{bytes_key, insert}
use iqlogger.Gelf.Json.{Doubles, to_uchar, stoi}
use iqlogger.Gelf.Reading.{Field, text, integer, real, flag, Gelf, prefixed}

pub record Conversions (D J : Type 0) : Type 0 where
  pub as_string : J → Option Bytes
  pub as_double : J → Option D
  pub as_uchar : J → Option ℕ
  pub as_variant : J → Option (Field D)
  -- Of a double, where it is out of range too.
  pub double_to_uchar : D → ℕ

pub data Argument (D J : Type 0) : Type 0 where
  plain : Field D → Argument D J
  json : J → Argument D J

-- What becomes of a value: it is taken, or refused with a warning; or an exception is thrown.
pub data Taken (A : Type 0) : Type 0 where
  taken : A → Taken A
  refused : Taken A
  mistyped : Taken A
  invalid : Taken A

-- The message, and the exception if one has left it so: one of the JSON library, or of `std::stoi`
-- and `std::stod`.
pub data Outcome (A : Type 0) : Type 0 where
  done : A → Outcome A
  type_error : A → Outcome A
  invalid_argument : A → Outcome A

unfoldable pub converted : {A : Type 0} → Option A → Taken A
converted none = mistyped
converted (some a) = taken a

unfoldable pub parsed : {A : Type 0} → Option A → Taken A
parsed none = invalid
parsed (some a) = taken a

unfoldable pub of_bool : Bool → ℤ
of_bool true = pos 1
of_bool false = pos 0

unfoldable pub stored : {A B : Type 0} → Taken A → (A → B) → B → Outcome B
stored (taken a) f b = done (f a)
stored refused f b = done b
stored mistyped f b = type_error b
stored invalid f b = invalid_argument b

-- The rest of what sets fields, which an exception ends.
unfoldable pub set_next : {A : Type 0} → Outcome A → (A → Outcome A) → Outcome A
set_next (done g) rest = rest g
set_next (type_error g) rest = type_error g
set_next (invalid_argument g) rest = invalid_argument g

-- `std::stoi`, stored in an `unsigned char`.
unfoldable pub uchar_of : Option ℤ → Taken ℕ
uchar_of none = invalid
uchar_of (some i) = taken (to_uchar i)

-- `gelf::gelf()`; the name of the host and the time of the call are given.
unfoldable pub new_gelf : {D : Type 0} → Bytes → D → Gelf D
new_gelf hostname now = record {
  version = codes "1.1";
  host = hostname;
  short_message = [];
  full_message = [];
  timestamp = now;
  level = 1;
  additional_fields = [];
}

module _ {D J : Type 0} (doubles : Doubles D) (conversions : Conversions D J) where
  -- `is_constructible_v<std::string, T>`.
  unfoldable pub to_text : Argument D J → Taken Bytes
  unfolding converted
  to_text (plain (text s)) = taken s
  to_text (plain _) = refused
  to_text (json j) = converted (conversions.as_string j)

  unfoldable pub to_time : Argument D J → Taken D
  unfolding converted parsed of_bool
  to_time (plain (text s)) = parsed (doubles.stod s)
  to_time (plain (integer i)) = taken (doubles.of_int i)
  to_time (plain (real d)) = taken d
  to_time (plain (flag b)) = taken (doubles.of_int (of_bool b))
  to_time (json j) = converted (conversions.as_double j)

  unfoldable pub to_level : Argument D J → Taken ℕ
  unfolding converted uchar_of of_bool stoi to_uchar
  to_level (plain (text s)) = uchar_of (stoi s)
  to_level (plain (integer i)) = taken (to_uchar i)
  to_level (plain (real d)) = taken (conversions.double_to_uchar d)
  to_level (plain (flag b)) = taken (to_uchar (of_bool b))
  to_level (json j) = converted (conversions.as_uchar j)

  unfoldable pub to_variant : Argument D J → Taken (Field D)
  unfolding converted
  to_variant (plain f) = taken f
  to_variant (json j) = converted (conversions.as_variant j)

  -- `setField`.
  unfoldable pub set_field : Bytes → Argument D J → Gelf D → Outcome (Gelf D)
  unfolding stored to_text to_time to_level to_variant prefixed
  set_field [] v g = done g
  set_field (c ∷ cs) v g =
      let key = c ∷ cs in
      if bytes_eq key (codes "version")
      then stored (to_text v) (λ s. record g { version = s }) g
      else if bytes_eq key (codes "host")
      then stored (to_text v) (λ s. record g { host = s }) g
      else if bytes_eq key (codes "short_message")
      then stored (to_text v) (λ s. record g { short_message = s }) g
      else if bytes_eq key (codes "full_message")
      then stored (to_text v) (λ s. record g { full_message = s }) g
      else if bytes_eq key (codes "timestamp")
      then stored (to_time v) (λ d. record g { timestamp = d }) g
      else if bytes_eq key (codes "level")
      then stored (to_level v) (λ n. record g { level = n }) g
      else stored (to_variant v)
          (λ f. record g { additional_fields = insert (prefixed key) f g.additional_fields }) g

  unfoldable pub set_fields : List (Bytes × Argument D J) → Gelf D → Outcome (Gelf D)
  unfolding set_next set_field
  set_fields [] g = done g
  set_fields ((key, v) ∷ fields) g = set_next (set_field key v g) (set_fields fields)
