-- ===== src/Tests/GelfFormat.antt =====
-- GELF messages over doubles that are natural numbers.
use iqlogger.Common.{ℕ, refl, [], ◌∷◌, codes, bytes_eq, ltb, arith}
use mathlib.Core.Option
use iqlogger.Common.Int.{ℤ, pos, negsuc}
use iqlogger.Common.Table.{lookup}
use iqlogger.Gelf.Json.{Doubles, string, int, Document, object, stoi}
use iqlogger.Gelf.Reading.{text, integer, Gelf, gelf}
use iqlogger.Gelf.Valid.{IsValid}
use iqlogger.Gelf.Checked.{Ensures, gelf-IsValid}

abbrev magnitude : ℤ → ℕ
magnitude (pos n) = n
magnitude (negsuc n) = 0

abbrev pub whole_doubles : Doubles ℕ
whole_doubles = record {
  of_int = magnitude;
  stod = λ b. Option.map magnitude (stoi b);
  is_early = λ d. ltb d 1_546_300_800;
}

abbrev pub message : Gelf ℕ
message = record {
  version = codes "1.1";
  host = codes "h";
  short_message = codes "hi";
  full_message = [];
  timestamp = 1_600_000_000;
  level = 3;
  additional_fields = (codes "_a", text (codes "b")) ∷ (codes "_n", integer (negsuc 4)) ∷ [];
}

pub message-IsValid : IsValid whole_doubles message
unfolding lookup bytes_eq
message-IsValid = record {
  version_1 = refl;
  host_text = (ground arith, tt);
  host_some = ground arith;
  short_message_text = (ground arith, (ground arith, tt));
  short_message_some = ground arith;
  full_message_text = tt;
  in_time = refl;
  level_low = omega arith;
  level_high = omega arith;
  fields = (
    (((refl, (ground arith, tt)), (ground arith, tt)), (((refl, (ground arith, tt)), tt), tt)),
    (refl, (refl, tt)),
  );
}

-- A level of 257 is taken for 1, and the key `a` gets its underscore.
abbrev wrapped : Document ℕ
wrapped = object (
    (codes "version", string (codes "1.1"))
    ∷ (codes "host", string (codes "h"))
    ∷ (codes "short_message", string (codes "hi"))
    ∷ (codes "level", int (pos 257))
    ∷ (codes "a", string (codes "b"))
    ∷ [])

gelf-IsValid_example : Ensures (IsValid whole_doubles) (gelf whole_doubles 1_600_000_000 wrapped)
gelf-IsValid_example = gelf-IsValid whole_doubles 1_600_000_000 wrapped refl
