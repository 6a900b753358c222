-- ===== src/Gelf/Reading.antt =====
-- A message from a document: the constructor of `gelf` in src/formats/gelf/GelfMessage.cpp.
use iqlogger.Common.{
  ℕ, Bool, ◌||◌, Option, none, some, List, [], ◌∷◌, Bytes, codes, bytes_eq, leb, ltb, ◌==◌,
  if◌then◌else◌,
}
use iqlogger.Common.Int.{ℤ}
use iqlogger.Common.Table.{bytes_key, lookup, insert}
use iqlogger.Common.Result.{Result, ok, exception, std_exception, and_then}
use iqlogger.Gelf.Json.{
  Doubles, Value, string, int, double, number, bool, Document, malformed, not_object, object, c_str,
  to_uchar, stoi,
}

-- `ObjectVariants`.
pub data Field (D : Type 0) : Type 0 where
  text : Bytes → Field D
  integer : ℤ → Field D
  real : D → Field D
  flag : Bool → Field D

pub record Gelf (D : Type 0) : Type 0 where
  pub version : Bytes
  pub host : Bytes
  pub short_message : Bytes
  pub full_message : Bytes
  pub timestamp : D
  pub level : ℕ
  pub additional_fields : List (Bytes × Field D)

unfoldable pub is_system_field : Bytes → Bool
is_system_field key =
    bytes_eq key (codes "version")
    || bytes_eq key (codes "host")
    || bytes_eq key (codes "short_message")
    || bytes_eq key (codes "full_message")
    || bytes_eq key (codes "timestamp")
    || bytes_eq key (codes "level")

-- `if (key[0] != '_') key = '_' + key`.
unfoldable pub prefixed : Bytes → Bytes
prefixed [] = b'_' ∷ []
prefixed (c ∷ cs) = if c == b'_' then c ∷ cs else b'_' ∷ c ∷ cs

-- The host, and the short message.
unfoldable pub nonempty : Bytes → Result Bytes
nonempty [] = exception
nonempty (c ∷ cs) = ok (c ∷ cs)

unfoldable pub check_level : ℕ → Result ℕ
check_level level = if ltb level 1 || leb 10 level then exception else ok level

-- `level = std::stoi(...)`.
unfoldable pub level_of : Option ℤ → Result ℕ
unfolding check_level to_uchar
level_of none = std_exception
level_of (some i) = check_level (to_uchar i)

module _ {D : Type 0} where
  unfoldable pub read_version : Option (Value D) → Result Bytes
  unfolding c_str
  read_version (some (string s)) =
      if bytes_eq (c_str s) (codes "1.1") then ok (c_str s) else exception
  read_version _ = exception

  unfoldable pub read_nonempty : Option (Value D) → Result Bytes
  unfolding nonempty
  read_nonempty (some (string s)) = nonempty (c_str s)
  read_nonempty _ = exception

  unfoldable pub read_full_message : Option (Value D) → Result Bytes
  read_full_message none = ok []
  read_full_message (some (string s)) = ok (c_str s)
  read_full_message (some _) = exception

  unfoldable pub read_level : Option (Value D) → Result ℕ
  unfolding level_of stoi
  read_level none = ok 1
  read_level (some (int i)) = level_of (some i)
  read_level (some (string s)) = level_of (stoi (c_str s))
  read_level (some _) = exception

  unfoldable pub field_of : Value D → Result (Field D)
  field_of (string s) = ok (text (c_str s))
  field_of (int i) = ok (integer i)
  field_of (double d) = ok (real d)
  field_of (bool b) = ok (flag b)
  field_of _ = exception

  -- One step of the loop over the members; `emplace` keeps the value of a key that is there.
  unfoldable pub add_member :
      Bytes → Value D → List (Bytes × Field D) → Result (List (Bytes × Field D))
  unfolding and_then field_of is_system_field prefixed
  add_member key v fields =
      if is_system_field key
      then ok fields
      else and_then (field_of v) (λ f. ok (insert (prefixed key) f fields))

  unfoldable pub read_fields :
      List (Bytes × Value D) → List (Bytes × Field D) → Result (List (Bytes × Field D))
  unfolding add_member
  read_fields [] fields = ok fields
  read_fields ((name, v) ∷ ms) fields = and_then (add_member (c_str name) v fields) (read_fields ms)

module _ {D : Type 0} (doubles : Doubles D) where
  unfoldable pub check_timestamp : D → Result D
  check_timestamp d = if doubles.is_early d then exception else ok d

  unfoldable pub timestamp_of : Option D → Result D
  unfolding check_timestamp
  timestamp_of none = std_exception
  timestamp_of (some d) = check_timestamp d

  unfoldable pub read_timestamp : D → Option (Value D) → Result D
  unfolding timestamp_of
  read_timestamp now none = ok now
  read_timestamp now (some (int i)) = check_timestamp (doubles.of_int i)
  read_timestamp now (some (double d)) = check_timestamp d
  read_timestamp now (some (number (some d))) = check_timestamp d
  read_timestamp now (some (string s)) = timestamp_of (doubles.stod (c_str s))
  read_timestamp now (some _) = exception

  unfoldable pub read_members : D → List (Bytes × Value D) → Result (Gelf D)
  unfolding and_then read_version read_nonempty read_full_message read_timestamp read_level
      read_fields lookup
  read_members now ms = and_then (read_version (lookup (codes "version") ms)) (λ version.
      and_then (read_nonempty (lookup (codes "host") ms)) (λ host.
        and_then (read_nonempty (lookup (codes "short_message") ms)) (λ short_message.
          and_then (read_full_message (lookup (codes "full_message") ms)) (λ full_message.
            and_then (read_timestamp now (lookup (codes "timestamp") ms)) (λ timestamp.
              and_then (read_level (lookup (codes "level") ms)) (λ level.
                and_then (read_fields ms []) (λ fields. ok (record {
                  version = version;
                  host = host;
                  short_message = short_message;
                  full_message = full_message;
                  timestamp = timestamp;
                  level = level;
                  additional_fields = fields;
                }))))))))

  -- The constructor; `now` is the time of the call.
  unfoldable pub gelf : D → Document D → Result (Gelf D)
  unfolding read_members
  gelf now malformed = exception
  gelf now not_object = exception
  gelf now (object ms) = read_members now ms
