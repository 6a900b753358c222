-- ===== src/Gelf/RoundTrip.antt =====
-- What is written is read again as the same message.
use iqlogger.Common.{
  IsText, ℕ, ◌%◌, ◌^◌, ◌≤◌, ◌<◌, ◌≡◌, ◌≢◌, refl, ap, ◌∙◌, false, ◌||◌, Option, none, some, List, [],
  ◌∷◌, ◌++◌, Bytes, codes, ◌==◌, leb, ltb, All, arith, bytes_eq, append_assoc, append-nil,
}
use iqlogger.Common.Int.{pos}
use iqlogger.Common.Table.{bytes_key, lookup}
use iqlogger.Common.Result.{ok, and_then}
use iqlogger.Gelf.Json.{Doubles, Value, string, int, double, c_str, to_uchar}
use iqlogger.Gelf.Reading.{
  Field, text, integer, real, flag, Gelf, prefixed, is_system_field, nonempty, check_level,
  field_of, add_member, read_fields, read_version, read_nonempty, read_full_message,
  check_timestamp, read_timestamp, level_of, read_level, read_members, gelf,
}
use iqlogger.Gelf.Writing.{write_value, field_members, full_message_members, dump}
use iqlogger.Gelf.Valid.{IsFieldValue, IsKey, IsFieldEntry, AddsTo, IsFields, insert-new, IsValid}

pub c_str-text : (b : Bytes) → IsText b → c_str b ≡ b
unfolding c_str
c_str-text [] t = refl
c_str-text (c ∷ b) t =
    let e : (c == 0) ≡ false = ground (arith, t.0) in rw (e, c_str-text b t.1) refl

key-IsText : (key : Bytes) → IsKey key → IsText key
key-IsText [] k = elim k [ ]
key-IsText (c ∷ cs) k = ((λ z. omega (arith, k.0)), k.1)

prefixed-key : (key : Bytes) → IsKey key → prefixed key ≡ key
unfolding prefixed
prefixed-key [] k = elim k [ ]
prefixed-key (c ∷ cs) k = rw (k.0) refl

key_own : (key : Bytes) → IsKey key → is_system_field key ≡ false
unfolding is_system_field bytes_eq
key_own [] k = elim k [ ]
key_own (c ∷ cs) k = rw (k.0) refl

module _ {D : Type 0} where
  field_of-write_value : (f : Field D) → IsFieldValue f → field_of (write_value f) ≡ ok f
  unfolding field_of
  field_of-write_value (text s) t = ap (λ (b : Bytes). ok (text b)) (c_str-text s t)
  field_of-write_value (integer i) t = refl
  field_of-write_value (real d) t = refl
  field_of-write_value (flag b) t = refl

  read_fields-field_members :
      (fields before : List (Bytes × Field D))
      → All IsFieldEntry fields
      → AddsTo before fields
      → read_fields (field_members fields) before ≡ ok (before ++ fields)
  unfolding read_fields add_member and_then
  read_fields-field_members [] before a d = rw (append-nil before) refl
  read_fields-field_members ((key, f) ∷ fields) before ((k, v), a) (new, d) =
      rw
        (
          c_str-text key (key-IsText key k),
          key_own key k,
          field_of-write_value f v,
          prefixed-key key k,
          insert-new key f before new,
        )
        (read_fields-field_members fields (before ++ ((key, f) ∷ [])) a d
          ∙ ap (λ (x : List (Bytes × Field D)). ok x) (append_assoc before ((key, f) ∷ []) fields))

  -- The keys of the message itself are not among the additional ones.
  lookup-field_members :
      (c : ℕ) (cs : Bytes) (fields : List (Bytes × Field D))
      → (b'_' == c) ≡ false
      → All IsFieldEntry fields
      → lookup (c ∷ cs) (field_members fields) ≡ none
  unfolding lookup bytes_eq
  lookup-field_members c cs [] h a = refl
  lookup-field_members c cs (([], f) ∷ fields) h ((k, v), a) = elim k [ ]
  lookup-field_members c cs ((i ∷ is, f) ∷ fields) h (((e, t), v), a) =
      rw (e, h) (lookup-field_members c cs fields h a)

  -- The members behind the short message, for a level that is not 0.
  abbrev later : Bytes → D → ℕ → List (Bytes × Field D) → List (Bytes × Value D)
  later full d level fields =
      full_message_members full
        ((codes "timestamp", double d) ∷ (codes "level", int (pos level)) ∷ field_members fields)

  later_full_message :
      (full : Bytes) (d : D) (level : ℕ) (fields : List (Bytes × Field D))
      → IsText full
      → All IsFieldEntry fields
      → read_full_message (lookup (codes "full_message") (later full d level fields)) ≡ ok full
  unfolding lookup bytes_eq read_full_message
  later_full_message [] d level fields t a =
      rw (lookup-field_members b'f' (codes "ull_message") fields refl a) refl
  later_full_message (c ∷ cs) d level fields t a = ap (λ (b : Bytes). ok b) (c_str-text (c ∷ cs) t)

  later_timestamp :
      (full : Bytes) (d : D) (level : ℕ) (fields : List (Bytes × Field D))
      → lookup (codes "timestamp") (later full d level fields) ≡ some (double d)
  unfolding lookup bytes_eq
  later_timestamp [] d level fields = refl
  later_timestamp (c ∷ cs) d level fields = refl

  later_level :
      (full : Bytes) (d : D) (level : ℕ) (fields : List (Bytes × Field D))
      → lookup (codes "level") (later full d level fields) ≡ some (int (pos level))
  unfolding lookup bytes_eq
  later_level [] d level fields = refl
  later_level (c ∷ cs) d level fields = refl

  later_fields :
      (full : Bytes) (d : D) (level : ℕ) (fields : List (Bytes × Field D))
      → IsFields fields
      → read_fields (later full d level fields) [] ≡ ok fields
  unfolding read_fields add_member and_then c_str is_system_field bytes_eq
  later_fields [] d level fields h = read_fields-field_members fields [] h.0 h.1
  later_fields (c ∷ cs) d level fields h = read_fields-field_members fields [] h.0 h.1

read_version_1 :
    (D : Type 0) (v : Bytes) → v ≡ codes "1.1" → read_version {D = D} (some (string v)) ≡ ok v
unfolding read_version c_str bytes_eq
read_version_1 D v e = rw e refl

read_nonempty-text :
    (D : Type 0) (b : Bytes) → IsText b → b ≢ [] → read_nonempty {D = D} (some (string b)) ≡ ok b
unfolding read_nonempty nonempty
read_nonempty-text D [] t h = absurd (h refl)
read_nonempty-text D (c ∷ b) t h = rw (c_str-text (c ∷ b) t) refl

read_level_small :
    (D : Type 0) (level : ℕ)
    → 1 ≤ level
    → level < 10
    → read_level {D = D} (some (int (pos level))) ≡ ok level
unfolding read_level level_of check_level to_uchar
read_level_small D level l h =
    let same : level % 2 ^ 8 ≡ level = omega arith in
    let good : (ltb level 1 || leb 10 level) ≡ false = ground arith in rw (same, good) refl

module _ {D : Type 0} (doubles : Doubles D) where
  read_timestamp-double :
      (now d : D) → doubles.is_early d ≡ false → read_timestamp doubles now (some (double d)) ≡ ok d
  unfolding read_timestamp check_timestamp
  read_timestamp-double now d h = rw h refl

  -- Each part of a message is read.
  record Reads (now : D) (ms : List (Bytes × Value D)) (g : Gelf D) : Type 0 where
    version : read_version (lookup (codes "version") ms) ≡ ok g.version
    host : read_nonempty (lookup (codes "host") ms) ≡ ok g.host
    short_message : read_nonempty (lookup (codes "short_message") ms) ≡ ok g.short_message
    full_message : read_full_message (lookup (codes "full_message") ms) ≡ ok g.full_message
    timestamp : read_timestamp doubles now (lookup (codes "timestamp") ms) ≡ ok g.timestamp
    level : read_level (lookup (codes "level") ms) ≡ ok g.level
    fields : read_fields ms [] ≡ ok g.additional_fields

  read_members-Reads :
      (now : D) (ms : List (Bytes × Value D)) (g : Gelf D)
      → Reads now ms g
      → read_members doubles now ms ≡ ok g
  unfolding read_members and_then
  read_members-Reads now ms g r =
      rw (r.version, r.host, r.short_message, r.full_message, r.timestamp, r.level, r.fields) refl

  abbrev members : Gelf D → List (Bytes × Value D)
  members g =
      (codes "version", string g.version)
      ∷ (codes "host", string g.host)
      ∷ (codes "short_message", string g.short_message)
      ∷ later g.full_message g.timestamp g.level g.additional_fields

  members-Reads : (now : D) (g : Gelf D) → IsValid doubles g → Reads now (members g) g
  unfolding lookup bytes_eq
  members-Reads now g v = record {
    version = read_version_1 D g.version v.version_1;
    host = read_nonempty-text D g.host v.host_text v.host_some;
    short_message = read_nonempty-text D g.short_message v.short_message_text v.short_message_some;
    full_message =
        later_full_message g.full_message g.timestamp g.level g.additional_fields
          v.full_message_text v.fields.0;
    timestamp =
        ap (read_timestamp doubles now)
          (later_timestamp g.full_message g.timestamp g.level g.additional_fields)
        ∙ read_timestamp-double now g.timestamp v.in_time;
    level =
        ap (λ (o : Option (Value D)). read_level o)
          (later_level g.full_message g.timestamp g.level g.additional_fields)
        ∙ read_level_small D g.level v.level_low v.level_high;
    fields =
        (unfold read_fields add_member and_then c_str is_system_field in
          later_fields g.full_message g.timestamp g.level g.additional_fields v.fields);
  }

  -- A well formed message that is written as a document is read again as the same message, whatever
  -- the time is.
  pub gelf-dump : (now : D) (g : Gelf D) → IsValid doubles g → gelf doubles now (dump g) ≡ ok g
  unfolding gelf
  gelf-dump now g v =
      let some_level : (g.level == 0) ≡ false = ground (arith, v.level_low) in
      rw some_level (read_members-Reads now (members g) g (members-Reads now g v))
