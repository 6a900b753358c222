-- ===== src/Gelf/Checked.antt =====
-- The messages that are made from documents are well formed.
use iqlogger.Common.{
  IsText, ◌||◌, ℕ, ◌≤◌, ◌<◌, ◌≡◌, ◌≢◌, false, Option, none, some, List, [], ◌∷◌, Bytes, codes, leb,
  ltb, arith, bytes_eq, bytes_eq_iff, Bool-cases, inl, inr,
}
use iqlogger.Common.Table.{bytes_key, lookup}
use iqlogger.Common.Result.{Result, ok, exception, std_exception, and_then}
use iqlogger.Gelf.Json.{
  to_uchar, stoi, Doubles, Value, string, int, double, number, Document, malformed, not_object,
  object, c_str,
}
use iqlogger.Gelf.Reading.{
  Field, is_system_field, nonempty, check_level, field_of, add_member, read_fields, read_version,
  read_nonempty, read_full_message, check_timestamp, timestamp_of, read_timestamp, level_of,
  read_level, read_members, gelf,
}
use iqlogger.Common.Int.{ℤ}
use iqlogger.Gelf.Valid.{
  IsFieldValue, IsFields, insert-IsFields, c_str-IsText, prefixed-IsKey, IsValid,
}

-- What holds of a result, if it is one.
abbrev pub Ensures : {A : Type 0} → (A → Type 0) → Result A → Type 0
Ensures P (ok a) = P a
Ensures P _ = Unit

and_then-Ensures :
    {A B : Type 0} (P : A → Type 0) (Q : B → Type 0) (r : Result A) (f : A → Result B)
    → Ensures P r
    → ((a : A) → P a → Ensures Q (f a))
    → Ensures Q (and_then r f)
unfolding and_then
and_then-Ensures P Q (ok a) f p h = h a p
and_then-Ensures P Q exception f p h = tt
and_then-Ensures P Q std_exception f p h = tt

nonempty-Ensures : (b : Bytes) → IsText b → Ensures (λ t. IsText t × (t ≢ [])) (nonempty b)
unfolding nonempty
nonempty-Ensures [] t = tt
nonempty-Ensures (c ∷ b) t = (t, λ e. cc)

check_level-Ensures : (level : ℕ) → Ensures (λ l. (1 ≤ l) × (l < 10)) (check_level level)
unfolding check_level
check_level-Ensures level = elim (Bool-cases (ltb level 1 || leb 10 level)) [
  | inl bad ↦ rw bad tt
  | inr good ↦ rw good (ground arith, ground arith)
]

level_of-Ensures : (o : Option ℤ) → Ensures (λ l. (1 ≤ l) × (l < 10)) (level_of o)
unfolding level_of
level_of-Ensures none = tt
level_of-Ensures (some i) = check_level-Ensures (to_uchar i)

module _ {D : Type 0} where
  read_version-Ensures : (o : Option (Value D)) → Ensures (λ v. v ≡ codes "1.1") (read_version o)
  unfolding read_version
  read_version-Ensures (some (string s)) = elim (Bool-cases (bytes_eq (c_str s) (codes "1.1"))) [
    | inl same ↦ rw same ((bytes_eq_iff (c_str s) (codes "1.1")).0 same)
    | inr differs ↦ rw differs tt
  ]
  read_version-Ensures _ = tt

  read_nonempty-Ensures :
      (o : Option (Value D)) → Ensures (λ t. IsText t × (t ≢ [])) (read_nonempty o)
  unfolding read_nonempty
  read_nonempty-Ensures (some (string s)) = nonempty-Ensures (c_str s) (c_str-IsText s)
  read_nonempty-Ensures _ = tt

  read_full_message-Ensures : (o : Option (Value D)) → Ensures IsText (read_full_message o)
  unfolding read_full_message
  read_full_message-Ensures none = tt
  read_full_message-Ensures (some (string s)) = c_str-IsText s
  read_full_message-Ensures (some _) = tt

  read_level-Ensures : (o : Option (Value D)) → Ensures (λ l. (1 ≤ l) × (l < 10)) (read_level o)
  unfolding read_level
  read_level-Ensures none = (omega arith, omega arith)
  read_level-Ensures (some (int i)) = level_of-Ensures (some i)
  read_level-Ensures (some (string s)) = level_of-Ensures (stoi (c_str s))
  read_level-Ensures (some _) = tt

  field_of-Ensures : (v : Value D) → Ensures IsFieldValue (field_of v)
  unfolding field_of
  field_of-Ensures (string s) = c_str-IsText s
  field_of-Ensures _ = tt

  add_member-Ensures :
      (key : Bytes) (v : Value D) (fields : List (Bytes × Field D))
      → IsText key
      → IsFields fields
      → Ensures IsFields (add_member key v fields)
  unfolding add_member
  add_member-Ensures key v fields t h = elim (Bool-cases (is_system_field key)) [
    | inl system ↦ rw system h
    | inr own ↦ rw own (
        and_then-Ensures IsFieldValue IsFields _ _ (field_of-Ensures v)
          (λ f w. insert-IsFields _ f fields (prefixed-IsKey _ t) w h))
  ]

  read_fields-Ensures :
      (ms : List (Bytes × Value D)) (fields : List (Bytes × Field D))
      → IsFields fields
      → Ensures IsFields (read_fields ms fields)
  unfolding read_fields
  read_fields-Ensures [] fields h = h
  read_fields-Ensures ((name, v) ∷ ms) fields h =
      and_then-Ensures IsFields IsFields _ _ (add_member-Ensures _ v fields (c_str-IsText name) h)
        (λ a. read_fields-Ensures ms a)

module _ {D : Type 0} (doubles : Doubles D) where
  abbrev InTime : D → Type 0
  InTime d = doubles.is_early d ≡ false

  check_timestamp-Ensures : (d : D) → Ensures InTime (check_timestamp doubles d)
  unfolding check_timestamp
  check_timestamp-Ensures d = elim (Bool-cases (doubles.is_early d)) [
    | inl early ↦ rw early tt
    | inr in_time ↦ rw in_time in_time
  ]

  timestamp_of-Ensures : (o : Option D) → Ensures InTime (timestamp_of doubles o)
  unfolding timestamp_of
  timestamp_of-Ensures none = tt
  timestamp_of-Ensures (some d) = check_timestamp-Ensures d

  read_timestamp-Ensures :
      (now : D) (o : Option (Value D)) → InTime now → Ensures InTime (read_timestamp doubles now o)
  unfolding read_timestamp
  read_timestamp-Ensures now none h = h
  read_timestamp-Ensures now (some (int i)) h = check_timestamp-Ensures (doubles.of_int i)
  read_timestamp-Ensures now (some (double d)) h = check_timestamp-Ensures d
  read_timestamp-Ensures now (some (number (some d))) h = check_timestamp-Ensures d
  read_timestamp-Ensures now (some (string s)) h = timestamp_of-Ensures (doubles.stod (c_str s))
  read_timestamp-Ensures now (some _) h = tt

  read_members-Ensures :
      (now : D) (ms : List (Bytes × Value D))
      → InTime now
      → Ensures (IsValid doubles) (read_members doubles now ms)
  unfolding read_members
  read_members-Ensures now ms h =
      and_then-Ensures (λ v. v ≡ codes "1.1") (IsValid doubles) _ _
        (read_version-Ensures (lookup (codes "version") ms))
        (λ _ version.
          and_then-Ensures (λ t. IsText t × (t ≢ [])) (IsValid doubles) _ _
            (read_nonempty-Ensures (lookup (codes "host") ms))
            (λ _ host.
              and_then-Ensures (λ t. IsText t × (t ≢ [])) (IsValid doubles) _ _
                (read_nonempty-Ensures (lookup (codes "short_message") ms))
                (λ _ short_message.
                  and_then-Ensures IsText (IsValid doubles) _ _
                    (read_full_message-Ensures (lookup (codes "full_message") ms))
                    (λ _ full_message.
                      and_then-Ensures InTime (IsValid doubles) _ _
                        (read_timestamp-Ensures now (lookup (codes "timestamp") ms) h)
                        (λ _ timestamp.
                          and_then-Ensures (λ l. (1 ≤ l) × (l < 10)) (IsValid doubles) _ _
                            (read_level-Ensures (lookup (codes "level") ms))
                            (λ _ level.
                              and_then-Ensures IsFields (IsValid doubles) _ _
                                (read_fields-Ensures ms [] (tt, tt))
                                (λ _ fields. record {
                                  version_1 = version;
                                  host_text = host.0;
                                  host_some = host.1;
                                  short_message_text = short_message.0;
                                  short_message_some = short_message.1;
                                  full_message_text = full_message;
                                  in_time = timestamp;
                                  level_low = level.0;
                                  level_high = level.1;
                                  fields = fields;
                                })))))))

  -- Whatever the document is, a message that is made from it is well formed: the version is 1.1,
  -- the host and the short message are not empty, no string has a zero byte in it, the time is not
  -- too early, the level is from 1 to 9, and the keys of the additional fields are all different
  -- and begin with an underscore. The clock is not too early itself.
  pub gelf-IsValid :
      (now : D) (doc : Document D)
      → doubles.is_early now ≡ false
      → Ensures (IsValid doubles) (gelf doubles now doc)
  unfolding gelf
  gelf-IsValid now malformed h = tt
  gelf-IsValid now not_object h = tt
  gelf-IsValid now (object ms) h = read_members-Ensures now ms h
