-- ===== src/Output/Formats/Journal.antt =====
-- What a GELF server gets of a record of the journal.
use iqlogger.Common.{
  IsText, ◌≡◌, ◌≢◌, refl, ap, ◌∙◌, Bool, true, false, not, ◌&&◌, ◌||◌, Option, none, some, List, [],
  ◌∷◌, Bytes, codes, bytes_eq, if◌then◌else◌, All, arith, Bool-cases, inl, inr, ◌⊎◌,
}
use iqlogger.Common.Table.{bytes_key, lookup, insert, or_else, lookup-insert_or}
use iqlogger.Common.Result.{ok}
use iqlogger.Gelf.Json.{Doubles}
use iqlogger.Gelf.Reading.{Field, text, Gelf, prefixed, is_system_field}
use iqlogger.Gelf.Valid.{IsFieldValue, IsFields, IsValid, insert-IsFields, prefixed-IsKey}
use iqlogger.Gelf.Message.{
  Codec, gelf_message, export_message, IsWritten, gelf_message-export_message,
}
use iqlogger.Gelf.Setting.{
  Conversions, plain, done, new_gelf, set_field, set_next, stored, to_text, to_time,
}
use iqlogger.Output.Formats.{
  JournalMessage, uncaught, is_special, journal_message, journal_host, journal_fields, journal_gelf,
}

module _ {D : Type 0} where
  -- The first field that is not special and has this key in a GELF message.
  abbrev pub find_field : Bytes → List (Bytes × Field D) → Option (Field D)
  find_field k [] = none
  find_field k ((key, v) ∷ fields) =
      if not (is_special key) && bytes_eq (prefixed key) k then some v else find_field k fields

  abbrev collect : List (Bytes × Field D) → List (Bytes × Field D) → List (Bytes × Field D)
  collect [] t = t
  collect ((key, v) ∷ fields) t =
      if is_special key then collect fields t else collect fields (insert (prefixed key) v t)

  -- A key of the journal, which is none of GELF's own, and a value without a zero byte.
  abbrev pub IsJournalField : (Bytes × Field D) → Type 0
  IsJournalField (key, v) = (key ≢ []) × IsText key × (is_system_field key ≡ false) × IsFieldValue v

  collect-IsFields :
      (fields t : List (Bytes × Field D))
      → All IsJournalField fields
      → IsFields t
      → IsFields (collect fields t)
  collect-IsFields [] t h k = k
  collect-IsFields ((key, v) ∷ fields) t h k = elim (Bool-cases (is_special key)) [
    | inl e ↦ rw e (collect-IsFields fields t h.1 k)
    | inr e ↦ rw e (
        collect-IsFields fields _ h.1
          (insert-IsFields (prefixed key) v t (prefixed-IsKey key h.0.1) h.0.3 k))
  ]

  Option-right : (o : Option (Field D)) → o ≡ or_else o none
  Option-right none = refl
  Option-right (some v) = refl

  both :
      (o : Option (Field D)) (b : Bool) (v : Field D) (rest : Option (Field D))
      → or_else (or_else o (if b then some v else none)) rest
        ≡ or_else o (if b then some v else rest)
  both (some w) b v rest = refl
  both none true v rest = refl
  both none false v rest = refl

  lookup-collect :
      (k : Bytes) (fields t : List (Bytes × Field D))
      → lookup k (collect fields t) ≡ or_else (lookup k t) (find_field k fields)
  lookup-collect k [] t = Option-right (lookup k t)
  lookup-collect k ((key, v) ∷ fields) t = elim (Bool-cases (is_special key)) [
    | inl e ↦ rw e (lookup-collect k fields t)
    | inr e ↦ rw e (
        lookup-collect k fields (insert (prefixed key) v t)
        ∙ ap (λ (o : Option (Field D)). or_else o (find_field k fields))
            (lookup-insert_or (prefixed key) k v t)
        ∙ both (lookup k t) (bytes_eq (prefixed key) k) v (find_field k fields))
  ]

last_branch :
    {A : Type 0} (a b c d e f : Bool) (p q r s t u z : A)
    → (a || b || c || d || e || f) ≡ false
    → (if a
        then p
        else if b
        then q
        else if c
        then r
        else if d
        then s
        else if e
        then t
        else if f
        then u
        else z)
      ≡ z
last_branch a b c d e f p q r s t u z h = ground arith

module _ {D J : Type 0} (doubles : Doubles D) (conversions : Conversions D J)
    (hostname : Bytes) where
  set_field_other :
      (key : Bytes) (v : Field D) (g : Gelf D)
      → key ≢ []
      → is_system_field key ≡ false
      → set_field doubles conversions key (plain v) g
        ≡ done (record g { additional_fields = insert (prefixed key) v g.additional_fields })
  unfolding set_field is_system_field
  set_field_other [] v g h k = absurd (h refl)
  set_field_other (c ∷ cs) v g h k =
      let key = c ∷ cs in
      last_branch (bytes_eq key (codes "version")) (bytes_eq key (codes "host"))
        (bytes_eq key (codes "short_message")) (bytes_eq key (codes "full_message"))
        (bytes_eq key (codes "timestamp")) (bytes_eq key (codes "level")) _ _ _ _ _ _ _ k

  journal_fields-collect :
      (fields : List (Bytes × Field D)) (g : Gelf D)
      → All IsJournalField fields
      → journal_fields doubles conversions hostname fields g
        ≡ done (record g { additional_fields = collect fields g.additional_fields })
  unfolding journal_fields set_next
  journal_fields-collect [] g h = refl
  journal_fields-collect ((key, v) ∷ fields) g h = elim (Bool-cases (is_special key)) [
    | inl e ↦ rw e (journal_fields-collect fields g h.1)
    | inr e ↦ rw (e, set_field_other key v g h.0.0 h.0.2) (journal_fields-collect fields _ h.1)
  ]

  -- A record of the journal: a text for a message, a text for the name of its host, or none, and a
  -- time that GELF allows.
  pub record IsRecord (message host : Bytes) (m : JournalMessage D) : Type 0 where
    pub has_message : lookup (codes "MESSAGE") m.fields ≡ some (text message)
    pub message_text : IsText message
    pub message_some : message ≢ []
    pub has_host :
        (lookup (codes "_HOSTNAME") m.fields ≡ some (text host))
        ⊎ ((lookup (codes "_HOSTNAME") m.fields ≡ none) × (hostname ≡ host))
    pub host_text : IsText host
    pub host_some : host ≢ []
    pub in_time : doubles.is_early m.seconds ≡ false
    pub fields : All IsJournalField m.fields

  -- The message that is made of a record.
  abbrev pub made : Bytes → Bytes → JournalMessage D → Gelf D
  made message host m = record {
    version = codes "1.1";
    host = host;
    short_message = message;
    full_message = [];
    timestamp = m.seconds;
    level = 1;
    additional_fields = collect m.fields [];
  }

  journal_gelf-made :
      (now : D) (message host : Bytes) (m : JournalMessage D)
      → IsRecord message host m
      → journal_gelf doubles conversions hostname now m ≡ ok (made message host m)
  unfolding journal_gelf journal_message journal_host set_field set_next stored to_text to_time
      new_gelf bytes_eq uncaught
  journal_gelf-made now message host m h = elim h.has_host [
    | inl e ↦ rw (h.has_message, e) (rw (journal_fields-collect m.fields _ h.fields) refl)
    | inr (e, k) ↦
        rw (h.has_message, e) (rw (journal_fields-collect m.fields _ h.fields) (rw k refl))
  ]

  made-IsValid :
      (message host : Bytes) (m : JournalMessage D)
      → IsRecord message host m
      → IsValid doubles (made message host m)
  made-IsValid message host m h = record {
    version_1 = refl;
    host_text = h.host_text;
    host_some = h.host_some;
    short_message_text = h.message_text;
    short_message_some = h.message_some;
    full_message_text = tt;
    in_time = h.in_time;
    level_low = omega arith;
    level_high = omega arith;
    fields = collect-IsFields m.fields [] h.fields (tt, tt);
  }

  -- A record of the journal whose `MESSAGE` is a text that is not empty, with a `_HOSTNAME` of this
  -- kind, or none and the name of the machine in its place, with a time that GELF allows and no
  -- field that has the name of one of GELF's own; no key is empty, and no key, text of a field,
  -- message or host has a zero byte. It becomes a GELF message with this text, host and time, and
  -- the additional field of a key is the first field of the record that has it, with an underscore
  -- put in front where there is none. A GELF input makes the same message of the text that is
  -- exported for it, if the libraries write and read its document.
  pub journal_gelf-sent :
      (codec : Codec D) (now later : D) (message host key : Bytes) (m : JournalMessage D)
      → IsRecord message host m
      → IsWritten codec doubles (made message host m)
      → (g : Gelf D) × (journal_gelf doubles conversions hostname now m ≡ ok g)
        × (gelf_message codec doubles later (export_message codec doubles g) ≡ ok g)
        × (g.short_message ≡ message)
        × (g.host ≡ host)
        × (g.timestamp ≡ m.seconds)
        × (lookup key g.additional_fields ≡ find_field key m.fields)
  unfolding lookup
  journal_gelf-sent codec now later message host key m h w = (
    made message host m,
    journal_gelf-made now message host m h,
    gelf_message-export_message codec doubles later (made message host m)
        (made-IsValid message host m h) w,
    refl,
    refl,
    refl,
    lookup-collect key m.fields [],
  )
