-- ===== src/Gelf/Valid.antt =====
-- What is a well formed message.
use iqlogger.Common.{
  IsText, ◌≤◌, ◌<◌, ◌≡◌, ◌≢◌, refl, false, none, some, List, [], ◌∷◌, ◌++◌, Bytes, codes, ◌==◌, All,
  All-append, arith, Bool-cases, Option-cases, inl, inr, append_assoc, append-nil,
}
use iqlogger.Common.Table.{bytes_key, lookup, insert}
use iqlogger.Gelf.Json.{Doubles, c_str}
use iqlogger.Gelf.Reading.{Field, text, Gelf, prefixed}

abbrev pub IsFieldValue : {D : Type 0} → Field D → Type 0
IsFieldValue (text s) = IsText s
IsFieldValue _ = Unit

-- The key begins with an underscore.
abbrev pub IsKey : Bytes → Type 0
IsKey [] = ⊥
IsKey (c ∷ cs) = (c ≡ b'_') × IsText cs

module _ {D : Type 0} where
  abbrev pub IsFieldEntry : (Bytes × Field D) → Type 0
  IsFieldEntry (key, f) = IsKey key × IsFieldValue f

  -- The keys are new to the table, one behind the other.
  abbrev pub AddsTo : List (Bytes × Field D) → List (Bytes × Field D) → Type 0
  AddsTo before [] = Unit
  AddsTo before ((key, f) ∷ fields) =
      (lookup key before ≡ none) × AddsTo (before ++ ((key, f) ∷ [])) fields

  AddsTo-append :
      (before fields : List (Bytes × Field D)) (key : Bytes) (f : Field D)
      → AddsTo before fields
      → lookup key (before ++ fields) ≡ none
      → AddsTo before (fields ++ ((key, f) ∷ []))
  AddsTo-append before [] key f a e = (rw (append-nil before) at e, tt)
  AddsTo-append before ((i, g) ∷ fields) key f a e = (
    a.0,
    AddsTo-append (before ++ ((i, g) ∷ [])) fields key f a.1
        (rw (append_assoc before ((i, g) ∷ []) fields) e),
  )

  -- A table of fields, all keys different.
  abbrev pub IsFields : List (Bytes × Field D) → Type 0
  IsFields fields = All IsFieldEntry fields × AddsTo [] fields

  insert-old :
      (key : Bytes) (f g : Field D) (fields : List (Bytes × Field D))
      → lookup key fields ≡ some g
      → insert key f fields ≡ fields
  unfolding insert lookup
  insert-old key f g [] e = cc
  insert-old key f g ((i, h) ∷ fields) e = ground (arith, insert-old key f g fields)

  pub insert-new :
      (key : Bytes) (f : Field D) (fields : List (Bytes × Field D))
      → lookup key fields ≡ none
      → insert key f fields ≡ fields ++ ((key, f) ∷ [])
  unfolding insert lookup
  insert-new key f [] e = refl
  insert-new key f ((i, h) ∷ fields) e = ground (arith, insert-new key f fields)

  pub insert-IsFields :
      (key : Bytes) (f : Field D) (fields : List (Bytes × Field D))
      → IsKey key
      → IsFieldValue f
      → IsFields fields
      → IsFields (insert key f fields)
  insert-IsFields key f fields k v (a, d) = elim (Option-cases (lookup key fields)) [
    | inl new ↦ rw (insert-new key f fields new) (
      All-append IsFieldEntry fields ((key, f) ∷ []) a ((k, v), tt),
      AddsTo-append [] fields key f d new,
    )
    | inr (g, old) ↦ rw (insert-old key f g fields old) (a, d)
  ]

pub c_str-IsText : (b : Bytes) → IsText (c_str b)
unfolding c_str
c_str-IsText [] = tt
c_str-IsText (c ∷ b) = elim (Bool-cases (c == 0)) [
  | inl e ↦ rw e tt
  | inr e ↦ rw e ((λ z. ground arith), c_str-IsText b)
]

pub prefixed-IsKey : (b : Bytes) → IsText b → IsKey (prefixed b)
unfolding prefixed
prefixed-IsKey [] t = (refl, tt)
prefixed-IsKey (c ∷ b) t = elim (Bool-cases (c == b'_')) [
  | inl e ↦ rw e (ground arith, t.1)
  | inr e ↦ rw e (refl, t)
]

module _ {D : Type 0} (doubles : Doubles D) where
  -- A message of version 1.1 with a host, a short message, a time that is not too early, a level
  -- from 1 to 9, and additional fields.
  pub record IsValid (g : Gelf D) : Type 0 where
    pub version_1 : g.version ≡ codes "1.1"
    pub host_text : IsText g.host
    pub host_some : g.host ≢ []
    pub short_message_text : IsText g.short_message
    pub short_message_some : g.short_message ≢ []
    pub full_message_text : IsText g.full_message
    pub in_time : doubles.is_early g.timestamp ≡ false
    pub level_low : 1 ≤ g.level
    pub level_high : g.level < 10
    pub fields : IsFields g.additional_fields
