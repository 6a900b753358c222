-- ===== src/Tail/Monitor/Names.antt =====
-- Every reader stands in the table under the name of its file.
use iqlogger.Common.{
  false, ◌⊎◌, ◌≡◌, refl, ◌∙◌, Bool, Option, none, some, List, [], ◌∷◌, Bytes, All, inl, inr,
  Option-cases,
}
use mathlib.Core.Option
use iqlogger.Common.Table.{bytes_key, lookup, insert, lookup-insert_or, lookup-insert_new}
use iqlogger.Tail.Reader.{Reader, Delimiter}
use iqlogger.Tail.Monitor.{Monitor, Event, Files}

abbrev pub IsNamed : List (Bytes × Reader) → Type 0
IsNamed table = All (λ entry. entry.1.filename ≡ entry.0) table

-- What is found after an insertion.
lookup-inserted :
    (i : Bytes) (r : Reader) (table : List (Bytes × Reader))
    → (q : Reader) × (lookup i (insert i r table) ≡ some q)
lookup-inserted i r table = elim (Option-cases (lookup i table)) [
  | inl new ↦ (r, lookup-insert_new i r table new)
  | inr (q, old) ↦ (q, lookup-insert_or i i r table ∙ rw old refl)
]

-- The file of an event cannot be opened, or the name of an open file cannot be read.
abbrev pub Fails : (Files × Event) → Type 0
Fails (files, event) =
    (files.can_open event.filename ≡ false) ⊎ ((r : Reader) × (files.current_filename r ≡ none))

-- One of the events does so.
abbrev pub SomeFails : List (Files × Event) → Type 0
SomeFails [] = ⊥
SomeFails (e ∷ events) = Fails e ⊎ SomeFails events

-- The result of a step: a monitor whose readers are under their names; or an exception, and why.
abbrev pub Keeps : Type 0 → Option Monitor → Type 0
Keeps Why o = ((t : Monitor) × (o ≡ some t) × IsNamed t.table) ⊎ ((o ≡ none) × Why)

module _ (delimiter : Delimiter) (follow_only save_state : Bool) where
  -- The table with the name in it, and its reader; or the file cannot be opened.
  abbrev Inserted : Files → Bytes → Option (List (Bytes × Reader)) → Type 0
  Inserted files filename o =
      ((t : List (Bytes × Reader)) × (r : Reader) × (o ≡ some t)
        × (lookup filename t ≡ some r)
        × IsNamed t)
      ⊎ ((o ≡ none) × (files.can_open filename ≡ false))
