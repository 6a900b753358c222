-- ===== src/Tail/Positions/Restart.antt =====
-- Which position a file has after a restart.
use iqlogger.Common.{
  Bool, ℕ, ◌≡◌, ◌≢◌, refl, sym, ap, ◌∙◌, true, false, Option, none, some, List, [], ◌∷◌, ◌++◌,
  Bytes, bytes_eq, bytes_eq_iff, bytes_eq_ne, ◌==◌, if◌then◌else◌, All, Bool-cases, inl, inr, arith,
}
use iqlogger.Common.Table.{
  bytes_key, lookup, assign, lookup-assign, lookup-assign_self, or_else, lookup-insert_or,
}
use mathlib.Core.Option
use iqlogger.Tail.Positions.{
  Positions, dashes, saved_path, value_or, get_saved, save, erase_position, init_files, restart,
  save_all,
}

-- An absolute name without a dash.
abbrev pub IsPlain : Bytes → Type 0
IsPlain [] = ⊥
IsPlain (c ∷ cs) = (c ≡ b'/') × All (λ x. x ≢ b'-') cs

dashes-injective :
    (a b : Bytes) → All (λ x. x ≢ b'-') a → All (λ x. x ≢ b'-') b → dashes a ≡ dashes b → a ≡ b
unfolding dashes
dashes-injective [] [] h k e = refl
dashes-injective [] (y ∷ b) h k e = cc
dashes-injective (x ∷ a) [] h k e = cc
dashes-injective (x ∷ a) (y ∷ b) h k e = ground (arith, e, h.0, k.0, dashes-injective a b h.1 k.1)

same_path :
    (c x : ℕ) (cs xs : Bytes)
    → IsPlain (c ∷ cs)
    → IsPlain (x ∷ xs)
    → bytes_eq (x ∷ xs) (c ∷ cs) ≡ bytes_eq (dashes xs) (dashes cs)
same_path c x cs xs h k = elim (Bool-cases (bytes_eq (dashes xs) (dashes cs))) [
  | inl e ↦
      let same : xs ≡ cs =
        dashes-injective xs cs k.1 h.1 ((bytes_eq_iff (dashes xs) (dashes cs)).0 e) in
      rw e ((bytes_eq_iff (x ∷ xs) (c ∷ cs)).1 (rw (h.0, k.0, same) refl))
  | inr e ↦ rw e (
      bytes_eq_ne (x ∷ xs) (c ∷ cs) (λ q.
        let same : xs ≡ cs = cc in
        let equal : bytes_eq (dashes xs) (dashes cs) ≡ true =
          (bytes_eq_iff (dashes xs) (dashes cs)).1 (ap dashes same) in
        cc))
]

dashes-slash : (a b : Bytes) → dashes (a ++ (b'/' ∷ b)) ≡ dashes (a ++ (b'-' ∷ b))
unfolding dashes
dashes-slash [] b = refl
dashes-slash (c ∷ a) b = ap (◌∷◌ (if c == b'/' then b'-' else c)) (dashes-slash a b)

module _ {P : Type 0} where
  or_else-none : (o : Option P) → or_else o none ≡ o
  or_else-none none = refl
  or_else-none (some p) = refl

  or_else_if :
      (o o' : Option P) (b : Bool) (p : P)
      → or_else (or_else o (if b then some p else none)) o' ≡ or_else o (if b then some p else o')
  or_else_if (some q) o' b p = refl
  or_else_if none o' true p = refl
  or_else_if none o' false p = refl

  lookup-init_files :
      (files : List (Bytes × P)) (path : Bytes) (s : Positions P)
      → lookup path (init_files files s).saved ≡ or_else (lookup path s.saved) (lookup path files)
  unfolding init_files lookup
  lookup-init_files [] path s = sym (or_else-none (lookup path s.saved))
  lookup-init_files ((i, p) ∷ files) path s =
      lookup-init_files files path _
      ∙ ap (λ (o : Option P). or_else o (lookup path files)) (lookup-insert_or i path p s.saved)
      ∙ or_else_if (lookup path s.saved) (lookup path files) (bytes_eq i path) p

  -- After a restart, the table has what the directory had.
  lookup-restart :
      (path : Bytes) (s : Positions P) → lookup path (restart s).saved ≡ lookup path s.directory
  unfolding restart lookup
  lookup-restart path s = lookup-init_files s.directory path _

  -- The position that was saved last for a name, or `start`.
  abbrev pub last_position : P → Bytes → List (Bytes × P) → P
  last_position start filename [] = start
  last_position start filename ((n, p) ∷ saves) =
      last_position (if bytes_eq n filename then p else start) filename saves

  value_or_if :
      (start p : P) (b : Bool) (o : Option P)
      → value_or start (if b then some p else o) ≡ (if b then p else value_or start o)
  unfolding value_or
  value_or_if start p true o = refl
  value_or_if start p false o = refl

  abbrev saved_in : P → Bytes → Positions P → P
  saved_in start path s = value_or start (lookup path s.directory)

  save_all-last :
      (start : P) (c : ℕ) (cs : Bytes) (saves : List (Bytes × P)) (s : Positions P)
      → IsPlain (c ∷ cs)
      → All (λ save. IsPlain save.0) saves
      → (t : Positions P) × (save_all saves s ≡ some t)
        × (saved_in start (dashes cs) t
            ≡ last_position (saved_in start (dashes cs) s) (c ∷ cs) saves)
  unfolding save_all save saved_path Option.bind
  save_all-last start c cs [] s h a = (s, refl, refl)
  save_all-last start c cs (([], p) ∷ saves) s h a = elim a.0 [ ]
  save_all-last start c cs ((x ∷ xs, p) ∷ saves) s h a =
      let s' : Positions P = record s { directory = assign (dashes xs) p s.directory } in
      let (t, e, l) = save_all-last start c cs saves s' h a.1 in
      (
        t,
        e,
        l
            ∙ ap (λ (q : P). last_position q (c ∷ cs) saves)
                (ap (value_or start) (lookup-assign (dashes xs) (dashes cs) p s.directory)
                  ∙ value_or_if start p (bytes_eq (dashes xs) (dashes cs))
                      (lookup (dashes cs) s.directory)
                  ∙ rw (same_path c x cs xs h a.0) refl),
      )

  abbrev pub empty_directory : Positions P
  empty_directory = record { directory = []; saved = [] }

  -- The names are absolute and without dashes: after any number of saves for any files and a restart
  -- of the program, the position of a file is the one that was saved last for it, and the beginning
  -- of the file if none was.
  pub get_saved-restart :
      (start : P) (filename : Bytes) (saves : List (Bytes × P))
      → IsPlain filename
      → All (λ save. IsPlain save.0) saves
      → Option.bind (save_all saves empty_directory) (λ s. get_saved start filename (restart s))
        ≡ some (last_position start filename saves)
  unfolding get_saved saved_path Option.bind lookup
  get_saved-restart start [] saves h a = elim h [ ]
  get_saved-restart start (c ∷ cs) saves h a =
      let (t, e, l) = save_all-last start c cs saves empty_directory h a in
      rw e (
        ap (λ (o : Option P). some (value_or start o)) (lookup-restart (dashes cs) t)
        ∙ ap (λ (p : P). some p) l)

  -- Two files whose names differ in one place, a dash for a slash, share one saved position: what is
  -- saved for the second is, after a restart, the position of the first.
  pub get_saved_collision :
      (start p q : P) (a b : Bytes)
      → Option.bind
          (save_all
            ((b'/' ∷ (a ++ (b'/' ∷ b)), q) ∷ (b'/' ∷ (a ++ (b'-' ∷ b)), p) ∷ [])
            empty_directory)
          (λ s. get_saved start (b'/' ∷ (a ++ (b'/' ∷ b))) (restart s))
        ≡ some p
  unfolding save_all save get_saved saved_path Option.bind value_or
  get_saved_collision start p q a b =
      ap (λ (o : Option P). some (value_or start o)) {y = some p}
        (lookup-restart (dashes (a ++ (b'/' ∷ b))) _
          ∙ rw (dashes-slash a b) (
              lookup-assign_self (dashes (a ++ (b'-' ∷ b))) p
                (assign (dashes (a ++ (b'-' ∷ b))) q [])))

  -- A position that was read at the start stays in memory when the file is deleted and its saved
  -- position is erased, so a new file of that name is read from there.
  pub get_saved-erase_position :
      (start p : P) (filename : Bytes)
      → filename ≢ []
      → Option.bind
          (save filename p empty_directory)
          (λ s. Option.bind (erase_position filename (restart s)) (get_saved start filename))
        ≡ some p
  unfolding save get_saved saved_path erase_position Option.bind value_or
  get_saved-erase_position start p [] h = absurd (h refl)
  get_saved-erase_position start p (c ∷ cs) h =
      ap (λ (o : Option P). some (value_or start o))
        (lookup-restart (dashes cs) _ ∙ lookup-assign_self (dashes cs) p [])
