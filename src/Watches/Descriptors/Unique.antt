-- ===== src/Watches/Descriptors/Unique.antt =====
-- The watches of a map: no two share a descriptor or a path.
use iqlogger.Common.{
  ℕ, ◌≡◌, ◌≢◌, refl, sym, ap, true, false, ◌||◌, none, some, List, [], ◌∷◌, Bytes, bytes_eq_iff,
  ◌==◌, ==_iff, if◌then◌else◌, arith, inl, inr, All, Bool-cases, subst,
}
use mathlib.Core.Option.{some-injective}
use iqlogger.Watches.Descriptors.{
  Watch, has_path, find_by_watch_descriptor, find_by_watch_path, add_watch, remove_watch,
}

module _ {N : Type 0} where
  -- Two watches have different descriptors and different paths.
  abbrev pub Apart : Watch N → Watch N → Type 0
  Apart v w = (v.watch_descriptor ≢ w.watch_descriptor) × (has_path v.directory v.pattern w ≡ false)

  abbrev pub IsUnique : List (Watch N) → Type 0
  IsUnique [] = Unit
  IsUnique (w ∷ ws) = All (Apart w) ws × IsUnique ws

  has_path_sym :
      (v w : Watch N) → has_path v.directory v.pattern w ≡ has_path w.directory w.pattern v
  has_path_sym v w = ground (
    arith,
    bytes_eq_iff w.directory v.directory,
    bytes_eq_iff v.directory w.directory,
    bytes_eq_iff w.pattern v.pattern,
    bytes_eq_iff v.pattern w.pattern,
  )

  pub add_descriptor_taken :
      (v w : Watch N) (ws : List (Watch N))
      → find_by_watch_descriptor v.watch_descriptor ws ≡ some w
      → add_watch v ws ≡ ws
  unfolding find_by_watch_descriptor add_watch
  add_descriptor_taken v w [] h = cc
  add_descriptor_taken v w (u ∷ ws) h = ground (arith, add_descriptor_taken v w ws)

  pub add_path_taken :
      (v w : Watch N) (ws : List (Watch N))
      → find_by_watch_path v.directory v.pattern ws ≡ some w
      → add_watch v ws ≡ ws
  unfolding find_by_watch_path add_watch
  add_path_taken v w [] h = cc
  add_path_taken v w (u ∷ ws) h = ground (arith, add_path_taken v w ws)

  pub find_by_watch_descriptor-add :
      (v : Watch N) (ws : List (Watch N)) (d : ℕ)
      → find_by_watch_descriptor v.watch_descriptor ws ≡ none
      → find_by_watch_path v.directory v.pattern ws ≡ none
      → find_by_watch_descriptor d (add_watch v ws)
        ≡ (if v.watch_descriptor == d then some v else find_by_watch_descriptor d ws)
  unfolding find_by_watch_descriptor find_by_watch_path add_watch
  find_by_watch_descriptor-add v [] d h k = refl
  find_by_watch_descriptor-add v (u ∷ ws) d h k =
      ground (arith, find_by_watch_descriptor-add v ws d)

  has_path_unique :
      (v u : Watch N) (p q : Bytes)
      → has_path v.directory v.pattern u ≡ false
      → has_path p q u ≡ true
      → has_path p q v ≡ false
  has_path_unique v u p q h k = ground (
    arith,
    bytes_eq_iff u.directory p,
    bytes_eq_iff u.pattern q,
    bytes_eq_iff v.directory p,
    bytes_eq_iff v.pattern q,
    bytes_eq_iff u.directory v.directory,
    bytes_eq_iff u.pattern v.pattern,
  )

  pub find_by_watch_path-add :
      (v : Watch N) (ws : List (Watch N)) (p q : Bytes)
      → find_by_watch_descriptor v.watch_descriptor ws ≡ none
      → find_by_watch_path v.directory v.pattern ws ≡ none
      → find_by_watch_path p q (add_watch v ws)
        ≡ (if has_path p q v then some v else find_by_watch_path p q ws)
  unfolding find_by_watch_descriptor find_by_watch_path add_watch
  find_by_watch_path-add v [] p q h k = refl
  find_by_watch_path-add v (u ∷ ws) p q h k =
      ground (arith, find_by_watch_path-add v ws p q, has_path_unique v u p q)

  Apart-none :
      (v : Watch N) (ws : List (Watch N))
      → All (Apart v) ws
      → (find_by_watch_descriptor v.watch_descriptor ws ≡ none)
        × (find_by_watch_path v.directory v.pattern ws ≡ none)
  unfolding find_by_watch_descriptor find_by_watch_path
  Apart-none v [] h = (refl, refl)
  Apart-none v (u ∷ ws) h = ground (arith, h.0.0, h.0.1, Apart-none v ws h.1)

  Apart-add :
      (u v : Watch N) (ws : List (Watch N))
      → Apart u v
      → All (Apart u) ws
      → All (Apart u) (add_watch v ws)
  unfolding add_watch
  Apart-add u v [] a h = (a, tt)
  Apart-add u v (w ∷ ws) a h =
      elim (Bool-cases
        (w.watch_descriptor == v.watch_descriptor || has_path v.directory v.pattern w)) [
          | inl e ↦ rw e h
          | inr e ↦ rw e (h.0, Apart-add u v ws a h.1)
        ]

  Apart-not_taken :
      (v w : Watch N)
      → (w.watch_descriptor == v.watch_descriptor || has_path v.directory v.pattern w) ≡ false
      → Apart w v
  Apart-not_taken v w h = ground (arith, has_path_sym v w)

  -- Whatever is added, no two watches have the same descriptor or the same path.
  pub add_watch-IsUnique :
      (v : Watch N) (ws : List (Watch N)) → IsUnique ws → IsUnique (add_watch v ws)
  unfolding add_watch
  add_watch-IsUnique v [] h = (tt, tt)
  add_watch-IsUnique v (w ∷ ws) h =
      elim (Bool-cases
        (w.watch_descriptor == v.watch_descriptor || has_path v.directory v.pattern w)) [
          | inl e ↦ rw e h
          | inr e ↦ rw e (Apart-add w v ws (Apart-not_taken v w e) h.0, add_watch-IsUnique v ws h.1)
        ]

  Apart-remove :
      (u v : Watch N) (ws : List (Watch N)) → All (Apart u) ws → All (Apart u) (remove_watch v ws)
  unfolding remove_watch
  Apart-remove u v [] h = tt
  Apart-remove u v (w ∷ ws) h = elim (Bool-cases (w.watch_descriptor == v.watch_descriptor)) [
    | inl e ↦ rw e h.1
    | inr e ↦ rw e (h.0, Apart-remove u v ws h.1)
  ]

  pub remove_watch-IsUnique :
      (v : Watch N) (ws : List (Watch N)) → IsUnique ws → IsUnique (remove_watch v ws)
  unfolding remove_watch
  remove_watch-IsUnique v [] h = tt
  remove_watch-IsUnique v (w ∷ ws) h =
      elim (Bool-cases (w.watch_descriptor == v.watch_descriptor)) [
        | inl e ↦ rw e h.1
        | inr e ↦ rw e (Apart-remove w v ws h.0, remove_watch-IsUnique v ws h.1)
      ]

  pub remove_watch_absent :
      (v : Watch N) (ws : List (Watch N))
      → find_by_watch_descriptor v.watch_descriptor ws ≡ none
      → remove_watch v ws ≡ ws
  unfolding find_by_watch_descriptor remove_watch
  remove_watch_absent v [] h = refl
  remove_watch_absent v (u ∷ ws) h = ground (arith, remove_watch_absent v ws)

  pub Apart-found :
      (x w : Watch N) (ws : List (Watch N)) (d : ℕ)
      → All (Apart x) ws
      → find_by_watch_descriptor d ws ≡ some w
      → Apart x w × (w.watch_descriptor ≡ d)
  unfolding find_by_watch_descriptor
  Apart-found x w [] d a h = cc
  Apart-found x w (y ∷ ws) d a h = elim (Bool-cases (y.watch_descriptor == d)) [
    | inl e ↦
        subst (λ (z : Watch N). Apart x z × (z.watch_descriptor ≡ d))
          (some-injective y w (rw e at h)) (a.0, (==_iff y.watch_descriptor d).0 e)
    | inr e ↦ Apart-found x w ws d a.1 (rw e at h)
  ]

  Apart-descriptor :
      (x : Watch N) (ws : List (Watch N)) (d : ℕ)
      → All (Apart x) ws
      → (x.watch_descriptor == d) ≡ true
      → find_by_watch_descriptor d ws ≡ none
  unfolding find_by_watch_descriptor
  Apart-descriptor x [] d a h = refl
  Apart-descriptor x (y ∷ ws) d a h = ground (arith, a.0.0, Apart-descriptor x ws d a.1)

  Apart-path :
      (x : Watch N) (ws : List (Watch N)) (p q : Bytes)
      → All (Apart x) ws
      → has_path p q x ≡ true
      → find_by_watch_path p q ws ≡ none
  unfolding find_by_watch_path
  Apart-path x [] p q a h = refl
  Apart-path x (y ∷ ws) p q a h = elim (Bool-cases (has_path p q y)) [
    | inl e ↦ let f = has_path_unique x y p q a.0.1 e in cc
    | inr e ↦ rw e (Apart-path x ws p q a.1 h)
  ]

  pub find_by_watch_descriptor-remove :
      (v w : Watch N) (ws : List (Watch N)) (d : ℕ)
      → IsUnique ws
      → find_by_watch_descriptor v.watch_descriptor ws ≡ some w
      → find_by_watch_descriptor d (remove_watch v ws)
        ≡ (if w.watch_descriptor == d then none else find_by_watch_descriptor d ws)
  unfolding find_by_watch_descriptor remove_watch
  find_by_watch_descriptor-remove v w [] d u h = cc
  find_by_watch_descriptor-remove v w (x ∷ ws) d u h =
      elim (Bool-cases (x.watch_descriptor == v.watch_descriptor)) [
        | inl e ↦
            let p = ap (λ (z : Watch N). z.watch_descriptor) (some-injective x w (rw e at h)) in
            rw (sym p) (ground (arith, e, Apart-descriptor x ws d u.0))
        | inr e ↦
            let found : find_by_watch_descriptor v.watch_descriptor ws ≡ some w = rw e at h in
            ground (
              arith,
              e,
              find_by_watch_descriptor-remove v w ws d u.1 found,
              (Apart-found x w ws v.watch_descriptor u.0 found).0.0,
            )
      ]

  pub find_by_watch_path-remove :
      (v w : Watch N) (ws : List (Watch N)) (p q : Bytes)
      → IsUnique ws
      → find_by_watch_descriptor v.watch_descriptor ws ≡ some w
      → find_by_watch_path p q (remove_watch v ws)
        ≡ (if has_path p q w then none else find_by_watch_path p q ws)
  unfolding find_by_watch_descriptor find_by_watch_path remove_watch
  find_by_watch_path-remove v w [] p q u h = cc
  find_by_watch_path-remove v w (x ∷ ws) p q u h =
      elim (Bool-cases (x.watch_descriptor == v.watch_descriptor)) [
        | inl e ↦
            let r = ap (λ (z : Watch N). has_path p q z) (some-injective x w (rw e at h)) in
            rw (sym r) (ground (arith, e, Apart-path x ws p q u.0))
        | inr e ↦
            let found : find_by_watch_descriptor v.watch_descriptor ws ≡ some w = rw e at h in
            ground (
              arith,
              e,
              find_by_watch_path-remove v w ws p q u.1 found,
              has_path_unique x w p q (Apart-found x w ws v.watch_descriptor u.0 found).0.1,
            )
      ]

  -- A watch that is found by its descriptor is so whatever is added.
  pub add_watch-keeps :
      (v w : Watch N) (ws : List (Watch N)) (d : ℕ)
      → find_by_watch_descriptor d ws ≡ some w
      → find_by_watch_descriptor d (add_watch v ws) ≡ some w
  unfolding find_by_watch_descriptor add_watch
  add_watch-keeps v w [] d h = cc
  add_watch-keeps v w (u ∷ ws) d h = ground (arith, add_watch-keeps v w ws d)
