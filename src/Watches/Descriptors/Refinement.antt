-- ===== src/Watches/Descriptors/Refinement.antt =====
-- `WatchDescriptorsMap` as two partial functions.
use iqlogger.Common.{
  ℕ, ◌≡◌, refl, sym, Option, none, some, List, [], ◌∷◌, Bytes, ◌==◌, if◌then◌else◌, inl, inr,
  Option-cases,
}
use mathlib.Core.Path.{fun_ext}
use iqlogger.Watches.Descriptors.{
  Watch, has_path, find_by_watch_descriptor, find_by_watch_path, add_watch, remove_watch,
}
use iqlogger.Watches.Descriptors.Unique.{
  IsUnique, add_watch-IsUnique, remove_watch-IsUnique, add_descriptor_taken, add_path_taken,
  find_by_watch_descriptor-add, find_by_watch_path-add, remove_watch_absent,
  find_by_watch_descriptor-remove, find_by_watch_path-remove,
}

-- Calls of the map.
pub data Call (N : Type 0) : Type 0 where
  add remove : Watch N → Call N

module _ {N : Type 0} where
  unfoldable pub run_calls : List (Call N) → List (Watch N) → List (Watch N)
  unfolding add_watch remove_watch
  run_calls [] ws = ws
  run_calls (add v ∷ calls) ws = run_calls calls (add_watch v ws)
  run_calls (remove v ∷ calls) ws = run_calls calls (remove_watch v ws)

-- What the map is for: a watch by its descriptor, and by its path.
pub record Indexes (N : Type 0) : Type 0 where
  pub by_descriptor : ℕ → Option (Watch N)
  pub by_path : Bytes → Bytes → Option (Watch N)

abbrev if_none : {A B : Type 0} → Option A → B → B → B
if_none none x y = x
if_none (some a) x y = y

module _ {N : Type 0} where
  -- A watch is added if neither its descriptor nor its path is taken.
  unfoldable pub added : Watch N → Indexes N → Indexes N
  added v i =
      if_none (i.by_descriptor v.watch_descriptor)
        (if_none (i.by_path v.directory v.pattern)
          (record {
            by_descriptor = λ d. if v.watch_descriptor == d then some v else i.by_descriptor d;
            by_path = λ p q. if has_path p q v then some v else i.by_path p q;
          })
          i)
        i

  -- The watch that has the descriptor goes from both indexes.
  abbrev without : Option (Watch N) → Indexes N → Indexes N
  without none i = i
  without (some w) i = record {
    by_descriptor = λ d. if w.watch_descriptor == d then none else i.by_descriptor d;
    by_path = λ p q. if has_path p q w then none else i.by_path p q;
  }

  unfoldable pub removed : Watch N → Indexes N → Indexes N
  removed v i = without (i.by_descriptor v.watch_descriptor) i

  unfoldable pub run_indexes : List (Call N) → Indexes N → Indexes N
  unfolding added removed
  run_indexes [] i = i
  run_indexes (add v ∷ calls) i = run_indexes calls (added v i)
  run_indexes (remove v ∷ calls) i = run_indexes calls (removed v i)

  abbrev pub indexes : List (Watch N) → Indexes N
  indexes ws = record {
    by_descriptor = λ d. find_by_watch_descriptor d ws;
    by_path = λ p q. find_by_watch_path p q ws;
  }

  abbrev build : (ℕ → Option (Watch N)) → (Bytes → Bytes → Option (Watch N)) → Indexes N
  build f g = record { by_descriptor = f; by_path = g }

  build_eq :
      {f f' : ℕ → Option (Watch N)} {g g' : Bytes → Bytes → Option (Watch N)}
      → f ≡ f'
      → g ≡ g'
      → build f g ≡ build f' g'
  build_eq p q = cc

  indexes-add :
      (v : Watch N) (ws : List (Watch N)) → indexes (add_watch v ws) ≡ added v (indexes ws)
  unfolding added
  indexes-add v ws = elim (Option-cases (find_by_watch_descriptor v.watch_descriptor ws)) [
    | inl e ↦ elim (Option-cases (find_by_watch_path v.directory v.pattern ws)) [
      | inl k ↦
          rw (e, k)
            (build_eq (fun_ext λ d. find_by_watch_descriptor-add v ws d e k)
              (fun_ext λ p. fun_ext λ q. find_by_watch_path-add v ws p q e k))
      | inr (w, k) ↦ rw (e, k, add_path_taken v w ws k) refl
    ]
    | inr (w, e) ↦ rw (e, add_descriptor_taken v w ws e) refl
  ]

  indexes-remove :
      (v : Watch N) (ws : List (Watch N))
      → IsUnique ws
      → indexes (remove_watch v ws) ≡ removed v (indexes ws)
  unfolding removed
  indexes-remove v ws u = elim (Option-cases (find_by_watch_descriptor v.watch_descriptor ws)) [
    | inl e ↦ rw (e, remove_watch_absent v ws e) refl
    | inr (w, e) ↦ rw e (
        build_eq (fun_ext λ d. find_by_watch_descriptor-remove v w ws d u e)
          (fun_ext λ p. fun_ext λ q. find_by_watch_path-remove v w ws p q u e))
  ]

  -- The map under any calls, from one in which no two watches share a descriptor or a path: what is
  -- found by a descriptor and by a path is what two partial functions give, to which a watch is
  -- added if neither its descriptor nor its path is taken, and from both of which the watch with
  -- the given descriptor is removed; and no two watches ever share a descriptor or a path.
  pub run_calls-indexes :
      (calls : List (Call N)) (ws : List (Watch N))
      → IsUnique ws
      → (indexes (run_calls calls ws) ≡ run_indexes calls (indexes ws))
        × IsUnique (run_calls calls ws)
  unfolding run_calls run_indexes
  run_calls-indexes [] ws u = (refl, u)
  run_calls-indexes (add v ∷ calls) ws u =
      let (e, k) = run_calls-indexes calls (add_watch v ws) (add_watch-IsUnique v ws u) in
      (rw (sym (indexes-add v ws)) e, k)
  run_calls-indexes (remove v ∷ calls) ws u =
      let (e, k) = run_calls-indexes calls (remove_watch v ws) (remove_watch-IsUnique v ws u) in
      (rw (sym (indexes-remove v ws u)) e, k)
