-- ===== src/Tests/WatchDepth.antt =====
-- A tree of directories that ends.
use iqlogger.Common.{
  ℕ, ◌≡◌, refl, true, false, ◌||◌, Option, none, some, List, [], ◌∷◌, ◌++◌, Bytes, codes, bytes_eq,
  if◌then◌else◌, arith, bytes_eq_iff, Bool-cases, subst, All, inl, inr,
}
use mathlib.Core.Option.{some-injective}
use iqlogger.Watches.Server.Depth.{IsTree, IsLower, Coherent, add_watch_ends}
use iqlogger.Watches.Server.{Entry, Files, Server, make_watch_path, add_watch}
use iqlogger.Tests.DirectoryWatches.{entry, matches, notifier, empty}

-- `/v` with a file, and a directory in it with a file.
abbrev small : Files
small = record {
  is_directory = λ p. bytes_eq p (codes "/v") || bytes_eq p (codes "/v/d");
  is_symlink = λ p. false;
  read_symlink = λ p. p;
  parent_path = λ p. codes "/v";
  regex_match = matches;
  directory_iterator = λ d.
      if bytes_eq d (codes "/v/d")
      then some (entry d (codes "b") ∷ [])
      else if bytes_eq d (codes "/v")
      then some (entry d (codes "a") ∷ entry d (codes "d") ∷ [])
      else none;
  inotify_add_watch = λ d.
      if bytes_eq d (codes "/v")
      then some 1
      else if bytes_eq d (codes "/v/d")
      then some 2
      else none;
}

abbrev rank : Bytes → ℕ
rank p = if bytes_eq p (codes "/v/d") then 0 else 1

one_name :
    (c d : Bytes) (wd : ℕ)
    → small.inotify_add_watch c ≡ some wd
    → small.inotify_add_watch d ≡ some wd
    → c ≡ d
one_name c d wd h k = ground (
  arith,
  bytes_eq_iff c (codes "/v"),
  bytes_eq_iff d (codes "/v"),
  bytes_eq_iff c (codes "/v/d"),
  bytes_eq_iff d (codes "/v/d"),
)

named :
    (d : Bytes) (entries : List Entry)
    → small.directory_iterator d ≡ some entries
    → All (λ (e : Entry). e.path ≡ d ++ (codes "/" ++ e.filename)) entries
named d entries h = elim (Bool-cases (bytes_eq d (codes "/v/d"))) [
  | inl e ↦
      subst (All (λ (e : Entry). e.path ≡ d ++ (codes "/" ++ e.filename)))
        (some-injective _ entries (rw e at h)) (refl, tt)
  | inr e ↦ elim (Bool-cases (bytes_eq d (codes "/v"))) [
    | inl k ↦
        subst (All (λ (e : Entry). e.path ≡ d ++ (codes "/" ++ e.filename)))
          (some-injective _ entries (rw (e, k) at h)) (refl, (refl, tt))
    | inr k ↦ (let q : none ≡ some entries = rw (e, k) at h in cc)
  ]
]

IsLower-entries :
    (d : Bytes) (entries : List Entry) (r : ℕ)
    → small.directory_iterator d ≡ some entries
    → (bytes_eq d (codes "/v/d") ≡ false → r ≡ 1)
    → All (λ (e : Entry). IsLower small rank r e.path) entries
unfolding bytes_eq
IsLower-entries d entries r h k = elim (Bool-cases (bytes_eq d (codes "/v/d"))) [
  | inl e ↦
      subst (All (λ (e : Entry). IsLower small rank r e.path))
        (some-injective _ entries (rw e at h))
        (rw ((bytes_eq_iff d (codes "/v/d")).0 e) (((λ f. cc), (λ _ f. cc)), tt))
  | inr e ↦ elim (Bool-cases (bytes_eq d (codes "/v"))) [
    | inl i ↦
        subst (All (λ (e : Entry). IsLower small rank r e.path))
          (some-injective _ entries (rw (e, i) at h))
          (rw (k e, (bytes_eq_iff d (codes "/v")).0 i)
            (((λ f. cc), (λ _ f. cc)), (((λ f. ground arith), (λ _ f. cc)), tt)))
    | inr i ↦ (let q : none ≡ some entries = rw (e, i) at h in cc)
  ]
]

rank_top :
    (path : Bytes) → bytes_eq (make_watch_path small path).0 (codes "/v/d") ≡ false → rank path ≡ 1
unfolding make_watch_path bytes_eq
rank_top path h = elim (Bool-cases (bytes_eq path (codes "/v/d"))) [
  | inl e ↦
      let q : true ≡ false =
        subst (λ (p : Bytes). bytes_eq (make_watch_path small p).0 (codes "/v/d") ≡ false)
          ((bytes_eq_iff path (codes "/v/d")).0 e) h in
      cc
  | inr e ↦ rw e refl
]

All-weaken :
    {A : Type 0} {P Q : A → Type 0} (xs : List A) → ((x : A) → P x → Q x) → All P xs → All Q xs
All-weaken [] f h = tt
All-weaken (x ∷ xs) f h = (f x h.0, All-weaken xs f h.1)

lower :
    (path : Bytes) (entries : List Entry)
    → small.directory_iterator (make_watch_path small path).0 ≡ some entries
    → All
        (λ (e : Entry).
          small.regex_match e.path (make_watch_path small path).1 ≡ true
          → IsLower small rank (rank path) e.path)
        entries
lower path entries h =
    All-weaken entries (λ x l _. l)
      (IsLower-entries (make_watch_path small path).0 entries (rank path) h (rank_top path))

small-IsTree : IsTree small rank
small-IsTree = record { one_name = one_name; named = named; lower = lower }

add_watch_ends_example :
    (t : Server (Bytes × Option Bytes)) × (add_watch small 2 (codes "/v") notifier empty ≡ some t)
    × Coherent small t.watches
unfolding bytes_eq
add_watch_ends_example = add_watch_ends small rank small-IsTree (codes "/v") notifier empty tt
