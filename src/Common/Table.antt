-- ===== src/Common/Table.antt =====
-- Tables as association lists, over any type of keys with an equality test.
use mathlib.Core.Path.{◌≡◌, refl, subst, ◌∙◌}
use mathlib.Core.Logic.{◌↔◌, ◌≢◌, inl, inr}
use mathlib.Core.Bool.{Bool, true, false}
use mathlib.Core.Option.{Option, none, some, some-injective}
use mathlib.Core.List.{List, [], ◌∷◌}
use Prim.Native.Nat.{ℕ}
use native.Mathlib.Omega.{arith}
use iqlogger.Common.Compare.{◌==◌ as nat_eq, ==_iff, Bool-cases, if◌then◌else◌}
use iqlogger.Common.Text.{Bytes, bytes_eq, bytes_eq_iff}

pub record Key (K : Type 0) : Type 0 where
  pub test : K → K → Bool
  pub test_iff : (a b : K) → (test a b ≡ true) ↔ (a ≡ b)

instance abbrev pub nat_key : Key ℕ
nat_key = record { test = nat_eq; test_iff = ==_iff }

instance abbrev pub bytes_key : Key Bytes
bytes_key = record { test = bytes_eq; test_iff = bytes_eq_iff }

module _ {K : Type 0} {V : Type 0} ⦃k : Key K⦄ where
  unfoldable pub lookup : K → List (K × V) → Option V
  lookup i [] = none
  lookup i ((j, v) ∷ m) = if k.test j i then some v else lookup i m

  -- `operator[]` with an assignment: overwrites, or adds.
  unfoldable pub assign : K → V → List (K × V) → List (K × V)
  assign i v [] = (i, v) ∷ []
  assign i v ((j, w) ∷ m) = if k.test j i then (j, v) ∷ m else (j, w) ∷ assign i v m

  -- `insert`: a key that is there keeps its value.
  unfoldable pub insert : K → V → List (K × V) → List (K × V)
  insert i v [] = (i, v) ∷ []
  insert i v ((j, w) ∷ m) = if k.test j i then (j, w) ∷ m else (j, w) ∷ insert i v m

  unfoldable pub erase : K → List (K × V) → List (K × V)
  erase i [] = []
  erase i ((j, w) ∷ m) = if k.test j i then erase i m else (j, w) ∷ erase i m

  pub lookup-assign :
      (i j : K) (v : V) (m : List (K × V))
      → lookup j (assign i v m) ≡ (if k.test i j then some v else lookup j m)
  unfolding lookup assign
  lookup-assign i j v [] = refl
  lookup-assign i j v ((l, w) ∷ m) =
      ground (arith, k.test_iff l i, k.test_iff l j, k.test_iff i j, lookup-assign i j v m)

  pub lookup-erase :
      (i j : K) (m : List (K × V))
      → lookup j (erase i m) ≡ (if k.test i j then none else lookup j m)
  unfolding lookup erase
  lookup-erase i j [] = ground arith
  lookup-erase i j ((l, w) ∷ m) =
      ground (arith, k.test_iff l i, k.test_iff l j, k.test_iff i j, lookup-erase i j m)

  pub lookup-insert :
      (i j : K) (v : V) (m : List (K × V))
      → lookup i m ≡ none
      → lookup j (insert i v m) ≡ (if k.test i j then some v else lookup j m)
  unfolding lookup insert
  lookup-insert i j v [] h = refl
  lookup-insert i j v ((l, w) ∷ m) h =
      ground (arith, k.test_iff l i, k.test_iff l j, k.test_iff i j, lookup-insert i j v m)

-- The first of two optional values.
abbrev pub or_else : {V : Type 0} → Option V → Option V → Option V
or_else (some p) o = some p
or_else none o = o

module _ {K : Type 0} {V : Type 0} ⦃k : Key K⦄ where
  pub lookup-insert_or :
      (i j : K) (v : V) (m : List (K × V))
      → lookup j (insert i v m) ≡ or_else (lookup j m) (if k.test i j then some v else none)
  unfolding lookup insert
  lookup-insert_or i j v [] = refl
  lookup-insert_or i j v ((l, w) ∷ m) =
      ground (arith, k.test_iff l i, k.test_iff l j, k.test_iff i j, lookup-insert_or i j v m)

module _ {K : Type 0} ⦃k : Key K⦄ where
  pub test_refl : (i : K) → k.test i i ≡ true
  test_refl i = (k.test_iff i i).1 refl

  pub test_ne : (i j : K) → i ≢ j → k.test i j ≡ false
  test_ne i j h = ground (arith, k.test_iff i j)

module _ {K : Type 0} {V : Type 0} ⦃k : Key K⦄ where
  pub lookup-assign_self : (i : K) (v : V) (m : List (K × V)) → lookup i (assign i v m) ≡ some v
  lookup-assign_self i v m = lookup-assign i i v m ∙ rw (test_refl i) refl

  pub lookup-assign_ne :
      (i j : K) (v : V) (m : List (K × V)) → i ≢ j → lookup j (assign i v m) ≡ lookup j m
  lookup-assign_ne i j v m h = lookup-assign i j v m ∙ rw (test_ne i j h) refl

  pub lookup-erase_self : (i : K) (m : List (K × V)) → lookup i (erase i m) ≡ none
  lookup-erase_self i m = lookup-erase i i m ∙ rw (test_refl i) refl

  pub lookup-erase_ne : (i j : K) (m : List (K × V)) → i ≢ j → lookup j (erase i m) ≡ lookup j m
  lookup-erase_ne i j m h = lookup-erase i j m ∙ rw (test_ne i j h) refl

  pub lookup-insert_new :
      (i : K) (v : V) (m : List (K × V)) → lookup i m ≡ none → lookup i (insert i v m) ≡ some v
  lookup-insert_new i v m e = lookup-insert i i v m e ∙ rw (test_refl i) refl

  pub lookup-insert_ne :
      (i j : K) (v : V) (m : List (K × V))
      → lookup i m ≡ none
      → i ≢ j
      → lookup j (insert i v m) ≡ lookup j m
  lookup-insert_ne i j v m e h = lookup-insert i j v m e ∙ rw (test_ne i j h) refl

-- A property of every value of a table, through the operations.
module _ {K : Type 0} {V : Type 0} ⦃k : Key K⦄ (P : V → Type 0) where
  abbrev pub Values : List (K × V) → Type 0
  Values [] = Unit
  Values ((j, w) ∷ m) = P w × Values m

  pub lookup-Values : (i : K) (v : V) (m : List (K × V)) → Values m → lookup i m ≡ some v → P v
  unfolding lookup
  lookup-Values i v [] a h = cc
  lookup-Values i v ((j, w) ∷ m) a h = elim (Bool-cases (k.test j i)) [
    | inl e ↦ subst P (some-injective w v (rw e at h)) a.0
    | inr e ↦ lookup-Values i v m a.1 (rw e at h)
  ]

  pub assign-Values : (i : K) (v : V) (m : List (K × V)) → P v → Values m → Values (assign i v m)
  unfolding assign
  assign-Values i v [] p a = (p, tt)
  assign-Values i v ((j, w) ∷ m) p a = elim (Bool-cases (k.test j i)) [
    | inl e ↦ rw e (p, a.1)
    | inr e ↦ rw e (a.0, assign-Values i v m p a.1)
  ]

  pub insert-Values : (i : K) (v : V) (m : List (K × V)) → P v → Values m → Values (insert i v m)
  unfolding insert
  insert-Values i v [] p a = (p, tt)
  insert-Values i v ((j, w) ∷ m) p a = elim (Bool-cases (k.test j i)) [
    | inl e ↦ rw e a
    | inr e ↦ rw e (a.0, insert-Values i v m p a.1)
  ]

  pub erase-Values : (i : K) (m : List (K × V)) → Values m → Values (erase i m)
  unfolding erase
  erase-Values i [] a = tt
  erase-Values i ((j, w) ∷ m) a = elim (Bool-cases (k.test j i)) [
    | inl e ↦ rw e (erase-Values i m a.1)
    | inr e ↦ rw e (a.0, erase-Values i m a.1)
  ]
