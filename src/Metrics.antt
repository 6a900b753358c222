-- ===== src/Metrics.antt =====
-- The table of the metrics: `MetricsTableInternal` of src/metrics/MetricsController.h. A callback is
-- what it is known by; the values that the callbacks return are given at each round.
use iqlogger.Common.{
  ℕ, ◌≡◌, refl, sym, ap, ◌∙◌, Bool, true, false, Option, none, some, List, [], ◌∷◌, Bytes, bytes_eq,
  bytes_eq_iff, if◌then◌else◌, arith, subst, inl, inr, Bool-cases, Option-cases,
}
use iqlogger.Common.Table.{
  bytes_key, lookup, assign, insert, or_else, lookup-assign, lookup-insert_or,
}
use mathlib.Core.Option

pub record Metrics (C : Type 0) : Type 0 where
  pub metrics_callbacks : List (Bytes × C)
  pub current_metrics : List (Bytes × ℕ)

module _ {C : Type 0} where
  unfoldable pub register_metric : Bytes → C → Metrics C → Metrics C
  unfolding insert
  register_metric name callback m = record {
    metrics_callbacks = insert name callback m.metrics_callbacks;
    current_metrics = insert name 0 m.current_metrics;
  }

  unfoldable pub update_all : (C → ℕ) → List (Bytes × C) → List (Bytes × ℕ) → List (Bytes × ℕ)
  unfolding assign
  update_all values [] current = current
  update_all values ((name, c) ∷ callbacks) current =
      update_all values callbacks (assign name (values c) current)

  unfoldable pub process_metrics : (C → ℕ) → Metrics C → Metrics C
  unfolding update_all
  process_metrics values m = record m {
    current_metrics = update_all values m.metrics_callbacks m.current_metrics;
  }

or_else_step :
    {V : Type 0} (a : Option V) (b : Bool) (c : V) (rest : Option V)
    → or_else (or_else a (if b then some c else none)) rest ≡ or_else a (if b then some c else rest)
or_else_step (some x) b c rest = refl
or_else_step none true c rest = refl
or_else_step none false c rest = refl

-- A registration, or a round of the metrics thread.
pub data Step (C : Type 0) : Type 0 where
  register : Bytes → C → Step C
  process : (C → ℕ) → Step C

module _ {C : Type 0} where
  unfoldable pub run_steps : List (Step C) → Metrics C → Metrics C
  unfolding register_metric process_metrics
  run_steps [] m = m
  run_steps (register name c ∷ steps) m = run_steps steps (register_metric name c m)
  run_steps (process values ∷ steps) m = run_steps steps (process_metrics values m)

  abbrev pub no_metrics : Metrics C
  no_metrics = record { metrics_callbacks = []; current_metrics = [] }

  -- The callback of a name: the first that is registered under it.
  abbrev pub registered : Bytes → List (Step C) → Option C
  registered name [] = none
  registered name (register n c ∷ steps) = if bytes_eq n name then some c else registered name steps
  registered name (process values ∷ steps) = registered name steps

  -- No name stands twice in the table.
  abbrev IsSingle : List (Bytes × C) → Type 0
  IsSingle [] = Unit
  IsSingle ((name, c) ∷ callbacks) = (lookup name callbacks ≡ none) × IsSingle callbacks

  insert-IsSingle :
      (name : Bytes) (c : C) (callbacks : List (Bytes × C))
      → IsSingle callbacks
      → IsSingle (insert name c callbacks)
  unfolding insert lookup
  insert-IsSingle name c [] h = (refl, tt)
  insert-IsSingle name c ((n, d) ∷ callbacks) h = elim (Bool-cases (bytes_eq n name)) [
    | inl e ↦ rw e h
    | inr e ↦ rw e (
      lookup-insert_or name n c callbacks ∙ rw h.0 (absent n e),
      insert-IsSingle name c callbacks h.1,
    )
  ]
    where
      absent :
          (n : Bytes) → bytes_eq n name ≡ false → (if bytes_eq name n then some c else none) ≡ none
      absent n e = ground (arith, bytes_eq_iff n name, bytes_eq_iff name n)

  lookup-update_all :
      (values : C → ℕ) (name : Bytes) (callbacks : List (Bytes × C)) (current : List (Bytes × ℕ))
      → IsSingle callbacks
      → lookup name (update_all values callbacks current)
        ≡ or_else (Option.map values (lookup name callbacks)) (lookup name current)
  unfolding lookup update_all
  lookup-update_all values name [] current h = refl
  lookup-update_all values name ((n, c) ∷ callbacks) current h =
      elim (Bool-cases (bytes_eq n name)) [
        | inl e ↦
            let other : lookup name callbacks ≡ none =
              subst (λ (x : Bytes). lookup x callbacks ≡ none) ((bytes_eq_iff n name).0 e) h.0 in
            lookup-update_all values name callbacks (assign n (values c) current) h.1
            ∙ rw (other, e, lookup-assign n name (values c) current) (rw e refl)
        | inr e ↦
            lookup-update_all values name callbacks (assign n (values c) current) h.1
            ∙ rw (e, lookup-assign n name (values c) current) (rw e refl)
      ]

  -- A name that has no callback has no value.
  abbrev IsCovered : Metrics C → Type 0
  IsCovered m =
      (name : Bytes) → lookup name m.metrics_callbacks ≡ none → lookup name m.current_metrics ≡ none

  register-IsCovered :
      (name : Bytes) (c : C) (m : Metrics C) → IsCovered m → IsCovered (register_metric name c m)
  unfolding register_metric
  register-IsCovered name c m h n e =
      let before : or_else (lookup n m.metrics_callbacks) (if bytes_eq name n then some c else none)
          ≡ none =
        sym (lookup-insert_or name n c m.metrics_callbacks) ∙ e in
      lookup-insert_or name n 0 m.current_metrics
      ∙ nothing (lookup n m.metrics_callbacks) (bytes_eq name n) c (lookup n m.current_metrics)
          before (h n)
    where
      nothing :
          (a : Option C) (b : Bool) (c : C) (o : Option ℕ)
          → or_else a (if b then some c else none) ≡ none
          → (a ≡ none → o ≡ none)
          → or_else o (if b then some 0 else none) ≡ none
      nothing none true c o e k = cc
      nothing none false c o e k = rw (k refl) refl
      nothing (some d) b c o e k = cc

  process-IsCovered :
      (values : C → ℕ) (m : Metrics C)
      → IsSingle m.metrics_callbacks
      → IsCovered m
      → IsCovered (process_metrics values m)
  unfolding process_metrics
  process-IsCovered values m s h name e =
      lookup-update_all values name m.metrics_callbacks m.current_metrics s ∙ rw (e, h name e) refl

  -- After a round, whatever was registered and measured before.
  after_round :
      (steps : List (Step C)) (values : C → ℕ) (name : Bytes) (m : Metrics C)
      → IsSingle m.metrics_callbacks
      → IsCovered m
      → lookup name (process_metrics values (run_steps steps m)).current_metrics
        ≡ Option.map values (or_else (lookup name m.metrics_callbacks) (registered name steps))
  unfolding run_steps process_metrics register_metric
  after_round [] values name m s h =
      lookup-update_all values name m.metrics_callbacks m.current_metrics s
      ∙ elim (Option-cases (lookup name m.metrics_callbacks)) [
        | inl e ↦ rw (e, h name e) refl
        | inr (c, e) ↦ rw e refl
      ]
  after_round (register n c ∷ steps) values name m s h =
      after_round steps values name (register_metric n c m)
        (insert-IsSingle n c m.metrics_callbacks s) (register-IsCovered n c m h)
      ∙ ap (λ (o : Option C). Option.map values (or_else o (registered name steps)))
          (lookup-insert_or n name c m.metrics_callbacks)
      ∙ ap (Option.map values) (
          or_else_step (lookup name m.metrics_callbacks) (bytes_eq n name) c
            (registered name steps))
  after_round (process v ∷ steps) values name m s h =
      after_round steps values name (process_metrics v m) s (process-IsCovered v m s h)

  -- Whatever is registered, in any order with the rounds, twice under a name too: after a round a
  -- name has the value that its first callback returned in this round, and a name that was not
  -- registered has none.
  pub process_metrics-registered :
      (steps : List (Step C)) (values : C → ℕ) (name : Bytes)
      → lookup name (process_metrics values (run_steps steps no_metrics)).current_metrics
        ≡ Option.map values (registered name steps)
  unfolding lookup
  process_metrics-registered steps values name =
      after_round steps values name no_metrics tt (λ n e. refl)
