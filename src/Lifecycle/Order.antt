-- ===== src/Lifecycle/Order.antt =====
-- The order in which a task is initialized, started and stopped.
use iqlogger.Common.{
  ℕ, suc, ◌+◌, ◌≡◌, refl, sym, ap, ◌∙◌, Bool, true, false, Option, none, some, List, [], ◌∷◌, ◌++◌,
  if◌then◌else◌, subst, All, arith, Bool-cases, inl, inr,
}
use mathlib.Core.Option
use iqlogger.Lifecycle.{
  Impl, init_impl, start_impl, stop_impl, Task, Call, init, start, stop, call, run_calls, new_task,
}

-- The task runs, or does not, after these steps, if they are in the right order: it is not started
-- while it runs, not stopped while it does not, and not initialized.
abbrev pub runs_after : Bool → List Impl → Option Bool
runs_after s [] = some s
runs_after s (init_impl ∷ is) = none
runs_after true (start_impl ∷ is) = none
runs_after false (start_impl ∷ is) = runs_after true is
runs_after true (stop_impl ∷ is) = runs_after false is
runs_after false (stop_impl ∷ is) = none

runs_after-append :
    (s : Bool) (is js : List Impl)
    → runs_after s (is ++ js) ≡ Option.bind (runs_after s is) (λ t. runs_after t js)
unfolding Option.bind
runs_after-append s [] js = refl
runs_after-append s (init_impl ∷ is) js = refl
runs_after-append true (start_impl ∷ is) js = refl
runs_after-append false (start_impl ∷ is) js = runs_after-append true is js
runs_after-append true (stop_impl ∷ is) js = runs_after-append false is js
runs_after-append false (stop_impl ∷ is) js = refl

-- A task that is initialized: what it did after that is in the right order, and it is marked as
-- started if it runs.
pub record IsOrderly (t : Task) : Type 0 where
  pub ready : t.inited ≡ true
  pub steps : List Impl
  pub behind : t.trace ≡ init_impl ∷ steps
  pub order : runs_after false steps ≡ some t.started

next-IsOrderly :
    (i : Impl) (t : Task) (s : Bool)
    → IsOrderly t
    → (t.inited ≡ true → runs_after t.started (i ∷ []) ≡ some s)
    → IsOrderly (record t { started = s; trace = t.trace ++ (i ∷ []) })
next-IsOrderly i t s h next = record {
  ready = h.ready;
  steps = h.steps ++ (i ∷ []);
  behind = ap (λ (x : List Impl). x ++ (i ∷ [])) h.behind;
  order =
      runs_after-append false h.steps (i ∷ []) ∙ unfold Option.bind in rw h.order (next h.ready);
}

if_true : {A : Type 0} (b : Bool) (x y : A) → b ≡ true → (if b then x else y) ≡ x
if_true b x y h = ground arith

if_false : {A : Type 0} (b : Bool) (x y : A) → b ≡ false → (if b then x else y) ≡ y
if_false b x y h = ground arith

call-IsOrderly : (c : Call) (t : Task) → IsOrderly t → IsOrderly (call c t).0
unfolding call
call-IsOrderly (init b) t h =
    subst (λ (p : Task × Bool). IsOrderly p.0) (sym (if_true t.inited _ _ h.ready)) h
call-IsOrderly (start b) t h = elim (Bool-cases t.started) [
  | inl e ↦ subst (λ (p : Task × Bool). IsOrderly p.0) (sym (if_true t.started _ _ e)) h
  | inr e ↦
      subst (λ (p : Task × Bool). IsOrderly p.0)
        (sym (if_false t.started _ _ e ∙ if_true t.inited _ _ h.ready))
        (next-IsOrderly start_impl t true h (λ k. rw e refl))
]
call-IsOrderly (stop b) t h = elim (Bool-cases t.started) [
  | inl e ↦ rw e (next-IsOrderly stop_impl t false h (λ k. rw e refl))
  | inr e ↦ subst (λ (p : Task × Bool). IsOrderly p.0) (sym (if_false t.started _ _ e)) h
]

run_calls-IsOrderly : (calls : List Call) (t : Task) → IsOrderly t → IsOrderly (run_calls calls t)
unfolding run_calls
run_calls-IsOrderly [] t h = h
run_calls-IsOrderly (c ∷ calls) t h = run_calls-IsOrderly calls (call c t).0 (call-IsOrderly c t h)

-- A task whose first call is `init`, under any calls after that, whether what they run returns or
-- throws: it is initialized once, at first; then it is started and stopped by turns; and it is
-- marked as started when the last of these was a start.
pub run_calls-init :
    (calls : List Call) (returns : Bool) → IsOrderly (run_calls (init returns ∷ calls) new_task)
unfolding run_calls call
run_calls-init calls returns =
    run_calls-IsOrderly calls _ (record { ready = refl; steps = []; behind = refl; order = refl })

-- Not a stop.
abbrev pub IsNoStop : Call → Type 0
IsNoStop (stop returns) = ⊥
IsNoStop _ = Unit

abbrev pub count_starts : List Impl → ℕ
count_starts [] = 0
count_starts (start_impl ∷ is) = suc (count_starts is)
count_starts (_ ∷ is) = count_starts is

count_starts-append :
    (is js : List Impl) → count_starts (is ++ js) ≡ count_starts is + count_starts js
count_starts-append [] js = omega arith
count_starts-append (init_impl ∷ is) js = count_starts-append is js
count_starts-append (start_impl ∷ is) js = omega (arith, count_starts-append is js)
count_starts-append (stop_impl ∷ is) js = count_starts-append is js

started_stays :
    (calls : List Call) (t : Task)
    → t.started ≡ true
    → All IsNoStop calls
    → count_starts (run_calls calls t).trace ≡ count_starts t.trace
unfolding run_calls call
started_stays [] t h a = refl
started_stays (init b ∷ calls) t h a = elim (Bool-cases t.inited) [
  | inl e ↦
      ap (λ (p : Task × Bool). count_starts (run_calls calls p.0).trace) (if_true t.inited _ _ e)
      ∙ started_stays calls t h a.1
  | inr e ↦
      rw e
        (started_stays calls _ h a.1 ∙ count_starts-append t.trace (init_impl ∷ []) ∙ omega arith)
]
started_stays (start b ∷ calls) t h a =
    ap (λ (p : Task × Bool). count_starts (run_calls calls p.0).trace) (if_true t.started _ _ h)
    ∙ started_stays calls t h a.1
started_stays (stop b ∷ calls) t h a = elim a.0 [ ]

-- A task that is started before it is initialized is never started after that, whatever is called,
-- until it is stopped.
pub start_uninited :
    (calls : List Call) (returns : Bool)
    → All IsNoStop calls
    → count_starts (run_calls (start returns ∷ calls) new_task).trace ≡ 0
unfolding run_calls call
start_uninited calls returns a = started_stays calls _ refl a
