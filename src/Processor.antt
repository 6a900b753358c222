-- ===== src/Processor.antt =====
-- The thread of src/processor/ProcessorMachine.cpp that runs the scripts over the records. The script
-- engine is given: what it makes of a record, a message or none, or an exception.
use iqlogger.Common.{
  ℕ, ◌≡◌, ◌≢◌, refl, sym, ap, ◌∙◌, Bool, true, false, Option, none, some, List, [], ◌∷◌, ◌++◌,
  append_assoc, if◌then◌else◌, subst, All, All-parts, take, drop, take-append-drop, min, arith,
}
use iqlogger.Common.Result.{Result, ok, exception, std_exception}
use iqlogger.Pipeline.{max_queue_bulk_size}
use mathlib.Core.Option

-- One round of the loop over a bulk: an ignored record and an `Exception` leave nothing.
unfoldable pub process_one : {M : Type 0} → Result (Option M) → Option (List M) → Option (List M)
process_one (ok (some m)) rest = Option.map (◌∷◌ m) rest
process_one (ok none) rest = rest
process_one exception rest = rest
process_one std_exception rest = none

-- The machine: its queue, what was handed to the main queue, and whether it runs.
pub record Machine (R M : Type 0) : Type 0 where
  pub process_queue : List R
  pub to_main : List M
  pub running : Bool

if_true : {A : Type 0} (b : Bool) (x y : A) → b ≡ true → (if b then x else y) ≡ x
if_true b x y h = ground arith

module _ {R M : Type 0} (process : R → Result (Option M)) where
  unfoldable pub process_all : List R → Option (List M)
  unfolding process_one
  process_all [] = some []
  process_all (r ∷ rs) = process_one (process r) (process_all rs)

  -- An exception of the standard library ends the thread and stops the machine; the bulk is lost.
  unfoldable pub after_bulk : Option (List M) → Machine R M → Machine R M
  after_bulk none s = record s { running = false }
  after_bulk (some ms) s = record s { to_main = s.to_main ++ ms }

  -- One round while the machine runs; the queue gives `count` records, if it has so many.
  unfoldable pub process_round : ℕ → Machine R M → Machine R M
  unfolding process_all after_bulk
  process_round count s =
      let n = min count max_queue_bulk_size in
      if s.running
      then after_bulk (process_all (take n s.process_queue))
          (record s { process_queue = drop n s.process_queue })
      else s

  unfoldable pub process_rounds : List ℕ → Machine R M → Machine R M
  unfolding process_round
  process_rounds [] s = s
  process_rounds (count ∷ counts) s = process_rounds counts (process_round count s)

  -- The messages of the records that the scripts keep.
  abbrev kept_one : Result (Option M) → List M → List M
  kept_one (ok (some m)) ms = m ∷ ms
  kept_one _ ms = ms

  abbrev pub kept : List R → List M
  kept [] = []
  kept (r ∷ rs) = kept_one (process r) (kept rs)

  abbrev pub IsTame : R → Type 0
  IsTame r = process r ≢ std_exception

  process_all-kept : (rs : List R) → All IsTame rs → process_all rs ≡ some (kept rs)
  unfolding process_all
  process_all-kept [] h = refl
  process_all-kept (r ∷ rs) h =
      ap (process_one (process r)) (process_all-kept rs h.1) ∙ one (process r) h.0
    where
      one :
          (o : Result (Option M))
          → o ≢ std_exception
          → process_one o (some (kept rs)) ≡ some (kept_one o (kept rs))
      one (ok (some m)) k = unfold process_one in refl
      one (ok none) k = unfold process_one in refl
      one exception k = unfold process_one in refl
      one std_exception k = absurd (k refl)

  kept-append : (rs ss : List R) → kept (rs ++ ss) ≡ kept rs ++ kept ss
  kept-append [] ss = refl
  kept-append (r ∷ rs) ss = ap (kept_one (process r)) (kept-append rs ss) ∙ one (process r)
    where
      one :
          (o : Result (Option M))
          → kept_one o (kept rs ++ kept ss) ≡ kept_one o (kept rs) ++ kept ss
      one (ok (some m)) = refl
      one (ok none) = refl
      one exception = refl
      one std_exception = refl

  -- What was handed on, and what the records that wait will give.
  abbrev pub all_messages : Machine R M → List M
  all_messages s = s.to_main ++ kept s.process_queue

  -- A round that no exception ends.
  abbrev handed : ℕ → Machine R M → Machine R M
  handed n s = record {
    process_queue = drop n s.process_queue;
    to_main = s.to_main ++ kept (take n s.process_queue);
    running = s.running;
  }

  process_round-handed :
      (count : ℕ) (s : Machine R M)
      → s.running ≡ true
      → All IsTame (take (min count max_queue_bulk_size) s.process_queue)
      → process_round count s ≡ handed (min count max_queue_bulk_size) s
  unfolding process_round after_bulk
  process_round-handed count s h k =
      let n = min count max_queue_bulk_size in
      if_true s.running _ s h
      ∙ ap
          (λ (o : Option (List M)).
            after_bulk o (record s { process_queue = drop n s.process_queue }))
          (process_all-kept (take n s.process_queue) k)

  all_messages-handed : (n : ℕ) (s : Machine R M) → all_messages (handed n s) ≡ all_messages s
  all_messages-handed n s =
      append_assoc s.to_main (kept (take n s.process_queue)) (kept (drop n s.process_queue))
      ∙ ap (◌++◌ s.to_main) (
          sym (kept-append (take n s.process_queue) (drop n s.process_queue))
          ∙ ap kept (take-append-drop n s.process_queue))

  -- One thread of the machine: if the engine throws no exception of the standard library for a record of the queue: in any
  -- rounds the thread goes on, and no record is lost, processed twice or overtaken by this thread: what was handed
  -- to the main queue, with what the waiting records will give, stays the same.
  pub process_rounds-messages :
      (counts : List ℕ) (s : Machine R M)
      → s.running ≡ true
      → All IsTame s.process_queue
      → ((process_rounds counts s).running ≡ true)
        × (all_messages (process_rounds counts s) ≡ all_messages s)
  unfolding process_rounds
  process_rounds-messages [] s h k = (h, refl)
  process_rounds-messages (count ∷ counts) s h k =
      let n : ℕ = min count max_queue_bulk_size in
      let parts =
        All-parts IsTame (take n s.process_queue) (drop n s.process_queue)
          (subst (All IsTame) (sym (take-append-drop n s.process_queue)) k) in
      let (runs, same) = process_rounds-messages counts (handed n s) h parts.1 in
      subst
        (λ (t : Machine R M).
          ((process_rounds counts t).running ≡ true)
          × (all_messages (process_rounds counts t) ≡ all_messages s))
        (sym (process_round-handed count s h parts.0)) (runs, same ∙ all_messages-handed n s)
