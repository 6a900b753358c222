-- ===== src/Pipeline.antt =====
-- The way of the messages between the queues: `importMessages` of src/inputs/Input.h, the thread of
-- src/OutputServer.cpp and `importMessages` of src/outputs/Output.h. A thread has no handler for
-- exceptions of the standard library there, so one ends the program: `none`. What an
-- `enqueue_bulk` is given is recorded; whether a full queue takes it is the queue's matter.
pub mod Import
pub mod Export
pub mod Relay
use iqlogger.Common.{
  ℕ, ◌+◌, ◌%◌, ◌^◌, Bool, true, false, Option, none, some, List, [], ◌∷◌, ◌++◌, if◌then◌else◌,
  length, take, drop, min,
}
use iqlogger.Common.Result.{Result, ok, exception, std_exception}
use mathlib.Core.Option

-- `max_queue_bulk_size`.
abbrev pub max_queue_bulk_size : ℕ
max_queue_bulk_size = 10_000

-- One round of a loop that converts a bulk: an `Exception` is logged, and what it was thrown for is
-- left out.
unfoldable pub export_one : {B : Type 0} → Result B → Option (List B) → Option (List B)
export_one (ok b) rest = Option.map (◌∷◌ b) rest
export_one exception rest = rest
export_one std_exception rest = none

module _ {A B : Type 0} (convert : A → Result B) where
  unfoldable pub export_all : List A → Option (List B)
  unfolding export_one
  export_all [] = some []
  export_all (a ∷ xs) = export_one (convert a) (export_all xs)

-- An input: its queue of records, its counter, and the messages that were handed to the processor
-- and to the main queue.
pub record Input (R M : Type 0) : Type 0 where
  pub queue : List R
  pub receive_counter : ℕ
  pub to_processor : List M
  pub to_main : List M

module _ {R M : Type 0} (export_message : R → Result M) (has_processor : Bool) where
  -- `if (k)`.
  unfoldable pub hand_on : List M → Input R M → Input R M
  hand_on [] s = s
  hand_on (m ∷ ms) s = record s {
    receive_counter = (s.receive_counter + length (m ∷ ms)) % 2 ^ 64;
    to_processor = if has_processor then s.to_processor ++ (m ∷ ms) else s.to_processor;
    to_main = if has_processor then s.to_main else s.to_main ++ (m ∷ ms);
  }

  -- `importMessages`; the queue gives `count` records, if it has so many.
  unfoldable pub import_messages : ℕ → Input R M → Option (Input R M)
  unfolding hand_on export_all
  import_messages count s =
      let n = min count max_queue_bulk_size in
      Option.map (λ ms. hand_on ms (record s { queue = drop n s.queue }))
        (export_all export_message (take n s.queue))

  -- The rounds of the thread of src/InputServer.cpp for one input.
  unfoldable pub import_rounds : List ℕ → Input R M → Option (Input R M)
  unfolding import_messages
  import_rounds [] s = some s
  import_rounds (count ∷ counts) s = Option.bind (import_messages count s) (import_rounds counts)

-- An output: how it makes a record of a message, and the records that were handed to its queue.
pub record Output (M R : Type 0) : Type 0 where
  pub convert : M → Result R
  pub enqueued : List R

module _ {M R : Type 0} where
  -- `if (imported)`.
  unfoldable pub enqueue_imported : Output M R → List R → Output M R
  enqueue_imported o [] = o
  enqueue_imported o (r ∷ rs) = record o { enqueued = o.enqueued ++ (r ∷ rs) }

  -- `importMessages` of an output.
  unfoldable pub import_bulk : List M → Output M R → Option (Output M R)
  unfolding enqueue_imported export_all
  import_bulk ms o = Option.map (enqueue_imported o) (export_all o.convert ms)

  -- The loop over the outputs.
  unfoldable pub fan_out : List M → List (Output M R) → Option (List (Output M R))
  unfolding import_bulk
  fan_out ms [] = some []
  fan_out ms (o ∷ os) = Option.bind (import_bulk ms o) (λ p. Option.map (◌∷◌ p) (fan_out ms os))

  -- The rounds of the thread of src/OutputServer.cpp.
  unfoldable pub fan_out_rounds : List (List M) → List (Output M R) → Option (List (Output M R))
  unfolding fan_out
  fan_out_rounds [] os = some os
  fan_out_rounds (ms ∷ bulks) os = Option.bind (fan_out ms os) (fan_out_rounds bulks)
