-- ===== src/Queue.antt =====
-- The bounded queue between threads: src/MessageQueue.h, with the strategies of
-- src/config/core/QueueOverflowStrategy.h. The queue inside, of the library concurrentqueue, is
-- seen through its size: a successful `enqueue_bulk` of n items adds n, a `try_dequeue_bulk` takes
-- at most what is there. `size_approx` is an estimate of the size, any number, which comes with each
-- test. A call of `enqueue_bulk`
-- by a thread is several steps, between which the others run: the test of the size, each further
-- test of the throttling loop, and the enqueueing. `enqueue` is the same with one item.
pub mod Bounded
pub mod Accounts
use iqlogger.Common.{
  ℕ, zero, suc, ◌+◌, ◌-◌, ◌%◌, ◌^◌, Bool, true, false, Option, none, some, List, [], ◌∷◌, ltb, min,
  if◌then◌else◌,
}

pub data Strategy : Type 0 where
  undefined throttle drop : Strategy

-- What a thread is doing: nothing, sleeping in the throttling loop, or past the tests; with the
-- number of its items.
pub data Caller : Type 0 where
  idle : Caller
  waiting : ℕ → Caller
  passed : ℕ → Caller

-- The last four fields are the history: what the callers have offered, what was taken out, what
-- was refused, and what the library could not enqueue.
pub record MessageQueue : Type 0 where
  pub size : ℕ
  pub dropped : ℕ
  pub throttled : ℕ
  pub callers : List Caller
  pub offered : ℕ
  pub taken : ℕ
  pub refused : ℕ
  pub failed : ℕ

pub data Event : Type 0 where
  -- Thread i calls `enqueue_bulk` with n items, and tests the size that is estimated then.
  call : ℕ → ℕ → ℕ → Event
  -- Thread i wakes up in the throttling loop, and tests the size that is estimated then.
  wake : ℕ → ℕ → Event
  -- Thread i enqueues its items, and the library answers.
  push : ℕ → Bool → Event
  -- Some thread takes items out, at most so many.
  take_out : ℕ → Event

unfoldable pub caller_at : ℕ → List Caller → Option Caller
caller_at i [] = none
caller_at zero (c ∷ cs) = some c
caller_at (suc i) (c ∷ cs) = caller_at i cs

unfoldable pub set_caller : ℕ → Caller → List Caller → List Caller
set_caller i d [] = []
set_caller zero d (c ∷ cs) = d ∷ cs
set_caller (suc i) d (c ∷ cs) = c ∷ set_caller i d cs

-- `m_dropped += count` and `m_throttled += count`, on `size_t`.
abbrev pub add_size : ℕ → ℕ → ℕ
add_size a b = (a + b) % 2 ^ 64

-- The queue is full.
unfoldable pub on_full : Strategy → ℕ → ℕ → MessageQueue → MessageQueue
on_full drop i n s = record s {
  dropped = add_size s.dropped n;
  offered = s.offered + n;
  refused = s.refused + n;
}
on_full throttle i n s = record s {
  throttled = add_size s.throttled n;
  callers = set_caller i (waiting n) s.callers;
  offered = s.offered + n;
}
on_full undefined i n s = record s { offered = s.offered + n; refused = s.refused + n }

module _ (max_queue_size : ℕ) (strategy : Strategy) where
  -- The beginning of `enqueue_bulk`.
  unfoldable pub begin : Option Caller → ℕ → ℕ → ℕ → MessageQueue → MessageQueue
  unfolding on_full
  begin (some idle) i n size_approx s =
      if ltb size_approx max_queue_size
      then record s { callers = set_caller i (passed n) s.callers; offered = s.offered + n }
      else on_full strategy i n s
  begin _ i n size_approx s = s

  -- One round of the throttling loop.
  unfoldable pub retry : Option Caller → ℕ → ℕ → MessageQueue → MessageQueue
  retry (some (waiting n)) i size_approx s =
      if ltb size_approx max_queue_size
      then record s { callers = set_caller i (passed n) s.callers }
      else s
  retry _ i size_approx s = s

  -- `return m_messageQueuePtr->enqueue_bulk(itemFirst, count)`.
  unfoldable pub finish : Option Caller → ℕ → Bool → MessageQueue → MessageQueue
  finish (some (passed n)) i true s = record s {
    size = s.size + n;
    callers = set_caller i idle s.callers;
  }
  finish (some (passed n)) i false s = record s {
    failed = s.failed + n;
    callers = set_caller i idle s.callers;
  }
  finish _ i done s = s

  unfoldable pub step : MessageQueue → Event → MessageQueue
  unfolding begin retry finish
  step s (call i n size_approx) = begin (caller_at i s.callers) i n size_approx s
  step s (wake i size_approx) = retry (caller_at i s.callers) i size_approx s
  step s (push i done) = finish (caller_at i s.callers) i done s
  step s (take_out m) = record s { size = s.size - min m s.size; taken = s.taken + min m s.size }

  unfoldable pub run : MessageQueue → List Event → MessageQueue
  run s [] = s
  run s (e ∷ es) = run (step s e) es

-- So many threads, none of which has called yet.
abbrev pub idle_callers : ℕ → List Caller
idle_callers zero = []
idle_callers (suc k) = idle ∷ idle_callers k

abbrev pub fresh : ℕ → MessageQueue
fresh k = record {
  size = 0;
  dropped = 0;
  throttled = 0;
  callers = idle_callers k;
  offered = 0;
  taken = 0;
  refused = 0;
  failed = 0;
}
