-- ===== src/Queue/Accounts.antt =====
-- Where the items of all calls are, and what the counter of dropped messages says.
use iqlogger.Common.{
  ℕ, zero, suc, ◌+◌, ◌%◌, ◌^◌, ◌≡◌, refl, Bool, true, false, Option, none, some, List, [], ◌∷◌, ltb,
  arith, inl, inr, Bool-cases,
}
use iqlogger.Queue.{
  Strategy, undefined, throttle, drop, Caller, idle, waiting, passed, MessageQueue, Event, call,
  wake, push, take_out, caller_at, set_caller, on_full, begin, retry, finish, step, run,
  idle_callers, fresh,
}
use iqlogger.Queue.Bounded.{items}

-- The items of the calls that have not returned.
abbrev pub in_flight : List Caller → ℕ
in_flight [] = 0
in_flight (c ∷ cs) = items c + in_flight cs

-- What `m_dropped` says, when so many items were refused.
abbrev pub counted : Strategy → ℕ → ℕ
counted drop n = n % 2 ^ 64
counted _ n = 0

-- What is refused under each strategy.
abbrev pub Refuses : Strategy → ℕ → Type 0
Refuses throttle n = n ≡ 0
Refuses _ n = Unit

pub record Balanced (strategy : Strategy) (s : MessageQueue) : Type 0 where
  pub balance : s.offered ≡ s.taken + s.size + in_flight s.callers + s.refused + s.failed
  pub drops : s.dropped ≡ counted strategy s.refused
  pub refuses : Refuses strategy s.refused

in_flight-set_caller :
    (i : ℕ) (c d : Caller) (cs : List Caller)
    → caller_at i cs ≡ some c
    → in_flight (set_caller i d cs) + items c ≡ in_flight cs + items d
unfolding set_caller caller_at
in_flight-set_caller i c d [] e = cc
in_flight-set_caller zero c d (x ∷ cs) e = ground arith
in_flight-set_caller (suc i) c d (x ∷ cs) e = omega (arith, in_flight-set_caller i c d cs e)

module _ (max_queue_size : ℕ) where
  on_full-Balanced :
      (k : Strategy) (i n : ℕ) (s : MessageQueue)
      → caller_at i s.callers ≡ some idle
      → Balanced k s
      → Balanced k (on_full k i n s)
  unfolding on_full
  on_full-Balanced undefined i n s e v = record {
    balance = omega (arith, v.balance);
    drops = v.drops;
    refuses = tt;
  }
  on_full-Balanced throttle i n s e v = record {
    balance = omega (arith, v.balance, in_flight-set_caller i idle (waiting n) s.callers e);
    drops = v.drops;
    refuses = v.refuses;
  }
  on_full-Balanced drop i n s e v = record {
    balance = omega (arith, v.balance);
    drops = omega (arith, v.drops);
    refuses = tt;
  }

  begin-Balanced :
      (k : Strategy) (c : Option Caller) (i n approx : ℕ) (s : MessageQueue)
      → caller_at i s.callers ≡ c
      → Balanced k s
      → Balanced k (begin max_queue_size k c i n approx s)
  unfolding begin
  begin-Balanced k none i n approx s e v = v
  begin-Balanced k (some (waiting m)) i n approx s e v = v
  begin-Balanced k (some (passed m)) i n approx s e v = v
  begin-Balanced k (some idle) i n approx s e v = elim (Bool-cases (ltb approx max_queue_size)) [
    | inl room ↦ rw room (record {
      balance = omega (arith, v.balance, in_flight-set_caller i idle (passed n) s.callers e);
      drops = v.drops;
      refuses = v.refuses;
    })
    | inr full ↦ rw full (on_full-Balanced k i n s e v)
  ]

  retry-Balanced :
      (k : Strategy) (c : Option Caller) (i approx : ℕ) (s : MessageQueue)
      → caller_at i s.callers ≡ c
      → Balanced k s
      → Balanced k (retry max_queue_size k c i approx s)
  unfolding retry
  retry-Balanced k none i approx s e v = v
  retry-Balanced k (some idle) i approx s e v = v
  retry-Balanced k (some (passed m)) i approx s e v = v
  retry-Balanced k (some (waiting n)) i approx s e v =
      elim (Bool-cases (ltb approx max_queue_size)) [
        | inl room ↦ rw room (record {
          balance =
              omega (arith, v.balance, in_flight-set_caller i (waiting n) (passed n) s.callers e);
          drops = v.drops;
          refuses = v.refuses;
        })
        | inr full ↦ rw full v
      ]

  finish-Balanced :
      (k : Strategy) (c : Option Caller) (i : ℕ) (done : Bool) (s : MessageQueue)
      → caller_at i s.callers ≡ c
      → Balanced k s
      → Balanced k (finish max_queue_size k c i done s)
  unfolding finish
  finish-Balanced k none i done s e v = v
  finish-Balanced k (some idle) i done s e v = v
  finish-Balanced k (some (waiting m)) i done s e v = v
  finish-Balanced k (some (passed n)) i true s e v = record {
    balance = omega (arith, v.balance, in_flight-set_caller i (passed n) idle s.callers e);
    drops = v.drops;
    refuses = v.refuses;
  }
  finish-Balanced k (some (passed n)) i false s e v = record {
    balance = omega (arith, v.balance, in_flight-set_caller i (passed n) idle s.callers e);
    drops = v.drops;
    refuses = v.refuses;
  }

  step-Balanced :
      (k : Strategy) (e : Event) (s : MessageQueue)
      → Balanced k s
      → Balanced k (step max_queue_size k s e)
  unfolding step
  step-Balanced k (call i n approx) s v =
      begin-Balanced k (caller_at i s.callers) i n approx s refl v
  step-Balanced k (wake i approx) s v = retry-Balanced k (caller_at i s.callers) i approx s refl v
  step-Balanced k (push i done) s v = finish-Balanced k (caller_at i s.callers) i done s refl v
  step-Balanced k (take_out m) s v = record {
    balance = omega (arith, v.balance);
    drops = v.drops;
    refuses = v.refuses;
  }

  run-keeps-Balanced :
      (k : Strategy) (es : List Event) (s : MessageQueue)
      → Balanced k s
      → Balanced k (run max_queue_size k s es)
  unfolding run
  run-keeps-Balanced k [] s v = v
  run-keeps-Balanced k (e ∷ es) s v =
      run-keeps-Balanced k es (step max_queue_size k s e) (step-Balanced k e s v)

in_flight-idle_callers : (k : ℕ) → in_flight (idle_callers k) ≡ 0
in_flight-idle_callers zero = refl
in_flight-idle_callers (suc k) = omega (arith, in_flight-idle_callers k)

fresh-Balanced : (k : Strategy) (threads : ℕ) → Balanced k (fresh threads)
fresh-Balanced undefined threads = record {
  balance = omega (arith, in_flight-idle_callers threads);
  drops = refl;
  refuses = tt;
}
fresh-Balanced throttle threads = record {
  balance = omega (arith, in_flight-idle_callers threads);
  drops = refl;
  refuses = refl;
}
fresh-Balanced drop threads = record {
  balance = omega (arith, in_flight-idle_callers threads);
  drops = refl;
  refuses = tt;
}

-- However the calls of any number of threads are interleaved, each item that was offered was taken
-- out, is in the queue, belongs to a call that has not returned, was refused, or could not be
-- enqueued by the library, and it is counted once. The throttling strategy refuses nothing; under
-- the dropping one `m_dropped` is the number of refused items modulo 2 ^ 64; under the undefined
-- one it stays 0, whatever was refused.
pub run-Balanced :
    (max_queue_size threads : ℕ) (strategy : Strategy) (es : List Event)
    → Balanced strategy (run max_queue_size strategy (fresh threads) es)
run-Balanced max_queue_size threads strategy es =
    run-keeps-Balanced max_queue_size strategy es (fresh threads) (fresh-Balanced strategy threads)
