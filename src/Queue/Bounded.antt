-- ===== src/Queue/Bounded.antt =====
-- How far the size can go past the limit: each thread tests the size before it enqueues, so all of
-- them may pass the test before the first enqueues.
use iqlogger.Common.{
  ℕ, Option, none, some, ◌⊎◌, ltb→lt, zero, suc, ◌+◌, ◌*◌, ◌≤◌, ◌<◌, ◌≡◌, refl, true, false, List,
  [], ◌∷◌, ltb, length, All, Bool, ap, subst, sym, ◌∙◌, arith, inl, inr, Bool-cases,
}
use iqlogger.Queue.{
  Strategy, undefined, throttle, drop, Caller, idle, waiting, passed, MessageQueue, Event, call,
  wake, push, take_out, caller_at, set_caller, on_full, begin, retry, finish, step, run,
  idle_callers, fresh,
}

-- The items of a caller, and those that are past the tests.
abbrev pub items : Caller → ℕ
items idle = 0
items (waiting n) = n
items (passed n) = n

abbrev pub admitted : Caller → ℕ
admitted (passed n) = n
admitted _ = 0

abbrev pub pending : List Caller → ℕ
pending [] = 0
pending (c ∷ cs) = admitted c + pending cs

module _ (bulk : ℕ) where
  abbrev pub Small : List Caller → Type 0
  Small cs = All (λ c. items c ≤ bulk) cs

  -- Every call brings at most `bulk` items.
  abbrev pub SmallEvent : Event → Type 0
  SmallEvent (call i n approx) = n ≤ bulk
  SmallEvent _ = Unit

  Small-set_caller :
      (i : ℕ) (d : Caller) (cs : List Caller)
      → items d ≤ bulk
      → Small cs
      → Small (set_caller i d cs)
  unfolding set_caller
  Small-set_caller i d [] h s = s
  Small-set_caller zero d (c ∷ cs) h s = (h, s.1)
  Small-set_caller (suc i) d (c ∷ cs) h s = (s.0, Small-set_caller i d cs h s.1)

  items-caller_at :
      (i : ℕ) (c : Caller) (cs : List Caller) → caller_at i cs ≡ some c → Small cs → items c ≤ bulk
  unfolding caller_at
  items-caller_at i c [] e s = cc
  items-caller_at zero c (d ∷ cs) e s = ground arith
  items-caller_at (suc i) c (d ∷ cs) e s = items-caller_at i c cs e s.1

  admitted-le : (c : Caller) → admitted c ≤ items c
  admitted-le idle = omega arith
  admitted-le (waiting n) = omega arith
  admitted-le (passed n) = omega arith

  pending-le : (cs : List Caller) → Small cs → pending cs ≤ bulk * length cs
  pending-le [] s = omega arith
  pending-le (c ∷ cs) s = omega (arith, pending-le cs s.1, admitted-le c, s.0)

  pub record InBound (max_queue_size threads : ℕ) (s : MessageQueue) : Type 0 where
    pub same_threads : length s.callers ≡ threads
    pub small : Small s.callers
    pub within : s.size + pending s.callers < max_queue_size + bulk * threads

pub length-set_caller :
    (i : ℕ) (d : Caller) (cs : List Caller) → length (set_caller i d cs) ≡ length cs
unfolding set_caller
length-set_caller i d [] = refl
length-set_caller zero d (c ∷ cs) = refl
length-set_caller (suc i) d (c ∷ cs) = omega (arith, length-set_caller i d cs)

pub pending-set_caller :
    (i : ℕ) (c d : Caller) (cs : List Caller)
    → caller_at i cs ≡ some c
    → pending (set_caller i d cs) + admitted c ≡ pending cs + admitted d
unfolding set_caller caller_at
pending-set_caller i c d [] e = cc
pending-set_caller zero c d (x ∷ cs) e = ground arith
pending-set_caller (suc i) c d (x ∷ cs) e = omega (arith, pending-set_caller i c d cs e)

-- An estimate falls short of the size by at most `slack`.
abbrev pub Near : ℕ → Event → MessageQueue → Type 0
Near slack (call i n approx) s = s.size ≤ approx + slack
Near slack (wake i approx) s = s.size ≤ approx + slack
Near slack _ s = Unit

-- Each estimate of a run does.
abbrev pub AreNear : ℕ → ℕ → Strategy → List Event → MessageQueue → Type 0
AreNear slack max_queue_size strategy [] s = Unit
AreNear slack max_queue_size strategy (e ∷ es) s =
    Near slack e s × AreNear slack max_queue_size strategy es (step max_queue_size strategy s e)

module _ (bulk max_queue_size slack threads : ℕ) (strategy : Strategy) where
  -- The caller's state is replaced.
  set_caller-InBound :
      (i : ℕ) (c d : Caller) (s t : MessageQueue)
      → caller_at i s.callers ≡ some c
      → t.callers ≡ set_caller i d s.callers
      → items d ≤ bulk
      → InBound bulk (max_queue_size + slack) threads s
      → t.size + admitted d ≤ s.size + admitted c ⊎ t.size < max_queue_size + slack
      → InBound bulk (max_queue_size + slack) threads t
  set_caller-InBound i c d s t e same h v w = record {
    same_threads = count;
    small = every;
    within = omega (
      arith,
      w,
      count,
      pending-le bulk t.callers every,
      ap pending same,
      pending-set_caller i c d s.callers e,
      v.within,
      ap (λ (k : ℕ). bulk * k) count,
    );
  }
    where
      count : length t.callers ≡ threads
      count = ap length same ∙ length-set_caller i d s.callers ∙ v.same_threads

      every : Small bulk t.callers
      every = subst (Small bulk) (sym same) (Small-set_caller bulk i d s.callers h v.small)

  on_full-InBound :
      (k : Strategy) (i n : ℕ) (s : MessageQueue)
      → caller_at i s.callers ≡ some idle
      → n ≤ bulk
      → InBound bulk (max_queue_size + slack) threads s
      → InBound bulk (max_queue_size + slack) threads (on_full k i n s)
  unfolding on_full
  on_full-InBound undefined i n s e h v = record {
    same_threads = v.same_threads;
    small = v.small;
    within = v.within;
  }
  on_full-InBound throttle i n s e h v =
      set_caller-InBound i idle (waiting n) s _ e refl h v (inl (omega arith))
  on_full-InBound drop i n s e h v = record {
    same_threads = v.same_threads;
    small = v.small;
    within = v.within;
  }

  begin-InBound :
      (c : Option Caller) (i n approx : ℕ) (s : MessageQueue)
      → caller_at i s.callers ≡ c
      → n ≤ bulk
      → s.size ≤ approx + slack
      → InBound bulk (max_queue_size + slack) threads s
      → InBound bulk (max_queue_size + slack) threads (begin max_queue_size strategy c i n approx s)
  unfolding begin
  begin-InBound none i n approx s e h a v = v
  begin-InBound (some (waiting m)) i n approx s e h a v = v
  begin-InBound (some (passed m)) i n approx s e h a v = v
  begin-InBound (some idle) i n approx s e h a v = elim (Bool-cases (ltb approx max_queue_size)) [
    | inl room ↦ rw room (
        set_caller-InBound i idle (passed n) s _ e refl h v
          (inr (omega (arith, ltb→lt _ _ room, a))))
    | inr full ↦ rw full (on_full-InBound strategy i n s e h v)
  ]

  retry-InBound :
      (c : Option Caller) (i approx : ℕ) (s : MessageQueue)
      → caller_at i s.callers ≡ c
      → s.size ≤ approx + slack
      → InBound bulk (max_queue_size + slack) threads s
      → InBound bulk (max_queue_size + slack) threads (retry max_queue_size strategy c i approx s)
  unfolding retry
  retry-InBound none i approx s e a v = v
  retry-InBound (some idle) i approx s e a v = v
  retry-InBound (some (passed m)) i approx s e a v = v
  retry-InBound (some (waiting n)) i approx s e a v =
      elim (Bool-cases (ltb approx max_queue_size)) [
        | inl room ↦ rw room (
            set_caller-InBound i (waiting n) (passed n) s _ e refl
              (items-caller_at bulk i (waiting n) s.callers e v.small) v
              (inr (omega (arith, ltb→lt _ _ room, a))))
        | inr full ↦ rw full v
      ]

  finish-InBound :
      (c : Option Caller) (i : ℕ) (done : Bool) (s : MessageQueue)
      → caller_at i s.callers ≡ c
      → InBound bulk (max_queue_size + slack) threads s
      → InBound bulk (max_queue_size + slack) threads (finish max_queue_size strategy c i done s)
  unfolding finish
  finish-InBound none i done s e v = v
  finish-InBound (some idle) i done s e v = v
  finish-InBound (some (waiting m)) i done s e v = v
  finish-InBound (some (passed n)) i true s e v =
      set_caller-InBound i (passed n) idle s _ e refl (omega arith) v (inl (omega arith))
  finish-InBound (some (passed n)) i false s e v =
      set_caller-InBound i (passed n) idle s _ e refl (omega arith) v (inl (omega arith))

  step-InBound :
      (e : Event) (s : MessageQueue)
      → SmallEvent bulk e
      → Near slack e s
      → InBound bulk (max_queue_size + slack) threads s
      → InBound bulk (max_queue_size + slack) threads (step max_queue_size strategy s e)
  unfolding step
  step-InBound (call i n approx) s h a v =
      begin-InBound (caller_at i s.callers) i n approx s refl h a v
  step-InBound (wake i approx) s h a v = retry-InBound (caller_at i s.callers) i approx s refl a v
  step-InBound (push i done) s h a v = finish-InBound (caller_at i s.callers) i done s refl v
  step-InBound (take_out m) s h a v = record {
    same_threads = v.same_threads;
    small = v.small;
    within = omega (arith, v.within);
  }

  run-InBound :
      (es : List Event) (s : MessageQueue)
      → All (SmallEvent bulk) es
      → AreNear slack max_queue_size strategy es s
      → InBound bulk (max_queue_size + slack) threads s
      → InBound bulk (max_queue_size + slack) threads (run max_queue_size strategy s es)
  unfolding run
  run-InBound [] s h a v = v
  run-InBound (e ∷ es) s h a v =
      run-InBound es (step max_queue_size strategy s e) h.1 a.1 (step-InBound e s h.0 a.0 v)

length-idle_callers : (k : ℕ) → length (idle_callers k) ≡ k
length-idle_callers zero = refl
length-idle_callers (suc k) = ap suc (length-idle_callers k)

Small-idle_callers : (bulk k : ℕ) → Small bulk (idle_callers k)
Small-idle_callers bulk zero = tt
Small-idle_callers bulk (suc k) = (omega arith, Small-idle_callers bulk k)

pending-idle_callers : (k : ℕ) → pending (idle_callers k) ≡ 0
pending-idle_callers zero = refl
pending-idle_callers (suc k) = omega (arith, pending-idle_callers k)

-- However the calls of any number of threads are interleaved, and whatever the strategy is, the
-- queue does not grow past its limit by more than one bulk for each thread and what the estimates of
-- the size miss: with a limit of one item or more, calls of at most `bulk` items, and estimates that
-- fall short of the size by at most `slack` items at each test, the size stays below the limit plus
-- `slack` plus `bulk` times the number of the threads.
pub run-bounded :
    (bulk max_queue_size slack threads : ℕ) (strategy : Strategy) (es : List Event)
    → 0 < max_queue_size
    → All (SmallEvent bulk) es
    → AreNear slack max_queue_size strategy es (fresh threads)
    → (run max_queue_size strategy (fresh threads) es).size
      < max_queue_size + slack + bulk * threads
run-bounded bulk max_queue_size slack threads strategy es h small near = omega (
  arith,
  (run-InBound bulk max_queue_size slack threads strategy es (fresh threads) small near
      start).within,
)
  where
    start : InBound bulk (max_queue_size + slack) threads (fresh threads)
    start = record {
      same_threads = length-idle_callers threads;
      small = Small-idle_callers bulk threads;
      within = omega (arith, pending-idle_callers threads);
    }
