-- ===== src/Tests/MessageQueue.antt =====
-- The queue between two producers and a consumer.
use iqlogger.Common.{◌+◌, ◌*◌, ◌<◌, ◌≡◌, refl, true, List, [], ◌∷◌, arith}
use iqlogger.Queue.{
  throttle, drop, call, wake, push, take_out, Event, caller_at, set_caller, on_full, begin, retry,
  finish, step, run, fresh,
}
use iqlogger.Queue.Bounded.{run-bounded}
use iqlogger.Queue.Accounts.{Balanced, run-Balanced}

-- Both producers pass the test before either enqueues.
abbrev both : List Event
both =
    call 0 3 0
    ∷ call 1 3 0
    ∷ push 0 true
    ∷ push 1 true
    ∷ call 0 3 5
    ∷ take_out 4
    ∷ wake 0 3
    ∷ take_out 3
    ∷ wake 0 0
    ∷ push 0 true
    ∷ []

interleaved_run :
    ((run 2 throttle (fresh 2) both).size ≡ 3)
    × ((run 2 throttle (fresh 2) both).throttled ≡ 3)
    × ((run 2 drop (fresh 2) both).dropped ≡ 3)
unfolding run step begin retry finish on_full set_caller caller_at
interleaved_run = (refl, refl, refl)

run-bounded_example : (run 2 throttle (fresh 2) both).size < 2 + 1 + 3 * 2
unfolding step begin retry finish on_full set_caller caller_at
run-bounded_example =
    run-bounded 3 2 1 2 throttle both (omega arith)
      (omega arith, (omega arith, (tt, (tt, (omega arith, (tt, (tt, (tt, (tt, (tt, tt))))))))))
      (
        omega arith,
        (
          omega arith,
          (tt, (tt, (omega arith, (tt, (omega arith, (tt, (omega arith, (tt, tt)))))))),
        ),
      )

run-Balanced_example : Balanced drop (run 2 drop (fresh 2) both)
run-Balanced_example = run-Balanced 2 2 drop both
