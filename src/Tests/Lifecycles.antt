-- ===== src/Tests/Lifecycles.antt =====
-- Calls of one task; three outputs, the second of which is a log.
use iqlogger.Common.{◌≡◌, refl, true, false, some, List, [], ◌∷◌}
use iqlogger.Lifecycle.{
  init_impl, start_impl, stop_impl, Call, init, start, stop, run_calls, new_task, Stoppable,
  log_output, gelf_output, stop_outputs, call,
}
use iqlogger.Lifecycle.Order.{IsOrderly, run_calls-init}
use iqlogger.Lifecycle.Outputs.{stop_outputs_log}

abbrev calls : List Call
calls = start true ∷ start true ∷ stop false ∷ start true ∷ init true ∷ []

run_calls_run :
    (run_calls (init true ∷ calls) new_task).trace
    ≡ init_impl ∷ start_impl ∷ stop_impl ∷ start_impl ∷ []
unfolding run_calls call
run_calls_run = refl

run_calls-init_example : IsOrderly (run_calls (init true ∷ calls) new_task)
run_calls-init_example = run_calls-init calls true

abbrev running : Stoppable
running = record { started = true; joined = false }

abbrev ended : Stoppable
ended = record { started = false; joined = true }

stop_outputs_log_example :
    stop_outputs 2 (gelf_output running ∷ log_output running ∷ gelf_output running ∷ [])
    ≡ some (
      gelf_output ended
          ∷ log_output (record { started = false; joined = false })
          ∷ gelf_output running
          ∷ [],
      false,
    )
stop_outputs_log_example =
    stop_outputs_log 0 (gelf_output running ∷ []) (gelf_output running ∷ []) running (refl, tt) refl
