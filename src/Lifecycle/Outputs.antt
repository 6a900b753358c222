-- ===== src/Lifecycle/Outputs.antt =====
-- Stopping the outputs when one of them is a log output.
use iqlogger.Common.{ℕ, suc, ◌≡◌, refl, true, false, some, List, [], ◌∷◌, ◌++◌, All, map}
use iqlogger.Lifecycle.{
  Stoppable, AnyOutput, log_output, gelf_output, stop_with, join_after, log_stop_impl,
  gelf_stop_impl, as_output, stop_output, stop_rest, stop_outputs,
}

-- An output that runs and has no log for its destination.
abbrev pub IsGelf : AnyOutput → Type 0
IsGelf (log_output o) = ⊥
IsGelf (gelf_output o) = o.started ≡ true

-- Its threads have ended.
abbrev pub stopped : AnyOutput → AnyOutput
stopped (log_output o) = log_output (record o { started = false; joined = true })
stopped (gelf_output o) = gelf_output (record o { started = false; joined = true })

stop_output-gelf :
    (depth : ℕ) (o : AnyOutput) → IsGelf o → stop_output depth o ≡ some (stopped o, true)
unfolding stop_output stop_with gelf_stop_impl as_output
stop_output-gelf depth (log_output o) h = elim h [ ]
stop_output-gelf depth (gelf_output o) h = rw h refl

-- Outputs that run, none of which is a log: each is stopped, and its threads are joined.
pub stop_outputs-all :
    (depth : ℕ) (os : List AnyOutput)
    → All IsGelf os
    → stop_outputs depth os ≡ some (map stopped os, true)
unfolding stop_outputs stop_rest
stop_outputs-all depth [] h = refl
stop_outputs-all depth (o ∷ os) h =
    rw (stop_output-gelf depth o h.0, stop_outputs-all depth os h.1) refl

stop_output-log :
    (depth : ℕ) (o : Stoppable)
    → o.started ≡ true
    → stop_output (suc (suc depth)) (log_output o)
      ≡ some (log_output (record o { started = false }), false)
unfolding stop_output stop_with log_stop_impl join_after as_output
stop_output-log depth o h = rw h refl

-- A log output that runs, among others that do: its stop calls itself, which throws. Its threads
-- are not joined, and the outputs behind it are not stopped; the exception leaves the output
-- server before it joins its own threads.
pub stop_outputs_log :
    (depth : ℕ) (before after : List AnyOutput) (o : Stoppable)
    → All IsGelf before
    → o.started ≡ true
    → stop_outputs (suc (suc depth)) (before ++ (log_output o ∷ after))
      ≡ some (map stopped before ++ (log_output (record o { started = false }) ∷ after), false)
unfolding stop_outputs stop_rest
stop_outputs_log depth [] after o h r = rw (stop_output-log depth o r) refl
stop_outputs_log depth (p ∷ before) after o h r =
    rw (stop_output-gelf (suc (suc depth)) p h.0, stop_outputs_log depth before after o h.1 r) refl
