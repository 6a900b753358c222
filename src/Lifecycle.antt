-- ===== src/Lifecycle.antt =====
-- What is started and stopped: `TaskInterface` of src/core/TaskInterface.h, the stop of a log output
-- in src/outputs/log/LogOutput.cpp, and that of all outputs in src/OutputServer.cpp. What a task
-- does in `initImpl`, `startImpl` and `stopImpl` is recorded, and whether it returns is given.
pub mod Order
pub mod Outputs
use iqlogger.Common.{
  ℕ, zero, suc, Bool, true, false, Option, none, some, List, [], ◌∷◌, ◌++◌, if◌then◌else◌,
}

pub data Impl : Type 0 where
  init_impl start_impl stop_impl : Impl

pub record Task : Type 0 where
  pub inited : Bool
  pub started : Bool
  pub trace : List Impl

-- A call, and whether what it runs returns.
pub data Call : Type 0 where
  init start stop : Bool → Call

-- The task after a call, and whether the call returns: otherwise it throws.
abbrev runs : Impl → Bool → Task → Task × Bool
runs i returns t = (record t { trace = t.trace ++ (i ∷ []) }, returns)

unfoldable pub call : Call → Task → Task × Bool
call (init returns) t =
    if t.inited then (t, false) else runs init_impl returns (record t { inited = true })
call (start returns) t =
    if t.started
    then (t, false)
    else if t.inited
    then runs start_impl returns (record t { started = true })
    else (record t { started = true }, false)
call (stop returns) t =
    if t.started then runs stop_impl returns (record t { started = false }) else (t, false)

unfoldable pub run_calls : List Call → Task → Task
unfolding call
run_calls [] t = t
run_calls (c ∷ calls) t = run_calls calls (call c t).0

abbrev pub new_task : Task
new_task = record { inited = false; started = false; trace = [] }

-- An output, as far as its stop: whether it runs, and whether its threads were joined.
pub record Stoppable : Type 0 where
  pub started : Bool
  pub joined : Bool

pub data AnyOutput : Type 0 where
  log_output gelf_output : Stoppable → AnyOutput

-- What a stop leaves, and whether it returns; `none`: the depth of its calls is used up.
abbrev pub Stopped : Type 0 → Type 0
Stopped A = Option (A × Bool)

-- `TaskInterface::stop`, with the `stopImpl` of the class.
unfoldable pub stop_with : (Stoppable → Stopped Stoppable) → Stoppable → Stopped Stoppable
stop_with impl o = elim o.started [
  | true ↦ impl (record o { started = false })
  | false ↦ some (o, false)
]

-- The threads are joined only if the call before that returns.
unfoldable pub join_after : Stopped Stoppable → Stopped Stoppable
join_after none = none
join_after (some (o, true)) = some (record o { joined = true }, true)
join_after (some (o, false)) = some (o, false)

-- `LogOutput::stopImpl` calls `stop` again.
unfoldable pub log_stop_impl : ℕ → Stoppable → Stopped Stoppable
unfolding stop_with join_after
log_stop_impl zero o = none
log_stop_impl (suc depth) o = join_after (stop_with (log_stop_impl depth) o)

-- `GelfOutput::stopImpl` joins the threads.
unfoldable pub gelf_stop_impl : Stoppable → Stopped Stoppable
gelf_stop_impl o = some (record o { joined = true }, true)

unfoldable pub as_output : (Stoppable → AnyOutput) → Stopped Stoppable → Stopped AnyOutput
as_output kind none = none
as_output kind (some (o, returns)) = some (kind o, returns)

unfoldable pub stop_output : ℕ → AnyOutput → Stopped AnyOutput
unfolding stop_with log_stop_impl gelf_stop_impl as_output
stop_output depth (log_output o) = as_output log_output (stop_with (log_stop_impl depth) o)
stop_output depth (gelf_output o) = as_output gelf_output (stop_with gelf_stop_impl o)

unfoldable pub stop_rest :
    Stopped AnyOutput → List AnyOutput → Stopped (List AnyOutput) → Stopped (List AnyOutput)
stop_rest none os rest = none
stop_rest (some (o, false)) os rest = some (o ∷ os, false)
stop_rest (some (o, true)) os none = none
stop_rest (some (o, true)) os (some (ps, returns)) = some (o ∷ ps, returns)

-- The loop of `OutputServer::stopImpl`: an exception leaves the other outputs as they are.
unfoldable pub stop_outputs : ℕ → List AnyOutput → Stopped (List AnyOutput)
unfolding stop_rest stop_output
stop_outputs depth [] = some ([], true)
stop_outputs depth (o ∷ os) = stop_rest (stop_output depth o) os (stop_outputs depth os)
