-- ===== src/Supervisor/Control.antt =====
-- supervisor.go: `Stop`, `Wait` and the methods that read the supervisor.
use opengrab.Prelude.{
  ℕ, Bool, true, false, not, ◌&&◌, List, [], Option, none, some, ℤ, pos, ltb_ℤ, ◌==◌, if◌then◌else◌,
}
use opengrab.Run.{RunResult}
use opengrab.Process.{Process, Signal, Circumstances, is_running, graceful_stop}
use opengrab.RingBuffer.{RingBuffer, bytes}
use opengrab.Supervisor.State.{Err, FinalErr, Supervisor}
use opengrab.Supervisor.Machine.{Machine}

-- A context, by how it was made.
pub data Context : Type 0 where
  background caller : Context
  with_timeout : Context → ℤ → Context
  with_cancel : Context → Context

abbrev pub or_background : Option Context → Context
or_background none = background
or_background (some parent) = parent

-- `prepareContext`
unfoldable pub prepare_context : Option Context → ℤ → Context
prepare_context parent timeout =
    if ltb_ℤ (pos 0) timeout
    then with_timeout (or_background parent) timeout
    else with_cancel (or_background parent)

-- `Wait`: the final error, once `doneCh` is closed; none while it blocks.
unfoldable pub wait : Supervisor → Option (Option FinalErr)
wait s = if s.done_closes == 0 then none else some s.final_err

-- The first section of `Stop`, under the lock: none is `ErrSupervisorStopped`.
unfoldable pub mark_stopping : Machine → Option Machine
mark_stopping m =
    if m.sup.started then some (record m { sup = record m.sup { stopping = true } }) else none

-- `Stop` behind that section: the signals to the process of that moment, whose errors are ignored.
unfoldable pub stop_process : Circumstances → ℤ → Option Process → List (ℕ × Signal)
stop_process c timeout none = []
stop_process c timeout (some p) = if is_running p then (graceful_stop c p timeout).1 else []

-- `cancel()` in `Stop`.
unfoldable pub cancel : Machine → Machine
cancel m = record m { sup = record m.sup { cancelled = true } }

-- `CurrentProcess`, by its pid.
abbrev pub current_process : Supervisor → Option ℕ
current_process s = s.proc

-- `RestartCount`; the conversion to `int` keeps a count below 2 ^ 63.
abbrev pub restart_count : Supervisor → ℕ
restart_count s = s.metrics.restarts

-- `LastResult`, `LastError` and `LastHealthError`
abbrev pub last_result : Supervisor → RunResult
last_result s = s.last_result

abbrev pub last_error : Supervisor → Option Err
last_error s = s.last_err

abbrev pub last_health_error : Supervisor → Option Err
last_health_error s = s.last_health

abbrev pub process_runs : Option Bool → Bool
process_runs none = false
process_runs (some running) = running

-- `IsRunning`, where `running` is what `IsRunning` of the process answers, if there is one.
unfoldable pub is_running_supervisor : Option Bool → Supervisor → Bool
is_running_supervisor running s = s.started && not s.stopping && process_runs running

-- `StdoutTail` and `StderrTail`
abbrev pub tail_text : Option RingBuffer → List ℕ
tail_text none = []
tail_text (some ring) = bytes ring
