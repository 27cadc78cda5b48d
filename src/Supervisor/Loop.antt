-- ===== src/Supervisor/Loop.antt =====
-- supervisor.go: `Start`, `Stop`, `loop` and `healthLoop` as a machine. A step of it is what the
-- source does between two points at which another goroutine may come in; what the environment
-- answers (hooks, processes, timers, callers) is in the event.
use opengrab.Prelude.{
  ◌≡◌, ℕ, ◌+◌, Bool, true, false, ◌&&◌, List, [], ◌∷◌, Option, none, some, ℤ, pos, ltb_ℤ, leb_ℤ,
  int_of_uint64, if◌then◌else◌,
}
use opengrab.Text.{Text, codes}
use opengrab.Run.{RunResult, no_result}
use opengrab.Supervisor.State.{
  Err, after_stop_hook_failed, FinalErr, plain, SupervisorOptions, Supervisor,
}
use opengrab.Supervisor.Machine.{
  Ended, Phase, top, hooking, starting, waiting, after_hook, deciding, restarting, sleeping,
  finished, Health, Machine, Event, start_called, stop_called, context_cancelled, proceed,
  before_start_returned, start_failed, start_succeeded, process_done, after_stop_returned,
  timer_fired, backoff_cancelled, health_ticked, check_returned, health_loop_left,
  late_check_returned,
}
use opengrab.Supervisor.Policy.{should_exit, should_restart, restart_reason, terminal_error}
use opengrab.Supervisor.Metrics.{
  set_process, clear_process, set_last, set_final_err, mark_unhealthy, consume_unhealthy_flag,
  record_start, record_stop, record_crash, record_restart, record_health_check,
  record_health_success, record_health_failure,
}

-- `setFinalErr`, the return and the deferred `close(s.doneCh)`.
unfoldable pub finish : Option FinalErr → Machine → Machine
finish err m =
    let s = set_final_err err m.sup in
    record m { phase = finished; sup = record s { done_closes = s.done_closes + 1 } }

-- Whether `sleepBackoff` waits: there is a backoff function and it returns a positive duration.
abbrev pub waits : Option (ℤ → ℤ) → ℕ → Bool
waits none restarts = false
waits (some backoff) restarts = ltb_ℤ (pos 0) (backoff (int_of_uint64 restarts))

-- `recordRestart`, then `sleepBackoff` up to its `select`.
unfoldable pub restart : SupervisorOptions → Text → Machine → Machine
restart o reason m =
    let s = record_restart reason m.sup in
    record m { sup = s; phase = if waits o.backoff s.metrics.restarts then sleeping else top }

-- A round that fails before there is a process.
unfoldable pub fail_round : SupervisorOptions → Text → Err → Machine → Machine
fail_round o reason e m =
    let s = record_crash (some e) (set_last no_result (some e) m.sup) in
    let m' = record m { sup = s } in
    if should_restart o s (some e) no_result false
    then restart o reason m'
    else finish (some (plain e)) m'

-- `Start`, once its lock is taken; a supervisor that was started keeps as it is.
unfoldable pub start_supervisor : Machine → Machine
start_supervisor m =
    if m.sup.started
    then m
    else record m { phase = top; sup = record m.sup { started = true; stopping = false } }

-- The health loop that belongs to a new process.
abbrev pub new_health : SupervisorOptions → Option Health
new_health o =
    if o.health_check && ltb_ℤ (pos 0) o.health_check_interval
    then some (record { failures = 0; checking = false })
    else none

-- `close(hcStop)`: a loop that is in a check goes on until that returns.
abbrev pub cut_off : Option Health → List ℕ → List ℕ
cut_off none late = late
cut_off (some h) late = if h.checking then h.failures ∷ late else late

-- From `<-proc.Done()` to the hook `AfterStop`.
unfoldable pub end_run : SupervisorOptions → RunResult → Option Err → ℕ → Machine → Machine
end_run o res err now m =
    let (unhealthy, s) = consume_unhealthy_flag m.sup in
    let ended : Ended = record { res = res; err = err; unhealthy = unhealthy } in
    record {
      phase = if o.after_stop then after_hook ended else deciding ended;
      sup = record_stop res err unhealthy now (set_last res err (clear_process s));
      health = none;
      late = cut_off m.health m.late;
    }

-- Behind the hook `AfterStop`: its error counts if the process had none.
unfoldable pub leave_hook : Option Err → Ended → Machine → Machine
leave_hook none ended m = record m { phase = deciding ended }
leave_hook (some e) ended m =
    let wrapped = some (after_stop_hook_failed e) in
    elim ended.err [
      | some e' ↦ record m { phase = deciding ended }
      | none ↦ record m {
        phase = deciding (record ended { err = wrapped });
        sup = set_last ended.res wrapped m.sup;
      }
    ]

-- The last part of a round: whether the process is started again.
unfoldable pub decide_restart : SupervisorOptions → Ended → Machine → Machine
decide_restart o ended m =
    if should_restart o m.sup ended.err ended.res ended.unhealthy
    then restart o (restart_reason ended.res ended.err ended.unhealthy) m
    else finish (terminal_error ended.res ended.err m.sup.last_health ended.unhealthy) m

abbrev pub proceed_from : SupervisorOptions → Phase → Machine → Option Machine
proceed_from o top m = some (
    if should_exit m.sup
    then finish none m
    else record m { phase = if o.before_start then hooking else starting })
proceed_from o (deciding ended) m =
    some (if should_exit m.sup then finish none m else record m { phase = restarting ended })
proceed_from o (restarting ended) m = some (decide_restart o ended m)
proceed_from o phase m = none

-- The supervisor after a check has failed for the `failures`-th time in a row.
unfoldable pub count_failure : SupervisorOptions → ℕ → Err → Supervisor → Supervisor
count_failure o failures e s =
    let s' = record_health_failure e s in
    if leb_ℤ o.health_check_failures (pos failures) then mark_unhealthy e s' else s'

-- What `healthLoop` does with the answer of a check, of its own process or of one that has ended.
abbrev pub answer_check : SupervisorOptions → ℕ → Option Err → Supervisor → Supervisor
answer_check o failures none s = record_health_success s
answer_check o failures (some e) s = count_failure o (failures + 1) e s

-- The loop after an answer; at the threshold it stops the process and returns.
abbrev pub after_check : SupervisorOptions → ℕ → Option Err → Option Health
after_check o failures none = some (record { failures = 0; checking = false })
after_check o failures (some e) =
    if leb_ℤ o.health_check_failures (pos (failures + 1))
    then none
    else some (record { failures = failures + 1; checking = false })

abbrev pub tick : Option Health → Machine → Option Machine
tick none m = none
tick (some h) m =
    if h.checking
    then none
    else some
        (record m { sup = record_health_check m.sup; health = some (record h { checking = true }) })

abbrev pub return_check : SupervisorOptions → Option Err → Option Health → Machine → Option Machine
return_check o answer none m = none
return_check o answer (some h) m =
    if h.checking
    then some (record m {
      sup = answer_check o h.failures answer m.sup;
      health = after_check o h.failures answer;
    })
    else none

abbrev pub return_late : SupervisorOptions → Option Err → List ℕ → Machine → Option Machine
return_late o answer [] m = none
return_late o answer (failures ∷ late) m =
    some (record m { sup = answer_check o failures answer m.sup; late = late })

abbrev pub leave_health : Option Health → Machine → Option Machine
leave_health none m = none
leave_health (some h) m = if h.checking then none else some (record m { health = none })

-- What an event does at a phase; none is an event that cannot happen there.
unfoldable pub handle : SupervisorOptions → Event → Phase → Machine → Option Machine
handle o start_called phase m = some (start_supervisor m)
handle o stop_called phase m =
    if m.sup.started then some (record m { sup = record m.sup { stopping = true } }) else some m
handle o context_cancelled phase m = some (record m { sup = record m.sup { cancelled = true } })
handle o proceed phase m = proceed_from o phase m
handle o (before_start_returned none) hooking m = some (record m { phase = starting })
handle o (before_start_returned (some e)) hooking m =
    some (fail_round o (codes "before-start-hook") e m)
handle o (start_failed e) starting m = some (fail_round o (codes "start-failure") e m)
handle o (start_succeeded pid now) starting m = some (record m {
  phase = waiting;
  sup = record_start pid now (set_process pid m.sup);
  health = new_health o;
})
handle o (process_done res err now) waiting m = some (end_run o res err now m)
handle o (after_stop_returned e) (after_hook ended) m = some (leave_hook e ended m)
handle o timer_fired sleeping m = some (record m { phase = top })
handle o backoff_cancelled sleeping m = if m.sup.cancelled then some (finish none m) else none
handle o health_ticked phase m = tick m.health m
handle o (check_returned answer) phase m = return_check o answer m.health m
handle o health_loop_left phase m = leave_health m.health m
handle o (late_check_returned answer) phase m = return_late o answer m.late m
handle o event phase m = none

unfoldable pub step : SupervisorOptions → Machine → Event → Option Machine
step o m event = handle o event m.phase m

-- The machine after a sequence of events, if each of them can happen.
pub data Run (o : SupervisorOptions) (m : Machine) : Machine → Type 0 where
  here : Run o m m
  next : {a b : Machine} → Run o m a → (event : Event) → step o a event ≡ some b → Run o m b
