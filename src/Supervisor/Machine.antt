-- ===== src/Supervisor/Machine.antt =====
-- supervisor.go: where the goroutines of `loop` and `healthLoop` stand, and the events that they meet.
use opengrab.Prelude.{ℕ, Bool, List, [], Option, none}
use opengrab.Run.{RunResult}
use opengrab.Supervisor.State.{Err, Supervisor, new_supervisor}

-- A run that is over: its result and error, and whether the health check had ended it.
pub record Ended : Type 0 where
  pub res : RunResult
  pub err : Option Err
  pub unhealthy : Bool

-- Where the goroutine of `loop` stands.
pub data Phase : Type 0 where
  -- `Start` has not been called
  created : Phase
  -- at the head of the `for`, before `shouldExit`
  top : Phase
  -- in the hook `BeforeStart`
  hooking : Phase
  -- in `Start` of the package, which starts the process
  starting : Phase
  -- at `<-proc.Done()`
  waiting : Phase
  -- in the hook `AfterStop`
  after_hook : Ended → Phase
  -- before the second `shouldExit`
  deciding : Ended → Phase
  -- before the `shouldRestart` of a run that is over
  restarting : Ended → Phase
  -- in the `select` of `sleepBackoff`
  sleeping : Phase
  -- `loop` has returned
  finished : Phase

-- A goroutine of `healthLoop`: its `failures`, and whether a check is under way.
pub record Health : Type 0 where
  pub failures : ℕ
  pub checking : Bool

-- The supervisor with its goroutines. `late` holds the failures of health loops whose check was
-- under way when their process ended, and has not returned.
pub record Machine : Type 0 where
  pub phase : Phase
  pub sup : Supervisor
  pub health : Option Health
  pub late : List ℕ

pub data Event : Type 0 where
  -- `Supervisor.Start`, the first section of `Stop`, and a cancelled context
  start_called : Event
  stop_called : Event
  context_cancelled : Event
  -- the loop goes on from `top`, `deciding` or `restarting`
  proceed : Event
  before_start_returned : Option Err → Event
  start_failed : Err → Event
  -- the pid and the time
  start_succeeded : ℕ → ℕ → Event
  -- the result, the error and the time
  process_done : RunResult → Option Err → ℕ → Event
  after_stop_returned : Option Err → Event
  timer_fired : Event
  backoff_cancelled : Event
  -- the health loop's ticker, a check's answer, and the loop's end at `stopCh` or `runCtx`
  health_ticked : Event
  check_returned : Option Err → Event
  health_loop_left : Event
  late_check_returned : Option Err → Event

abbrev pub fresh : Machine
fresh = record { phase = created; sup = new_supervisor; health = none; late = [] }
