-- ===== src/Supervisor/Flags.antt =====
-- supervisor.go: that a supervisor was started, is stopping or is cancelled, is not forgotten.
use opengrab.Prelude.{◌≡◌, ℕ, true, List, [], ◌∷◌, Option, none, some, arith}
use opengrab.Text.{Text, codes}
use opengrab.Run.{RunResult}
use opengrab.Supervisor.State.{Err, SupervisorOptions, Supervisor}
use opengrab.Supervisor.Metrics.{
  set_process, clear_process, set_last, set_final_err, mark_unhealthy, consume_unhealthy_flag,
  record_start, record_stop, record_crash, record_restart, record_health_check,
  record_health_success, record_health_failure,
}
use opengrab.Supervisor.Machine.{
  Ended, Phase, after_hook, restarting, Health, Machine, Event, start_called, stop_called,
  context_cancelled, proceed, before_start_returned, start_failed, start_succeeded, process_done,
  after_stop_returned, timer_fired, backoff_cancelled, health_ticked, check_returned,
  health_loop_left, late_check_returned,
}
use opengrab.Supervisor.Loop.{
  finish, restart, fail_round, start_supervisor, end_run, leave_hook, decide_restart, count_failure,
  answer_check, return_check, return_late, handle,
}

-- What a step keeps of the flags that `shouldExit` reads.
pub record Sticky (s s' : Supervisor) : Type 0 where
  pub started : s.started ≡ true → s'.started ≡ true
  pub stopping : s.started ≡ true → s.stopping ≡ true → s'.stopping ≡ true
  pub cancelled : s.cancelled ≡ true → s'.cancelled ≡ true

abbrev SameFlags : Supervisor → Supervisor → Type 0
SameFlags s s' =
    (s'.started ≡ s.started) × (s'.stopping ≡ s.stopping) × (s'.cancelled ≡ s.cancelled)

SameFlags-fail_round :
    (o : SupervisorOptions) (reason : Text) (e : Err) (m : Machine)
    → SameFlags m.sup (fail_round o reason e m).sup
unfolding fail_round restart finish set_last record_crash record_restart set_final_err
SameFlags-fail_round o reason e m = ground arith

SameFlags-decide_restart :
    (o : SupervisorOptions) (ended : Ended) (m : Machine)
    → SameFlags m.sup (decide_restart o ended m).sup
unfolding decide_restart restart finish record_restart set_final_err
SameFlags-decide_restart o ended m = ground arith

SameFlags-end_run :
    (o : SupervisorOptions) (res : RunResult) (err : Option Err) (now : ℕ) (m : Machine)
    → SameFlags m.sup (end_run o res err now m).sup
unfolding end_run consume_unhealthy_flag clear_process set_last record_stop
SameFlags-end_run o res err now m = ground arith

SameFlags-leave_hook :
    (e : Option Err) (ended : Ended) (m : Machine) → SameFlags m.sup (leave_hook e ended m).sup
unfolding leave_hook set_last
SameFlags-leave_hook none ended m = ground arith
SameFlags-leave_hook (some e) ended m = ground arith

SameFlags-answer_check :
    (o : SupervisorOptions) (failures : ℕ) (answer : Option Err) (s : Supervisor)
    → SameFlags s (answer_check o failures answer s)
unfolding count_failure record_health_success record_health_failure mark_unhealthy
SameFlags-answer_check o failures none s = ground arith
SameFlags-answer_check o failures (some e) s = ground arith

Sticky-check :
    (o : SupervisorOptions) (a : Option Err) (health : Option Health) (m m' : Machine)
    → return_check o a health m ≡ some m'
    → Sticky m.sup m'.sup
Sticky-check o a none m m' h = cc
Sticky-check o a (some x) m m' h = ground (arith, SameFlags-answer_check o x.failures a m.sup)

Sticky-late :
    (o : SupervisorOptions) (a : Option Err) (late : List ℕ) (m m' : Machine)
    → return_late o a late m ≡ some m'
    → Sticky m.sup m'.sup
Sticky-late o a [] m m' h = cc
Sticky-late o a (n ∷ late) m m' h = ground (arith, SameFlags-answer_check o n a m.sup)

pub Sticky-handle :
    (o : SupervisorOptions) (event : Event) (phase : Phase) (m m' : Machine)
    → handle o event phase m ≡ some m'
    → Sticky m.sup m'.sup
unfolding handle start_supervisor finish set_final_err set_process record_start record_health_check
Sticky-handle o start_called phase m m' h = ground arith
Sticky-handle o stop_called phase m m' h = ground arith
Sticky-handle o context_cancelled phase m m' h = ground arith
Sticky-handle o proceed (restarting ended) m m' h =
    ground (arith, SameFlags-decide_restart o ended m)
Sticky-handle o proceed phase m m' h = ground arith
Sticky-handle o (before_start_returned none) phase m m' h = ground arith
Sticky-handle o (before_start_returned (some e)) phase m m' h =
    ground (arith, SameFlags-fail_round o (codes "before-start-hook") e m)
Sticky-handle o (start_failed e) phase m m' h =
    ground (arith, SameFlags-fail_round o (codes "start-failure") e m)
Sticky-handle o (start_succeeded pid now) phase m m' h = ground arith
Sticky-handle o (process_done res err now) phase m m' h =
    ground (arith, SameFlags-end_run o res err now m)
Sticky-handle o (after_stop_returned e) (after_hook ended) m m' h =
    ground (arith, SameFlags-leave_hook e ended m)
Sticky-handle o (after_stop_returned e) phase m m' h = ground arith
Sticky-handle o timer_fired phase m m' h = ground arith
Sticky-handle o backoff_cancelled phase m m' h = ground arith
Sticky-handle o health_ticked phase m m' h = ground arith
Sticky-handle o (check_returned a) phase m m' h = Sticky-check o a m.health m m' h
Sticky-handle o health_loop_left phase m m' h = ground arith
Sticky-handle o (late_check_returned a) phase m m' h = Sticky-late o a m.late m m' h
