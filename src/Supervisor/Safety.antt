-- ===== src/Supervisor/Safety.antt =====
-- supervisor.go: what the metrics and the supervisor's fields say of the loop, at every moment.
use opengrab.Prelude.{
  ◌≡◌, refl, ℕ, ◌+◌, ◌^◌, ◌%◌, ◌<◌, Bool, true, false, List, [], ◌∷◌, Option, none, some, ◌⊎◌,
  arith, length,
}
use opengrab.Text.{Text, codes}
use opengrab.Run.{RunResult}
use opengrab.Supervisor.State.{Err, SupervisorOptions}
use opengrab.Supervisor.Policy.{should_restart, is_error}
use opengrab.Supervisor.Metrics.{
  set_process, clear_process, set_last, set_final_err, mark_unhealthy, consume_unhealthy_flag,
  record_start, record_stop, record_crash, record_restart, record_health_check,
  record_health_success, record_health_failure,
}
use opengrab.Supervisor.Machine.{
  Ended, Phase, created, hooking, starting, waiting, after_hook, restarting, finished, Health,
  Machine, Event, start_called, stop_called, context_cancelled, proceed, before_start_returned,
  start_failed, start_succeeded, process_done, after_stop_returned, timer_fired, backoff_cancelled,
  health_ticked, check_returned, health_loop_left, late_check_returned, fresh,
}
use opengrab.Supervisor.Loop.{
  finish, restart, fail_round, start_supervisor, end_run, leave_hook, decide_restart, count_failure,
  return_check, return_late, proceed_from, handle, step, Run, here, next,
}

abbrev pub is_waiting : Phase → Bool
is_waiting waiting = true
is_waiting _ = false

abbrev pub is_finished : Phase → Bool
is_finished finished = true
is_finished _ = false

abbrev pub count_if : Bool → ℕ
count_if true = 1
count_if false = 0

-- The checks that have begun and not returned.
abbrev pub pending : Option Health → List ℕ → ℕ
pending none late = length late
pending (some h) late = count_if h.checking + length late

-- At most one process, and metrics that agree with it; each start has its stop; a check that began
-- has succeeded, failed or not returned (counts are of `uint64`); the loop's channel is closed once,
-- when it has returned, and the final error is set by then.
pub record IsConsistent (m : Machine) : Type 0 where
  pub running_iff : m.sup.metrics.running ≡ is_waiting m.phase
  pub proc_iff : is_error m.sup.proc ≡ is_waiting m.phase
  pub pid_of : (is_waiting m.phase ≡ true) ⊎ (m.sup.metrics.current_pid ≡ 0)
  pub start_iff : is_error m.sup.metrics.current_start ≡ is_waiting m.phase
  pub starts_stops :
      m.sup.metrics.starts ≡ (m.sup.metrics.stops + count_if (is_waiting m.phase)) % 2 ^ 64
  pub starts_fit : m.sup.metrics.stops < 2 ^ 64
  pub closed : m.sup.done_closes ≡ count_if (is_finished m.phase)
  pub no_early_error : (is_finished m.phase ≡ true) ⊎ (m.sup.final_err ≡ none)
  pub health_iff : (is_waiting m.phase ≡ true) ⊎ (m.health ≡ none)
  pub begun : (m.phase ≡ created) ⊎ (m.sup.started ≡ true)

module _ (o : SupervisorOptions) (m m' : Machine) (c : IsConsistent m) where
  keep-fail_round :
      (reason : Text) (e : Err)
      → (m.phase ≡ hooking) ⊎ (m.phase ≡ starting)
      → IsConsistent (fail_round o reason e m)
  unfolding fail_round restart finish should_restart set_last record_crash record_restart
      set_final_err
  keep-fail_round reason e p = ground arith

  keep-decide_restart :
      (ended : Ended) → m.phase ≡ restarting ended → IsConsistent (decide_restart o ended m)
  unfolding decide_restart restart finish should_restart record_restart set_final_err
  keep-decide_restart ended p = ground arith

  keep-end_run :
      (res : RunResult) (err : Option Err) (now : ℕ)
      → m.phase ≡ waiting
      → IsConsistent (end_run o res err now m)
  unfolding end_run consume_unhealthy_flag clear_process set_last record_stop
  keep-end_run res err now p = ground arith

  keep-leave_hook :
      (e : Option Err) (ended : Ended)
      → m.phase ≡ after_hook ended
      → IsConsistent (leave_hook e ended m)
  unfolding leave_hook set_last
  keep-leave_hook none ended p = ground arith
  keep-leave_hook (some e) ended p = ground arith

  keep-proceed :
      (phase : Phase) → m.phase ≡ phase → proceed_from o phase m ≡ some m' → IsConsistent m'
  unfolding finish set_final_err
  keep-proceed (restarting ended) p h = ground (arith, keep-decide_restart ended p)
  keep-proceed phase p h = ground arith

  keep-check :
      (a : Option Err) (health : Option Health)
      → m.health ≡ health
      → return_check o a health m ≡ some m'
      → IsConsistent m'
  unfolding count_failure record_health_success record_health_failure mark_unhealthy
  keep-check a none q h = cc
  keep-check none (some x) q h = ground arith
  keep-check (some e) (some x) q h = ground arith

  keep-late : (a : Option Err) (late : List ℕ) → return_late o a late m ≡ some m' → IsConsistent m'
  unfolding count_failure record_health_success record_health_failure mark_unhealthy
  keep-late a [] h = cc
  keep-late none (n ∷ late) h = ground arith
  keep-late (some e) (n ∷ late) h = ground arith

handle-IsConsistent :
    (o : SupervisorOptions) (event : Event) (phase : Phase) (m m' : Machine)
    → m.phase ≡ phase
    → IsConsistent m
    → handle o event phase m ≡ some m'
    → IsConsistent m'
unfolding handle start_supervisor finish set_final_err set_process record_start record_health_check
handle-IsConsistent o start_called phase m m' p c h = ground arith
handle-IsConsistent o stop_called phase m m' p c h = ground arith
handle-IsConsistent o context_cancelled phase m m' p c h = ground arith
handle-IsConsistent o proceed phase m m' p c h = keep-proceed o m m' c phase p h
handle-IsConsistent o (before_start_returned none) phase m m' p c h = ground arith
handle-IsConsistent o (before_start_returned (some e)) phase m m' p c h =
    ground (arith, keep-fail_round o m m' c (codes "before-start-hook") e)
handle-IsConsistent o (start_failed e) phase m m' p c h =
    ground (arith, keep-fail_round o m m' c (codes "start-failure") e)
handle-IsConsistent o (start_succeeded pid now) phase m m' p c h = ground arith
handle-IsConsistent o (process_done res err now) phase m m' p c h =
    ground (arith, keep-end_run o m m' c res err now)
handle-IsConsistent o (after_stop_returned e) (after_hook ended) m m' p c h =
    ground (arith, keep-leave_hook o m m' c e ended)
handle-IsConsistent o (after_stop_returned e) phase m m' p c h = ground arith
handle-IsConsistent o timer_fired phase m m' p c h = ground arith
handle-IsConsistent o backoff_cancelled phase m m' p c h = ground arith
handle-IsConsistent o health_ticked phase m m' p c h = ground arith
handle-IsConsistent o (check_returned a) phase m m' p c h = keep-check o m m' c a m.health refl h
handle-IsConsistent o health_loop_left phase m m' p c h = ground arith
handle-IsConsistent o (late_check_returned a) phase m m' p c h = keep-late o m m' c a m.late h

pub Run-IsConsistent : (o : SupervisorOptions) {m : Machine} → Run o fresh m → IsConsistent m
Run-IsConsistent o here = ground arith
Run-IsConsistent o (next {a} {b = z} r event h) =
    handle-IsConsistent o event a.phase a z refl (Run-IsConsistent o r) (unfold step in h)
