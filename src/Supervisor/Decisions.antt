-- ===== src/Supervisor/Decisions.antt =====
-- supervisor.go: what `shouldRestart`, `restartReason` and `terminalError` have to do with one
-- another.
use opengrab.Prelude.{
  ◌≡◌, ◌↔◌, ℕ, ◌+◌, Bool, true, false, not, ◌&&◌, List, ◌∷◌, Option, none, some, pos, leb_ℤ, arith,
}
use opengrab.Text.{Text, codes, text_eq}
use opengrab.Run.{RunResult}
use opengrab.Supervisor.State.{
  Err, RestartPolicy, always, on_failure, SupervisorOptions, Supervisor,
}
use opengrab.Supervisor.Policy.{
  should_restart, policy_restarts, restart_reason, terminal_error, is_error, is_nonzero,
}
use opengrab.Supervisor.Metrics.{set_final_err, mark_unhealthy, consume_unhealthy_flag}
use opengrab.Supervisor.Machine.{
  Ended, Phase, waiting, after_hook, deciding, Machine, process_done, late_check_returned,
}
use opengrab.Supervisor.Loop.{decide_restart, finish, end_run, count_failure, handle, step}
use opengrab.Supervisor.Progress.{may_restart}

-- Which reasons for a restart a policy takes.
abbrev pub wants : RestartPolicy → Text → Bool
wants always reason = true
wants on_failure reason = not (text_eq reason (codes "policy"))
wants _ reason = false

wants-restart_reason :
    (policy : RestartPolicy) (err : Option Err) (res : RunResult) (unhealthy : Bool)
    → policy_restarts policy err res unhealthy ≡ wants policy (restart_reason res err unhealthy)
unfolding policy_restarts restart_reason text_eq
wants-restart_reason always err res unhealthy = ground arith
wants-restart_reason on_failure err res unhealthy = ground arith
wants-restart_reason policy err res unhealthy = ground arith

-- A process is started again exactly if nothing forbids it (a stop, a cancelled context, the limit)
-- and the policy wants it for the reason that is recorded: always, or on failure for every reason
-- but "policy".
pub should_restart-wants :
    (o : SupervisorOptions) (s : Supervisor) (err : Option Err) (res : RunResult) (unhealthy : Bool)
    → should_restart o s err res unhealthy
      ≡ (may_restart o s && wants o.restart_policy (restart_reason res err unhealthy))
unfolding should_restart
should_restart-wants o s err res unhealthy =
    ground (arith, wants-restart_reason o.restart_policy err res unhealthy)

-- If the loop ends behind a run, its final error is nil exactly if the process had no error, exited
-- with 0, and was not stopped as unhealthy with a health error known.
pub final_err-decide_restart :
    (o : SupervisorOptions) (ended : Ended) (m : Machine)
    → should_restart o m.sup ended.err ended.res ended.unhealthy ≡ false
    → ((decide_restart o ended m).sup.final_err ≡ none) ↔ (
        (is_error ended.err ≡ false)
        × (is_nonzero ended.res.exit_code ≡ false)
        × ((ended.unhealthy && is_error m.sup.last_health) ≡ false))
unfolding decide_restart finish set_final_err terminal_error
final_err-decide_restart o ended m h = ground arith

-- The phase behind a run.
abbrev pub ended_of : Phase → Option Ended
ended_of (after_hook ended) = some ended
ended_of (deciding ended) = some ended
ended_of _ = none

-- A check of an earlier process that fails late, at the threshold, is charged to the process that
-- runs by then: when that one exits, cleanly or not, it counts as unhealthy.
pub late_failure_marks_next :
    (o : SupervisorOptions) (m : Machine) {failures : ℕ} {late : List ℕ} (e : Err) (res : RunResult)
    (err : Option Err) (now : ℕ)
    → m.phase ≡ waiting
    → m.late ≡ failures ∷ late
    → leb_ℤ o.health_check_failures (pos (failures + 1)) ≡ true
    → (m' m'' : Machine) × (step o m (late_check_returned (some e)) ≡ some m')
      × (step o m' (process_done res err now) ≡ some m'')
      × (ended_of m''.phase ≡ some (record { res = res; err = err; unhealthy = true }))
unfolding step handle end_run count_failure consume_unhealthy_flag mark_unhealthy
late_failure_marks_next o m {failures} {late} e res err now p l t =
    let m' : Machine = record m { sup = count_failure o (failures + 1) e m.sup; late = late } in
    (m', end_run o res err now m', ground arith, ground arith, ground arith)
