-- ===== src/Supervisor/Policy.antt =====
-- supervisor.go: `normalizeRestartPolicy`, `shouldExit`, `shouldRestart`, `restartReason` and
-- `terminalError`.
use opengrab.Prelude.{
  Bool, true, false, not, ◌&&◌, ◌||◌, [], ◌++◌, Option, none, some, ℤ, pos, negsuc, ltb_ℤ, leb_ℤ,
  int_of_uint64, if◌then◌else◌, ◌==◌,
}
use opengrab.Text.{Text, codes}
use opengrab.Run.{RunResult}
use opengrab.Supervisor.State.{
  Err, cause, after_stop_hook_failed, FinalErr, plain, stopped_by_health_check, exited_with_code,
  RestartPolicy, unset, never, always, on_failure, other, SupervisorOptions, Supervisor,
}

-- `normalizeRestartPolicy`; none is its error.
unfoldable pub normalize_restart_policy : RestartPolicy → Bool → Option RestartPolicy
normalize_restart_policy unset auto_restart = some (if auto_restart then always else never)
normalize_restart_policy never auto_restart = some never
normalize_restart_policy always auto_restart = some always
normalize_restart_policy on_failure auto_restart = some on_failure
normalize_restart_policy (other policy) auto_restart = none

-- `shouldExit`
unfoldable pub should_exit : Supervisor → Bool
should_exit s = not s.started || s.stopping || s.cancelled

abbrev pub is_error {ℓ} : {A : Type ℓ} → Option A → Bool
is_error none = false
is_error (some e) = true

-- `res.ExitCode != 0`
abbrev pub is_nonzero : ℤ → Bool
is_nonzero (pos n) = not (n == 0)
is_nonzero (negsuc n) = true

-- The `switch` of `shouldRestart`.
unfoldable pub policy_restarts : RestartPolicy → Option Err → RunResult → Bool → Bool
policy_restarts always err res unhealthy = true
policy_restarts on_failure err res unhealthy =
    if unhealthy then true else if is_error err then true else is_nonzero res.exit_code
policy_restarts never err res unhealthy = false
policy_restarts unset err res unhealthy = false
policy_restarts (other policy) err res unhealthy = false

-- `s.opts.MaxRestarts > 0 && int(s.metrics.restarts) >= s.opts.MaxRestarts`
abbrev pub is_exhausted : SupervisorOptions → Supervisor → Bool
is_exhausted o s =
    ltb_ℤ (pos 0) o.max_restarts && leb_ℤ o.max_restarts (int_of_uint64 s.metrics.restarts)

-- `shouldRestart`, which does not read its reason.
unfoldable pub should_restart :
    SupervisorOptions → Supervisor → Option Err → RunResult → Bool → Bool
unfolding policy_restarts
should_restart o s err res unhealthy =
    if s.stopping
    then false
    else if s.cancelled
    then false
    else if is_exhausted o s
    then false
    else policy_restarts o.restart_policy err res unhealthy

-- `restartReason`
unfoldable pub restart_reason : RunResult → Option Err → Bool → Text
restart_reason res err unhealthy =
    if unhealthy
    then codes "health-check-failed"
    else if is_error err
    then codes "process-error"
    else if is_nonzero res.exit_code
    then codes "non-zero-exit"
    else codes "policy"

abbrev or_exit_code : RunResult → Option Err → Option FinalErr
or_exit_code res (some e) = some (plain e)
or_exit_code res none =
    if is_nonzero res.exit_code then some (exited_with_code res.exit_code) else none

-- `terminalError`
unfoldable pub terminal_error : RunResult → Option Err → Option Err → Bool → Option FinalErr
terminal_error res err (some h) true = some (stopped_by_health_check h)
terminal_error res err none true = or_exit_code res err
terminal_error res err health_err false = or_exit_code res err

-- `Error()`, of errors that are not wrapped and that are.
unfoldable pub message : Err → Text
message (cause text) = text
message (after_stop_hook_failed e) = codes "after stop hook failed: " ++ message e

-- `safeError`
unfoldable pub safe_error : Option Err → Text
safe_error none = []
safe_error (some e) = message e
