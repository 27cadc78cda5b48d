-- ===== src/Supervisor/Setup.antt =====
-- `NewSupervisor`: its defaults, and what it leaves behind when it fails.
use opengrab.Prelude.{
  ◌≡◌, ◌≢◌, ◌⊎◌, ℕ, ◌<◌, Bool, true, false, Option, none, some, ℤ, pos, negsuc, ltb_ℤ, arith, refl,
}
use opengrab.Error.{Result, ok, err}
use opengrab.Command.{validate_options}
use opengrab.RingBuffer.Tail.{new_ring_buffer-positive}
use opengrab.RotateWriter.{Os, RotateWriter, Opened, no_writer, writer, failed, close}
use opengrab.Supervisor.State.{RestartPolicy, unset, never, always, on_failure, other}
use opengrab.Supervisor.Policy.{normalize_restart_policy}
use opengrab.Supervisor.Create.{
  CreateOptions, RotateOptions, Answers, IsReady, Outcome, is_open_writer,
  default_when_not_positive, with_defaults, supervisor_of, close_writer, open_stderr, open_stdout,
  open_logs, create_with_policy, create_validated, create_supervisor,
}

default_when_not_positive-positive :
    (d : ℕ) (n : ℤ) → 0 < d → ltb_ℤ (pos 0) (default_when_not_positive (pos d) n) ≡ true
default_when_not_positive-positive d (pos n) h = ground arith
default_when_not_positive-positive d (negsuc n) h = ground arith

-- A policy that `normalizeRestartPolicy` returns.
abbrev IsKnown : RestartPolicy → Type 0
IsKnown p = (p ≡ never) ⊎ ((p ≡ always) ⊎ (p ≡ on_failure))

normalize_restart_policy-IsKnown :
    (p : RestartPolicy) (auto_restart : Bool) {q : RestartPolicy}
    → normalize_restart_policy p auto_restart ≡ some q
    → IsKnown q
unfolding normalize_restart_policy
normalize_restart_policy-IsKnown unset true h = ground arith
normalize_restart_policy-IsKnown unset false h = ground arith
normalize_restart_policy-IsKnown never a h = ground arith
normalize_restart_policy-IsKnown always a h = ground arith
normalize_restart_policy-IsKnown on_failure a h = ground arith
normalize_restart_policy-IsKnown (other p) a h = cc

supervisor_of-IsReady :
    (opts : CreateOptions) (policy : RestartPolicy) (stdout stderr : Option RotateWriter)
    → IsKnown policy
    → IsReady (supervisor_of (with_defaults policy opts) stdout stderr)
supervisor_of-IsReady opts policy stdout stderr known = record {
  policy_known = known;
  threshold =
      default_when_not_positive-positive 1 opts.loop_options.health_check_failures (omega arith);
  timeout =
      default_when_not_positive-positive 5000000000 opts.health_check_stop_timeout (omega arith);
  rings = (new_ring_buffer-positive _, new_ring_buffer-positive _);
  unstarted = refl;
}

close-is_open : (os : Os) (w : RotateWriter) → (close os w).0.is_open ≡ false
unfolding close
close-is_open os w = ground arith

close_writer-is_open :
    (os : Os) (w : Option RotateWriter) → is_open_writer (close_writer os w) ≡ false
close_writer-is_open os none = refl
close_writer-is_open os (some w) = close-is_open os w

module _ (opts : CreateOptions) (policy : RestartPolicy) (known : IsKnown policy)
    (valid : validate_options opts.process ≡ ok tt) where
  open_stderr-Outcome :
      (os : Os) (stdout : Option RotateWriter) (stderr : Opened)
      → opts.log_rotate ≢ none
      → Outcome opts (open_stderr os (with_defaults policy opts) stdout stderr)
  open_stderr-Outcome os stdout no_writer h =
      (supervisor_of-IsReady opts policy stdout none known, valid)
  open_stderr-Outcome os stdout (writer w) h =
      (supervisor_of-IsReady opts policy stdout (some w) known, valid)
  open_stderr-Outcome os stdout (failed f) h = (close_writer-is_open os stdout, h)

  open_stdout-Outcome :
      (os : Os) (stdout stderr : Opened)
      → opts.log_rotate ≢ none
      → Outcome opts (open_stdout os (with_defaults policy opts) stdout stderr)
  open_stdout-Outcome os no_writer stderr h = open_stderr-Outcome os none stderr h
  open_stdout-Outcome os (writer w) stderr h = open_stderr-Outcome os (some w) stderr h
  open_stdout-Outcome os (failed f) stderr h = (refl, h)

  open_logs-Outcome :
      (a : Answers) (rotate : Option RotateOptions)
      → opts.log_rotate ≡ rotate
      → Outcome opts (open_logs a (with_defaults policy opts) rotate)
  open_logs-Outcome a none h = (supervisor_of-IsReady opts policy none none known, valid)
  open_logs-Outcome a (some r) h = open_stdout-Outcome a.closing _ _ (ground arith)

create_with_policy-Outcome :
    (a : Answers) (opts : CreateOptions) (policy : Option RestartPolicy)
    → normalize_restart_policy opts.loop_options.restart_policy opts.auto_restart ≡ policy
    → validate_options opts.process ≡ ok tt
    → Outcome opts (create_with_policy a opts policy)
create_with_policy-Outcome a opts none h valid = (h, refl)
create_with_policy-Outcome a opts (some policy) h valid =
    open_logs-Outcome opts policy
      (normalize_restart_policy-IsKnown opts.loop_options.restart_policy opts.auto_restart h) valid
      a opts.log_rotate refl

create_validated-Outcome :
    (a : Answers) (opts : CreateOptions) (valid : Result (Unit {0}))
    → validate_options opts.process ≡ valid
    → Outcome opts (create_validated a opts valid)
create_validated-Outcome a opts (err e) h = h
create_validated-Outcome a opts (ok tt) h = create_with_policy-Outcome a opts _ refl h

-- On every branch of `NewSupervisor`: a supervisor that is made has valid process options, one of the
-- three policies, a positive threshold, timeout and ring size, and has not been started; the options
-- or the policy are refused only if they are invalid; and when a log cannot be opened no log is left
-- open.
pub create_supervisor-Outcome :
    (a : Answers) (opts : CreateOptions) → Outcome opts (create_supervisor a opts)
unfolding create_supervisor
create_supervisor-Outcome a opts = create_validated-Outcome a opts _ refl
