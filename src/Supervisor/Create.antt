-- ===== src/Supervisor/Create.antt =====
-- supervisor.go: `NewSupervisor`.
use opengrab.Prelude.{
  ◌≡◌, ◌≢◌, ◌⊎◌, ◌*◌, ◌<◌, Bool, true, false, Option, none, some, ℤ, pos, pos_part, leb_ℤ, ltb_ℤ,
  if◌then◌else◌,
}
use opengrab.Text.{Text}
use opengrab.Error.{Result, ok, err, Error}
use opengrab.Command.{Options, validate_options}
use opengrab.RingBuffer.{RingBuffer, new_ring_buffer}
use opengrab.RotateWriter.{
  Files, Os, RotateWriter, Opening, Opened, no_writer, writer, failed, new_rotate_writer, close,
}
use opengrab.Supervisor.State.{
  RestartPolicy, never, always, on_failure, SupervisorOptions, Supervisor, new_supervisor,
}
use opengrab.Supervisor.Policy.{normalize_restart_policy}

-- `RotateOptions`
pub record RotateOptions : Type 0 where
  pub stdout_path : Text
  pub stderr_path : Text
  pub max_bytes : ℤ
  pub max_backups : ℤ

-- `SupervisorOptions`, with what only `NewSupervisor` reads beside what the loop reads.
pub record CreateOptions : Type 0 where
  pub process : Options
  pub loop_options : SupervisorOptions
  pub auto_restart : Bool
  pub health_check_stop_timeout : ℤ
  pub ring_buffer_bytes : ℤ
  pub log_rotate : Option RotateOptions

-- The options with their defaults, and the parts of the supervisor that are not in its state.
pub record Created : Type 0 where
  pub options : CreateOptions
  pub state : Supervisor
  pub stdout_ring : RingBuffer
  pub stderr_ring : RingBuffer
  pub stdout_rotate : Option RotateWriter
  pub stderr_rotate : Option RotateWriter

-- What `NewSupervisor` returns. `log_refused` has the writer for stdout that had been made.
pub data Creation : Type 0 where
  created : Created → Creation
  invalid_options : Error → Creation
  invalid_policy : RestartPolicy → Creation
  log_refused : Option RotateWriter → Creation

abbrev pub default_when_not_positive : ℤ → ℤ → ℤ
default_when_not_positive default n = if leb_ℤ n (pos 0) then default else n

-- `5 * time.Second`
abbrev pub five_seconds : ℤ
five_seconds = pos (5 * 1000000000)

abbrev pub with_defaults : RestartPolicy → CreateOptions → CreateOptions
with_defaults policy opts = record opts {
  loop_options = record opts.loop_options {
    restart_policy = policy;
    health_check_failures =
        default_when_not_positive (pos 1) opts.loop_options.health_check_failures;
  };
  ring_buffer_bytes = default_when_not_positive (pos (256 * 1024)) opts.ring_buffer_bytes;
  health_check_stop_timeout = default_when_not_positive five_seconds opts.health_check_stop_timeout;
}

-- The literal `&Supervisor{…}` with the writers that are made behind it.
abbrev pub supervisor_of : CreateOptions → Option RotateWriter → Option RotateWriter → Created
supervisor_of opts stdout stderr = record {
  options = opts;
  state = new_supervisor;
  stdout_ring = new_ring_buffer (pos_part opts.ring_buffer_bytes);
  stderr_ring = new_ring_buffer (pos_part opts.ring_buffer_bytes);
  stdout_rotate = stdout;
  stderr_rotate = stderr;
}

-- `s.stdoutRotate.Close()`, whose error is ignored; it does nothing to a nil writer.
abbrev pub close_writer : Os → Option RotateWriter → Option RotateWriter
close_writer os none = none
close_writer os (some w) = some (close os w).0

abbrev pub open_stderr : Os → CreateOptions → Option RotateWriter → Opened → Creation
open_stderr os opts stdout no_writer = created (supervisor_of opts stdout none)
open_stderr os opts stdout (writer w) = created (supervisor_of opts stdout (some w))
open_stderr os opts stdout (failed f) = log_refused (close_writer os stdout)

abbrev pub open_stdout : Os → CreateOptions → Opened → Opened → Creation
open_stdout os opts no_writer stderr = open_stderr os opts none stderr
open_stdout os opts (writer w) stderr = open_stderr os opts (some w) stderr
open_stdout os opts (failed f) stderr = log_refused none

-- What the operating system answers: to the two calls of `NewRotateWriter`, for two paths that do
-- not share a file, and to the closing of the first.
pub record Answers : Type 0 where
  pub stdout_opening : Opening
  pub stderr_opening : Opening
  pub stdout_files : Files
  pub stderr_files : Files
  pub closing : Os

abbrev pub open_logs : Answers → CreateOptions → Option RotateOptions → Creation
open_logs a opts none = created (supervisor_of opts none none)
open_logs a opts (some r) =
    open_stdout a.closing opts
      (new_rotate_writer a.stdout_opening r.stdout_path r.max_bytes r.max_backups a.stdout_files)
      (new_rotate_writer a.stderr_opening r.stderr_path r.max_bytes r.max_backups a.stderr_files)

abbrev pub create_with_policy : Answers → CreateOptions → Option RestartPolicy → Creation
create_with_policy a opts none = invalid_policy opts.loop_options.restart_policy
create_with_policy a opts (some policy) = open_logs a (with_defaults policy opts) opts.log_rotate

abbrev pub create_validated : Answers → CreateOptions → Result (Unit {0}) → Creation
create_validated a opts (err e) = invalid_options e
create_validated a opts (ok x) =
    create_with_policy a opts
      (normalize_restart_policy opts.loop_options.restart_policy opts.auto_restart)

-- `NewSupervisor`
unfoldable pub create_supervisor : Answers → CreateOptions → Creation
create_supervisor a opts = create_validated a opts (validate_options opts.process)

-- What `NewSupervisor` promises for its result.
pub record IsReady (c : Created) : Type 0 where
  pub policy_known :
      (c.options.loop_options.restart_policy ≡ never)
      ⊎ ((c.options.loop_options.restart_policy ≡ always)
          ⊎ (c.options.loop_options.restart_policy ≡ on_failure))
  pub threshold : ltb_ℤ (pos 0) c.options.loop_options.health_check_failures ≡ true
  pub timeout : ltb_ℤ (pos 0) c.options.health_check_stop_timeout ≡ true
  pub rings : (0 < c.stdout_ring.max) × (0 < c.stderr_ring.max)
  pub unstarted : c.state ≡ new_supervisor

abbrev pub is_open_writer : Option RotateWriter → Bool
is_open_writer none = false
is_open_writer (some w) = w.is_open

-- What holds of each result.
abbrev pub Outcome : CreateOptions → Creation → Type 0
Outcome opts (created c) = IsReady c × (validate_options opts.process ≡ ok tt)
Outcome opts (invalid_options e) = validate_options opts.process ≡ err e
Outcome opts (invalid_policy p) =
    (normalize_restart_policy p opts.auto_restart ≡ none) × (p ≡ opts.loop_options.restart_policy)
Outcome opts (log_refused stdout) = (is_open_writer stdout ≡ false) × (opts.log_rotate ≢ none)
