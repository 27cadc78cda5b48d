-- ===== src/Process.antt =====
-- tools/cmdrunner/cmdrunner.go: `Start`, `Process` and its methods; process_group_unix.go.
pub mod Waits
pub mod Stops
mod Tests
use opengrab.Prelude.{
  ℕ, zero, suc, ◌+◌, Bool, true, false, not, ◌&&◌, List, [], ◌∷◌, ◌++◌, ◌⊎◌, inl, inr, Option, none,
  some, ℤ, pos, negsuc, leb_ℤ, ◌==◌, if◌then◌else◌,
}
use opengrab.Text.{Text, is_blank, is_empty}
use opengrab.Mode.{Mode, unset, auto, args, shell, other, mode_text, normalize_mode}
use opengrab.Error.{
  Error, Result, ok, err, empty_program, empty_shell_command, wrapped_invalid_mode,
}
use opengrab.CmdLine.{join_command_quoting}
use opengrab.Command.{Options, Cmd, build_command}
use opengrab.Run.{ExecError, exit_code, RunResult, platform_shell}

-- `Process`, once it has been started. `cancels` counts the calls of `p.cancel`, and `closes` the
-- `close(p.waitDone)`.
pub record Process : Type 0 where
  pub result : RunResult
  pub err : Option ExecError
  pub running : Bool
  pub finished : Bool
  pub cancels : ℕ
  pub closes : ℕ

-- The errors of `Start`: one of `buildCommand`, or of `cmd.Start()`.
pub data StartError : Type 0 where
  not_built : Error → StartError
  not_spawned : ExecError → StartError

-- `configureProcessGroup`, which never fails.
abbrev pub configure_process_group : Cmd → Cmd
configure_process_group cmd = record cmd { new_group = true }

abbrev pub started : RunResult → ℕ → Process
started base pid = record {
  result = record base { pid = pid };
  err = none;
  running = true;
  finished = false;
  cancels = 0;
  closes = 0;
}

-- What `cmd.Start()` does: the pid of the new process, or an error.
pub data Spawned : Type 0 where
  spawned : ℕ → Spawned
  spawn_error : ExecError → Spawned

module _ (goos : Text) (environ : List Text) (spawn : Cmd → Spawned) where
  finish_start : RunResult → Spawned → (Process ⊎ StartError)
  finish_start base (spawned pid) = inl (started base pid)
  finish_start base (spawn_error e) = inr (not_spawned e)

  start_built : Result (Cmd × RunResult) → (Process ⊎ StartError)
  start_built (ok (cmd, base)) = finish_start base (spawn (configure_process_group cmd))
  start_built (err e) = inr (not_built e)

  -- `Start`; on an error it cancels the context that it made.
  pub start : Options → (Process ⊎ StartError)
  unfolding finish_start start_built
  start opts = start_built (build_command goos environ opts)

-- The error of `Wait`: the first call wraps the one of `cmd.Wait()`, a later one does not.
pub data WaitError : Type 0 where
  execution_failed : ExecError → WaitError
  bare : ExecError → WaitError

-- What `cmd.Wait()` returns, and what the buffers hold then.
pub record Exit : Type 0 where
  pub error : Option ExecError
  pub stdout : Text
  pub stderr : Text

abbrev map_error : (ExecError → WaitError) → Option ExecError → Option WaitError
map_error f none = none
map_error f (some e) = some (f e)

-- `Wait`, from where it has the lock.
pub wait : Exit → Process → Process × RunResult × Option WaitError
wait e p =
    let result = record p.result {
      stdout = e.stdout;
      stderr = e.stderr;
      exit_code = exit_code e.error;
    } in
    if p.finished then (p, p.result, map_error bare p.err) else (
      record {
        result = result;
        err = e.error;
        running = false;
        finished = true;
        cancels = p.cancels + 1;
        closes = p.closes + 1;
      },
      result,
      map_error execution_failed e.error,
    )

-- `IsRunning`
pub is_running : Process → Bool
is_running p = p.running && not p.finished

-- `PID`
pub get_pid : Process → ℕ
get_pid p = p.result.pid

-- The signals that are sent to process groups.
pub data Signal : Type 0 where
  sigterm sigkill : Signal

-- The error of `syscall.Kill`.
pub data SysError : Type 0 where
  esrch : SysError
  other_errno : ℕ → SysError

pub data StopError : Type 0 where
  not_started : StopError
  sys_error : SysError → StopError

abbrev Sent : Type 0
Sent = List (ℕ × Signal)

abbrev to_stop_error : Option SysError → Option StopError
to_stop_error none = none
to_stop_error (some e) = some (sys_error e)

-- After SIGKILL a group that is gone is no error.
abbrev forgive_gone : Option SysError → Option StopError
forgive_gone none = none
forgive_gone (some esrch) = none
forgive_gone (some e) = some (sys_error e)

-- What becomes of a `Process` during `GracefulStop`: how `syscall.Kill` answers, whether `waitDone`
-- is closed before the timer fires, and the process when it fires.
pub record Circumstances : Type 0 where
  pub term_answer : Option SysError
  pub kill_answer : Option SysError
  pub in_time : Bool
  pub at_timeout : Process

module _ (c : Circumstances) where
  -- `gracefulStopProcessGroup`: `signalProcessGroup` with SIGTERM.
  pub graceful_stop_process_group : ℕ → Option StopError × Sent
  graceful_stop_process_group pid =
      if pid == 0
      then (some not_started, [])
      else (to_stop_error c.term_answer, (pid, sigterm) ∷ [])

  -- `killProcessTree`
  pub kill_process_tree : ℕ → Option StopError × Sent
  kill_process_tree pid =
      if pid == 0 then (some not_started, []) else (forgive_gone c.kill_answer, (pid, sigkill) ∷ [])

  -- `Kill`
  pub kill : Process → Option StopError × Sent
  kill p = if is_running p then kill_process_tree p.result.pid else (none, [])

  -- The `select` of `GracefulStop`.
  await_exit : ℤ → Option StopError × Sent
  await_exit timeout =
      if leb_ℤ timeout (pos 0)
      then (none, [])
      else if c.in_time
      then (none, [])
      else kill c.at_timeout

  abbrev after_term : ℤ → Option StopError × Sent → Option StopError × Sent
  after_term timeout (some e, sent) = (some e, sent)
  after_term timeout (none, sent) = let (e, more) = await_exit timeout in (e, sent ++ more)

  -- `GracefulStop`
  pub graceful_stop : Process → ℤ → Option StopError × Sent
  graceful_stop p timeout =
      if is_running p
      then after_term timeout (graceful_stop_process_group p.result.pid)
      else (none, [])
