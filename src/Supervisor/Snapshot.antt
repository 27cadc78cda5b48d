-- ===== src/Supervisor/Snapshot.antt =====
-- supervisor.go: `SnapshotMetrics`.
use opengrab.Prelude.{◌≡◌, ℕ, ◌+◌, ◌-◌, Bool, true, false, Option, none, some, arith}
use opengrab.Run.{RunResult}
use opengrab.Supervisor.State.{Err, Metrics, Supervisor, SupervisorOptions}
use opengrab.Supervisor.Metrics.{record_stop}
use opengrab.Supervisor.Machine.{Machine, fresh}
use opengrab.Supervisor.Loop.{Run}
use opengrab.Supervisor.Safety.{Run-IsConsistent}

-- The exported `Metrics`: the counters as they are, with the time of the current run.
pub record Snapshot : Type 0 where
  pub metrics : Metrics
  pub current_uptime : ℕ
  pub total_uptime : ℕ

abbrev pub uptime : Bool → Option ℕ → ℕ → ℕ
uptime true (some start) now = now - start
uptime true none now = 0
uptime false start now = 0

-- `SnapshotMetrics`, at the time `now` of a clock that does not run backwards.
unfoldable pub snapshot_metrics : ℕ → Supervisor → Snapshot
snapshot_metrics now s =
    let m = s.metrics in
    record {
      metrics = m;
      current_uptime = uptime m.running m.current_start now;
      total_uptime = m.total_uptime + uptime m.running m.current_start now;
    }

-- At every moment of every run the total uptime of a snapshot is what the total would be if the
-- process ended at that moment, and no process that does not run has an uptime.
pub snapshot_metrics-record_stop :
    (o : SupervisorOptions) {m : Machine}
    → Run o fresh m
    → (now : ℕ) (res : RunResult) (err : Option Err) (unhealthy : Bool)
    → ((snapshot_metrics now m.sup).total_uptime
        ≡ (record_stop res err unhealthy now m.sup).metrics.total_uptime)
      × (m.sup.metrics.running ≡ false → (snapshot_metrics now m.sup).current_uptime ≡ 0)
unfolding snapshot_metrics record_stop
snapshot_metrics-record_stop o {m} r now res err unhealthy =
    let c = Run-IsConsistent o r in ground (arith, c.running_iff, c.start_iff)
