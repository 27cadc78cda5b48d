-- ===== src/Prometheus/Exposition.antt =====
-- tools/cmdrunner/prometheus.go: `WritePrometheus`. How a float64 is printed is a parameter.
use opengrab.Prelude.{
  ℕ, ◌/◌, Bool, not, List, [], ◌∷◌, ◌++◌, Option, none, some, ℤ, pos, if◌then◌else◌,
}
use opengrab.Text.{Text, codes, is_empty, text_eq, has_text}
use opengrab.Supervisor.State.{Supervisor}
use opengrab.Supervisor.Snapshot.{Snapshot, snapshot_metrics}
use opengrab.Prometheus.{sanitize_metric_namespace, format_labels, metric_help_type, empty_to_na}

-- A value, before it is a float64: a whole number, or the seconds of a duration in nanoseconds.
pub data Value : Type 0 where
  whole : ℤ → Value
  seconds : ℕ → Value

-- A map: its keys in the order of `range`, and the lookup.
pub record LabelMap : Type 0 where
  pub keys : List Text
  pub get : Text → Text

-- `infoLabels[key] = value`
unfoldable pub put_label : Text → Text → LabelMap → LabelMap
put_label key value m = record {
  keys = if has_text m.keys key then m.keys else key ∷ m.keys;
  get = λ k. if text_eq key k then value else m.get k;
}

-- `boolToFloat`
abbrev pub bool_to_float : Bool → Value
bool_to_float v = whole (pos (if v then 1 else 0))

-- `timeToUnixFloat`; a time is in nanoseconds.
abbrev pub time_to_unix_float : Option ℕ → Value
time_to_unix_float none = whole (pos 0)
time_to_unix_float (some t) = whole (pos (t / 1000000000))

abbrev pub count : ℕ → Value
count n = whole (pos n)

-- The braces of `writeMetricValue`, which are left out where there is no label.
abbrev pub braced : List Text → Text → Text
braced [] inner = []
braced (k ∷ ks) inner = codes "{" ++ (inner ++ codes "}")

-- A metric of `WritePrometheus`, by what is written behind the namespace.
pub record Metric : Type 0 where
  pub suffix : Text
  pub help : Text
  pub typ : Text
  pub value : Value

abbrev pub metric : Text → Text → Text → Value → Metric
metric suffix help typ value = record {
  suffix = codes "_supervisor_" ++ suffix;
  help = help;
  typ = typ;
  value = value;
}

abbrev pub gauge : Text
gauge = codes "gauge"

abbrev pub counter : Text
counter = codes "counter"

-- The metrics with the base labels, in their order.
unfoldable pub metrics_of : Snapshot → List Metric
metrics_of s =
    let m = s.metrics in
    metric (codes "running") (codes "Whether the supervisor currently has a running process") gauge
      (bool_to_float m.running)
    ∷ metric (codes "starts_total") (codes "Total number of process starts") counter
        (count m.starts)
    ∷ metric (codes "stops_total") (codes "Total number of process stops") counter (count m.stops)
    ∷ metric (codes "restarts_total") (codes "Total number of process restarts") counter
        (count m.restarts)
    ∷ metric (codes "crashes_total") (codes "Total number of process crashes") counter
        (count m.crashes)
    ∷ metric (codes "health_checks_total") (codes "Total number of health checks") counter
        (count m.health_checks)
    ∷ metric (codes "health_check_successes_total")
        (codes "Total number of successful health checks") counter (count m.health_check_successes)
    ∷ metric (codes "health_check_failures_total") (codes "Total number of failed health checks")
        counter (count m.health_check_failures)
    ∷ metric (codes "consecutive_restarts") (codes "Current consecutive restart count") gauge
        (count m.consecutive_restarts)
    ∷ metric (codes "consecutive_health_check_failures")
        (codes "Current consecutive health check failure count") gauge
        (count m.consecutive_hc_failures)
    ∷ metric (codes "pid") (codes "Current process PID, 0 if not running") gauge
        (count m.current_pid)
    ∷ metric (codes "current_uptime_seconds") (codes "Current uptime in seconds") gauge
        (seconds s.current_uptime)
    ∷ metric (codes "total_uptime_seconds") (codes "Accumulated uptime in seconds") counter
        (seconds s.total_uptime)
    ∷ metric (codes "last_exit_code") (codes "Last process exit code") gauge
        (whole m.last_exit_code)
    ∷ metric (codes "last_start_time_seconds")
        (codes "Unix timestamp of the last process start time") gauge
        (time_to_unix_float m.last_start_time)
    ∷ metric (codes "last_stop_time_seconds") (codes "Unix timestamp of the last process stop time")
        gauge (time_to_unix_float m.last_stop_time)
    ∷ metric (codes "last_error") (codes "Whether the last process ended with an error") gauge
        (bool_to_float (not (is_empty m.last_error)))
    ∷ metric (codes "last_health_error") (codes "Whether the last health check status is unhealthy")
        gauge (bool_to_float (not (is_empty m.last_health_error)))
    ∷ []

abbrev pub reason_metric : Metric
reason_metric = record {
  suffix = codes "_supervisor_last_restart_reason_info";
  help = codes "Last restart reason encoded as an info-style gauge";
  typ = codes "gauge";
  value = count 1;
}

abbrev pub or_cmdrunner : Text → Text
or_cmdrunner ns = if is_empty ns then codes "cmdrunner" else ns

module _ (show : Value → Text) where
  -- `writeMetricValue`
  unfoldable pub metric_value : Text → LabelMap → Value → Text
  metric_value name labels value =
      name
      ++ (braced labels.keys (format_labels labels.keys labels.get)
          ++ (codes " " ++ (show value ++ codes "\n")))

  -- A pair of calls in `WritePrometheus`.
  unfoldable pub write_metric : Text → LabelMap → Metric → Text
  write_metric ns labels m =
      metric_help_type (ns ++ m.suffix) m.help m.typ ++ metric_value (ns ++ m.suffix) labels m.value

  unfoldable pub write_metrics : Text → LabelMap → List Metric → Text
  write_metrics ns labels [] = []
  write_metrics ns labels (m ∷ ms) = write_metric ns labels m ++ write_metrics ns labels ms

  abbrev pub write_snapshot : Text → LabelMap → Snapshot → Text
  write_snapshot ns labels s =
      write_metrics ns labels (metrics_of s)
      ++ write_metric ns
          (put_label (codes "reason") (empty_to_na s.metrics.last_restart_reason) labels)
          reason_metric

  -- `WritePrometheus`: what it writes, at the time `now`; the errors of the writer are ignored.
  unfoldable pub write_prometheus : ℕ → Option Supervisor → Text → LabelMap → Text
  write_prometheus now none namespace labels = []
  write_prometheus now (some s) namespace labels =
      write_snapshot (or_cmdrunner (sanitize_metric_namespace namespace)) labels
        (snapshot_metrics now s)
