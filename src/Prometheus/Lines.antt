-- ===== src/Prometheus/Lines.antt =====
-- `WritePrometheus`: what Prometheus reads line by line.
use opengrab.Prelude.{
  ◌≡◌, ℕ, Bool, true, false, not, ◌&&◌, List, [], ◌∷◌, ◌++◌, some, refl, sym, arith, ap, ◌∙◌,
  append_assoc, append-nil,
}
use opengrab.Text.{Text, codes, has_rune, cut_lines, trim_space}
use opengrab.Supervisor.State.{Supervisor}
use opengrab.Supervisor.Snapshot.{Snapshot, snapshot_metrics}
use opengrab.Prometheus.{
  is_namespace_rune, is_namespace_start, sanitize_metric_namespace, namespace_of, escape_help,
  format_labels, metric_help_type, empty_to_na,
}
use opengrab.Prometheus.Names.{is_name, all_runes, name-all_runes, namespace_start_rune}
use opengrab.Prometheus.Exposition.{
  Value, LabelMap, Metric, metrics_of, reason_metric, or_cmdrunner, put_label, metric_value,
  write_metric, write_metrics, write_prometheus,
}
use opengrab.Prometheus.Escapes.{
  has_rune-append, name-one_line, escape_help-one_line, labels_text, labels_text-one_line,
}
use opengrab.Prometheus.Reader.{
  Line, help, type, sample, read_line, read_lines, read_exposition, read_exposition-line,
  first_word-braced, read_line-help, read_line-type, read_line-sample, all_runes-append,
  IsNamespace, IsNamespace-namespace_of, help_line, type_line,
}

-- The suffix of a metric is a part of a name, and its type stands on a line.
abbrev is_metric : Metric → Bool
is_metric m = all_runes is_namespace_rune m.suffix && not (has_rune m.typ b'\n')

abbrev are_metrics : List Metric → Bool
are_metrics [] = true
are_metrics (m ∷ ms) = is_metric m && are_metrics ms

-- The lines of a metric are its help, its type, and its sample.
abbrev pub lines_of : Text → List Text → List Line
lines_of ns [] = []
lines_of ns (suffix ∷ ss) =
    help (ns ++ suffix) ∷ type (ns ++ suffix) ∷ sample (ns ++ suffix) ∷ lines_of ns ss

lines_of-append :
    (ns : Text) (ss ts : List Text) → lines_of ns (ss ++ ts) ≡ lines_of ns ss ++ lines_of ns ts
lines_of-append ns [] ts = refl
lines_of-append ns (s ∷ ss) ts =
    ap (λ ls. help (ns ++ s) ∷ type (ns ++ s) ∷ sample (ns ++ s) ∷ ls) (lines_of-append ns ss ts)

abbrev suffixes_of : List Metric → List Text
suffixes_of [] = []
suffixes_of (m ∷ ms) = m.suffix ∷ suffixes_of ms

-- The metrics of a supervisor.
abbrev pub metric_names : List Text
metric_names =
    codes "_supervisor_running"
    ∷ codes "_supervisor_starts_total"
    ∷ codes "_supervisor_stops_total"
    ∷ codes "_supervisor_restarts_total"
    ∷ codes "_supervisor_crashes_total"
    ∷ codes "_supervisor_health_checks_total"
    ∷ codes "_supervisor_health_check_successes_total"
    ∷ codes "_supervisor_health_check_failures_total"
    ∷ codes "_supervisor_consecutive_restarts"
    ∷ codes "_supervisor_consecutive_health_check_failures"
    ∷ codes "_supervisor_pid"
    ∷ codes "_supervisor_current_uptime_seconds"
    ∷ codes "_supervisor_total_uptime_seconds"
    ∷ codes "_supervisor_last_exit_code"
    ∷ codes "_supervisor_last_start_time_seconds"
    ∷ codes "_supervisor_last_stop_time_seconds"
    ∷ codes "_supervisor_last_error"
    ∷ codes "_supervisor_last_health_error"
    ∷ codes "_supervisor_last_restart_reason_info"
    ∷ []

module _ (show : Value → Text) where
  abbrev sample_line : Text → LabelMap → Value → Text
  sample_line name labels v = name ++ (labels_text labels ++ (codes " " ++ show v))

  write_metric-lines :
      (ns : Text) (labels : LabelMap) (m : Metric) (rest : Text)
      → let name = ns ++ m.suffix in
        write_metric show ns labels m ++ rest
        ≡ help_line name m.help
          ++ (b'\n'
              ∷ (type_line name m.typ
                  ++ (b'\n' ∷ (sample_line name labels m.value ++ (b'\n' ∷ rest)))))
  unfolding write_metric metric_help_type metric_value
  write_metric-lines ns labels m rest = simp append_assoc

  sample_line-one_line :
      (name : Text) (labels : LabelMap) (v : Value)
      → all_runes is_namespace_rune name ≡ true
      → has_rune (show v) b'\n' ≡ false
      → has_rune (sample_line name labels v) b'\n' ≡ false
  sample_line-one_line name labels v h k =
      has_rune-append b'\n' name (labels_text labels ++ (codes " " ++ show v))
      ∙ rw (name-one_line name h) (
          has_rune-append b'\n' (labels_text labels) (codes " " ++ show v)
          ∙ rw (labels_text-one_line labels, k) refl)

  read_line-sample_line :
      (ns suffix : Text) (labels : LabelMap) (v : Value)
      → IsNamespace ns
      → all_runes is_namespace_rune (ns ++ suffix) ≡ true
      → read_line (sample_line (ns ++ suffix) labels v) ≡ sample (ns ++ suffix)
  read_line-sample_line [] suffix labels v h k = unfold is_name in cc
  read_line-sample_line (c ∷ ns) suffix labels v h k =
      let start : is_namespace_start c ≡ true = unfold is_name in ground arith in
      let inner = format_labels labels.keys labels.get in
      read_line-sample c (ns ++ suffix) (labels_text labels ++ (codes " " ++ show v)) start
      ∙ ap sample (first_word-braced (c ∷ (ns ++ suffix)) inner (show v) labels.keys k)

  read-metric :
      (ns : Text) (labels : LabelMap) (m : Metric) (rest : Text)
      → IsNamespace ns
      → is_metric m ≡ true
      → has_rune (show m.value) b'\n' ≡ false
      → read_exposition (write_metric show ns labels m ++ rest)
        ≡ lines_of ns (m.suffix ∷ []) ++ read_exposition rest
  read-metric ns labels m rest h k v =
      let name = ns ++ m.suffix in
      let runes : all_runes is_namespace_rune name ≡ true =
        all_runes-append ns m.suffix
          (name-all_runes is_namespace_start is_namespace_rune namespace_start_rune ns h)
          (ground arith) in
      let typ_solid : has_rune m.typ b'\n' ≡ false = ground arith in
      let solid = name-one_line name runes in
      let help_solid : has_rune (help_line name m.help) b'\n' ≡ false =
        has_rune-append b'\n' name (codes " " ++ escape_help m.help)
        ∙ rw (solid, escape_help-one_line m.help) refl in
      let type_solid : has_rune (type_line name m.typ) b'\n' ≡ false =
        has_rune-append b'\n' name (codes " " ++ m.typ) ∙ rw (solid, typ_solid) refl in
      let sampled = sample_line name labels m.value ++ (b'\n' ∷ rest) in
      ap read_exposition (write_metric-lines ns labels m rest)
      ∙ read_exposition-line (help_line name m.help) (type_line name m.typ ++ (b'\n' ∷ sampled))
          help_solid
      ∙ rw
          (
            read_line-help name m.help runes,
            read_exposition-line (type_line name m.typ) sampled type_solid,
            read_line-type name m.typ runes,
            read_exposition-line (sample_line name labels m.value) rest
                (sample_line-one_line name labels m.value runes v),
            read_line-sample_line ns m.suffix labels m.value h runes,
          )
          refl

  read-metrics :
      (ns : Text) (labels : LabelMap) (ms : List Metric) (rest : Text)
      → IsNamespace ns
      → are_metrics ms ≡ true
      → ((v : Value) → has_rune (show v) b'\n' ≡ false)
      → read_exposition (write_metrics show ns labels ms ++ rest)
        ≡ lines_of ns (suffixes_of ms) ++ read_exposition rest
  unfolding write_metrics
  read-metrics ns labels [] rest h k v = refl
  read-metrics ns labels (m ∷ ms) rest h k v =
      let next = write_metrics show ns labels ms in
      ap read_exposition (append_assoc (write_metric show ns labels m) next rest)
      ∙ read-metric ns labels m (next ++ rest) h (ground arith) (v m.value)
      ∙ ap (λ ls. lines_of ns (m.suffix ∷ []) ++ ls)
          (read-metrics ns labels ms rest h (ground arith) v)

metrics_of-are_metrics : (s : Snapshot) → are_metrics (metrics_of s) ≡ true
unfolding metrics_of all_runes is_namespace_rune
metrics_of-are_metrics s = refl

reason_is_metric : is_metric reason_metric ≡ true
unfolding all_runes is_namespace_rune
reason_is_metric = refl

suffixes_of-metrics_of :
    (s : Snapshot) → suffixes_of (metrics_of s) ++ reason_metric.suffix ∷ [] ≡ metric_names
unfolding metrics_of
suffixes_of-metrics_of s = refl

-- Whatever the namespace, the labels and the supervisor, and whatever it says of a restart, as long
-- as no value is printed with a newline, the lines that `WritePrometheus` writes read as the help,
-- the type and the sample of each of the nineteen metrics in turn, and no other: no label value
-- brings a line of its own. The names are of Prometheus's grammar, and begin with the sanitized
-- namespace, or `cmdrunner` if that is empty.
pub read_exposition-write_prometheus :
    (show : Value → Text) (now : ℕ) (s : Supervisor) (namespace : Text) (labels : LabelMap)
    → ((v : Value) → has_rune (show v) b'\n' ≡ false)
    → let ns = or_cmdrunner (sanitize_metric_namespace namespace) in
      (read_exposition (write_prometheus show now (some s) namespace labels)
        ≡ lines_of ns metric_names)
      × (is_name is_namespace_start is_namespace_rune ns ≡ true)
unfolding write_prometheus sanitize_metric_namespace
read_exposition-write_prometheus show now s namespace labels v =
    let ns = or_cmdrunner (namespace_of (trim_space namespace)) in
    let h = IsNamespace-namespace_of (trim_space namespace) in
    let shot = snapshot_metrics now s in
    let with_reason =
      put_label (codes "reason") (empty_to_na shot.metrics.last_restart_reason) labels in
    let last : read_exposition (write_metric show ns with_reason reason_metric)
        ≡ lines_of ns (reason_metric.suffix ∷ []) =
      ap read_exposition (sym (append-nil (write_metric show ns with_reason reason_metric)))
      ∙ read-metric show ns with_reason reason_metric [] h reason_is_metric (v reason_metric.value)
      ∙ unfold read_exposition read_lines cut_lines in refl in
    (
      read-metrics show ns labels (metrics_of shot) (write_metric show ns with_reason reason_metric)
            h (metrics_of-are_metrics shot) v
          ∙ rw last (
              sym (lines_of-append ns (suffixes_of (metrics_of shot)) (reason_metric.suffix ∷ []))
              ∙ ap (lines_of ns) (suffixes_of-metrics_of shot)),
      h,
    )
