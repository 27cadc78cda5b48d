-- ===== src/Prometheus/Tests.antt =====
-- prometheus.go at concrete names and labels.
use mathlib.Core.List.Perm.{swap}
use opengrab.Prelude.{◌≡◌, refl, true, List, [], ◌∷◌, map, some, if◌then◌else◌}
use opengrab.Text.{Text, codes, trim_space, trim_left, trim_right, is_space, text_eq}
use opengrab.Prometheus.{
  sanitize_label_name, is_label_rune, is_namespace_start, is_namespace_rune,
  sanitize_metric_namespace, format_labels, sort_strings,
}
use opengrab.Prometheus.Names.{is_name}
use opengrab.Prometheus.Labels.{read_labels, in_name, label_of, read_labels-format_labels}
use opengrab.Prometheus.Order.{format_labels-Perm}
use opengrab.Prometheus.Exposition.{LabelMap, or_cmdrunner, write_prometheus}
use opengrab.Prometheus.Lines.{lines_of, metric_names, read_exposition-write_prometheus}
use opengrab.Prometheus.Reader.{read_exposition}
use opengrab.Supervisor.Machine.{fresh}

abbrev keys : List Text
keys = codes "service" ∷ codes "env" ∷ []

abbrev value_of : Text → Text
value_of k = if text_eq k (codes "env") then codes "a\"b\\" else codes "web"

read_labels-format_labels_example :
    read_labels (in_name []) (format_labels keys value_of)
    ≡ some (map (label_of value_of) (sort_strings keys))
read_labels-format_labels_example = read_labels-format_labels keys value_of

format_labels-Perm_example :
    format_labels keys value_of ≡ format_labels (codes "env" ∷ codes "service" ∷ []) value_of
format_labels-Perm_example = format_labels-Perm value_of (swap (codes "env") (codes "service") [])

-- Two keys of a map may become one label name.
labels_collide : sanitize_label_name (codes "a-b") ≡ sanitize_label_name (codes "a.b")
unfolding sanitize_label_name trim_space trim_left is_space trim_right
labels_collide = unfold is_label_rune in refl

-- A label whose value would be a sample of its own.
abbrev forged : LabelMap
forged = record { keys = codes "env" ∷ []; get = λ k. codes "x\"} 1\nforged 1" }

read_exposition-write_prometheus_example :
    let ns = or_cmdrunner (sanitize_metric_namespace (codes "my app")) in
    (read_exposition (write_prometheus (λ v. codes "1") 5 (some fresh.sup) (codes "my app") forged)
      ≡ lines_of ns metric_names)
    × (is_name is_namespace_start is_namespace_rune ns ≡ true)
read_exposition-write_prometheus_example =
    read_exposition-write_prometheus (λ v. codes "1") 5 fresh.sup (codes "my app") forged
      (λ v. refl)
