-- ===== src/Prometheus.antt =====
-- tools/cmdrunner/prometheus.go: names, labels and help texts in Prometheus's text format.
mod Tests
pub mod Names
pub mod Labels
pub mod Order
pub mod Exposition
pub mod Escapes
pub mod Reader
pub mod Lines
use mathlib.Core.List.{foldr}
use opengrab.Prelude.{
  ℕ, Bool, true, false, ◌&&◌, ◌||◌, List, [], ◌∷◌, ◌++◌, map, leb, ltb, ◌==◌, if◌then◌else◌,
}
use opengrab.Text.{Text, codes, trim_space, is_blank, join, replace_rune}

abbrev pub is_letter : ℕ → Bool
is_letter r = (leb b'a' r && leb r b'z') || (leb b'A' r && leb r b'Z')

abbrev pub is_digit : ℕ → Bool
is_digit r = leb b'0' r && leb r b'9'

-- `ok` and `startOK` of `sanitizeMetricNamespace`
unfoldable pub is_namespace_rune : ℕ → Bool
is_namespace_rune r = is_letter r || is_digit r || r == b'_' || r == b':'

unfoldable pub is_namespace_start : ℕ → Bool
is_namespace_start r = is_letter r || r == b'_' || r == b':'

-- `ok` and `startOK` of `sanitizeLabelName`
unfoldable pub is_label_rune : ℕ → Bool
is_label_rune r = is_letter r || is_digit r || r == b'_'

unfoldable pub is_label_start : ℕ → Bool
is_label_start r = is_letter r || r == b'_'

-- A round of the two loops: the rune that is written.
abbrev pub or_underscore : (ℕ → Bool) → ℕ → ℕ
or_underscore ok r = if ok r then r else b'_'

-- The round at i = 0 writes an underscore before a rune that may not come first.
abbrev pub write_first : (ℕ → Bool) → ℕ → Text
write_first start_ok r = if start_ok r then r ∷ [] else b'_' ∷ r ∷ []

abbrev pub namespace_of : Text → Text
namespace_of [] = []
namespace_of (r ∷ s) =
    write_first is_namespace_start (or_underscore is_namespace_rune r)
    ++ map (or_underscore is_namespace_rune) s

-- `sanitizeMetricNamespace`
unfoldable pub sanitize_metric_namespace : Text → Text
sanitize_metric_namespace ns = namespace_of (trim_space ns)

abbrev pub label_name_of : Text → Text
label_name_of [] = codes "label"
label_name_of (r ∷ s) =
    write_first is_label_start (or_underscore is_label_rune r)
    ++ map (or_underscore is_label_rune) s

-- `sanitizeLabelName`
unfoldable pub sanitize_label_name : Text → Text
sanitize_label_name s = label_name_of (trim_space s)

-- `escapeLabelValue`
unfoldable pub escape_label_value : Text → Text
escape_label_value s =
    replace_rune (replace_rune (replace_rune s b'\\' (codes "\\\\")) b'\n' (codes "\\n")) b'"'
      (codes "\\\"")

-- `escapeHelp`
unfoldable pub escape_help : Text → Text
escape_help s = replace_rune (replace_rune s b'\\' (codes "\\\\")) b'\n' (codes "\\n")

-- `s <= t` on strings: the order of the bytes of two texts is that of their code points.
unfoldable pub text_leb : Text → Text → Bool
text_leb [] t = true
text_leb (c ∷ s) [] = false
text_leb (c ∷ s) (d ∷ t) = ltb c d || (c == d && text_leb s t)

unfoldable pub insert_string : Text → List Text → List Text
insert_string k [] = k ∷ []
insert_string k (l ∷ ls) = if text_leb k l then k ∷ l ∷ ls else l ∷ insert_string k ls

-- `sort.Strings`
abbrev pub sort_strings : List Text → List Text
sort_strings ks = foldr insert_string [] ks

-- `fmt.Sprintf(`%s="%s"`, …)` for a key.
abbrev pub format_label : (Text → Text) → Text → Text
format_label get k =
    sanitize_label_name k ++ (codes "=\"" ++ (escape_label_value (get k) ++ codes "\""))

-- `formatLabels`, for a map of which `keys` is what `range` yields, in whatever order, and `get` the
-- lookup.
unfoldable pub format_labels : List Text → (Text → Text) → Text
format_labels keys get = join (map (format_label get) (sort_strings keys)) (codes ",")

-- `emptyToNA`
unfoldable pub empty_to_na : Text → Text
empty_to_na s = if is_blank s then codes "n/a" else s

-- `writeMetricHelpType`
unfoldable pub metric_help_type : Text → Text → Text → Text
metric_help_type name help typ =
    codes "# HELP "
    ++ (name
        ++ (codes " "
            ++ (escape_help help
                ++ (codes "\n# TYPE " ++ (name ++ (codes " " ++ (typ ++ codes "\n")))))))
