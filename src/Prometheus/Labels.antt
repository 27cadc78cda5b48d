-- ===== src/Prometheus/Labels.antt =====
-- A reader of Prometheus's label lists, and what it reads of `formatLabels`.
use opengrab.Prelude.{
  ◌≡◌, ℕ, Bool, true, false, List, [], ◌∷◌, ◌++◌, map, refl, sym, arith, if◌then◌else◌, ap, ◌∙◌,
  Option, none, some, append_assoc, append-nil, ◌==◌,
}
use opengrab.Text.{Text, codes, is_empty, join, replace_rune}
use opengrab.Prometheus.{
  is_label_start, is_label_rune, escape_label_value, sanitize_label_name, format_label,
  sort_strings, format_labels,
}
use opengrab.Prometheus.Names.{
  all_runes, name-all_runes, label_start_rune, sanitize_label_name-is_name,
}

-- Where the reader stands: in a name, behind its `=`, in a value with what it has read and whether
-- the last rune was a backslash, or behind a value.
pub data Reader : Type 0 where
  in_name : Text → Reader
  before_value : Text → Reader
  in_value : Text → Text → Bool → Reader
  after_value : Reader

-- What stands for a rune behind a backslash.
abbrev pub unescaped : ℕ → ℕ
unescaped r = if r == b'n' then b'\n' else r

abbrev pub add_label : Text × Text → Option (List (Text × Text)) → Option (List (Text × Text))
add_label l none = none
add_label l (some ls) = some (l ∷ ls)

-- The labels of a list as Prometheus reads it.
unfoldable pub read_labels : Reader → Text → Option (List (Text × Text))
read_labels (in_name name) [] = if is_empty name then some [] else none
read_labels (before_value name) [] = none
read_labels (in_value name value escaped) [] = none
read_labels after_value [] = some []
read_labels (in_name name) (r ∷ s) =
    if r == b'='
    then read_labels (before_value name) s
    else read_labels (in_name (name ++ r ∷ [])) s
read_labels (before_value name) (r ∷ s) =
    if r == b'"' then read_labels (in_value name [] false) s else none
read_labels (in_value name value true) (r ∷ s) =
    read_labels (in_value name (value ++ unescaped r ∷ []) false) s
read_labels (in_value name value false) (r ∷ s) =
    if r == b'"'
    then add_label (name, value) (read_labels after_value s)
    else if r == b'\\'
    then read_labels (in_value name value true) s
    else read_labels (in_value name (value ++ r ∷ []) false) s
read_labels after_value (r ∷ s) = if r == b',' then read_labels (in_name []) s else none

-- What `escapeLabelValue` writes for a rune.
abbrev escaped_rune : ℕ → Text
escaped_rune r =
    if r == b'\\'
    then codes "\\\\"
    else if r == b'\n'
    then codes "\\n"
    else if r == b'"'
    then codes "\\\""
    else r ∷ []

escape_label_value-cons :
    (r : ℕ) (v : Text) → escape_label_value (r ∷ v) ≡ escaped_rune r ++ escape_label_value v
unfolding escape_label_value replace_rune
escape_label_value-cons r v = ground arith

read_labels-escaped_rune :
    (name value : Text) (r : ℕ) (rest : Text)
    → read_labels (in_value name value false) (escaped_rune r ++ rest)
      ≡ read_labels (in_value name (value ++ r ∷ []) false) rest
unfolding read_labels
read_labels-escaped_rune name value r rest = ground arith

-- An escaped value is read as what it stands for.
read_labels-escape_label_value :
    (name value v rest : Text)
    → read_labels (in_value name value false) (escape_label_value v ++ rest)
      ≡ read_labels (in_value name (value ++ v) false) rest
unfolding read_labels
read_labels-escape_label_value name value [] rest =
    unfold escape_label_value replace_rune in rw append-nil
read_labels-escape_label_value name value (r ∷ v) rest = rw (escape_label_value-cons r v) (
    ap (read_labels (in_value name value false))
      (append_assoc (escaped_rune r) (escape_label_value v) rest)
    ∙ read_labels-escaped_rune name value r (escape_label_value v ++ rest)
    ∙ read_labels-escape_label_value name (value ++ r ∷ []) v rest
    ∙ ap (λ t. read_labels (in_value name t false) rest) (append_assoc value (r ∷ []) v))

label_rune_plain : (r : ℕ) → is_label_rune r ≡ true → (r == b'=') ≡ false
unfolding is_label_rune
label_rune_plain r h = ground arith

read_labels-runes :
    (name s rest : Text)
    → all_runes is_label_rune s ≡ true
    → read_labels (in_name name) (s ++ rest) ≡ read_labels (in_name (name ++ s)) rest
unfolding read_labels all_runes
read_labels-runes name [] rest h = rw append-nil
read_labels-runes name (r ∷ s) rest h = ground (
  arith,
  label_rune_plain r,
  read_labels-runes (name ++ r ∷ []) s rest,
  append_assoc name (r ∷ []) s,
)

-- What Prometheus reads for a key of the map.
abbrev pub label_of : (Text → Text) → Text → Text × Text
label_of get k = (sanitize_label_name k, get k)

read_labels-format_label :
    (get : Text → Text) (k rest : Text)
    → read_labels (in_name []) (format_label get k ++ rest)
      ≡ add_label (label_of get k) (read_labels after_value rest)
unfolding read_labels
read_labels-format_label get k rest =
    let valid =
      name-all_runes is_label_start is_label_rune label_start_rune (sanitize_label_name k)
        (sanitize_label_name-is_name k).0 in
    rw append_assoc (
      read_labels-runes [] (sanitize_label_name k) _ valid
      ∙ ap (read_labels (in_value (sanitize_label_name k) [] false))
          (append_assoc (escape_label_value (get k)) (codes "\"") rest)
      ∙ read_labels-escape_label_value (sanitize_label_name k) [] (get k) (b'"' ∷ rest))

after_comma : (s : Text) → read_labels after_value (b',' ∷ s) ≡ read_labels (in_name []) s
unfolding read_labels
after_comma s = refl

read_labels-join :
    (get : Text → Text) (ks : List Text)
    → read_labels (in_name []) (join (map (format_label get) ks) (codes ","))
      ≡ some (map (label_of get) ks)
unfolding join
read_labels-join get [] = unfold read_labels in refl
read_labels-join get (k ∷ []) =
    ap (read_labels (in_name [])) (sym (append-nil (format_label get k)))
    ∙ read_labels-format_label get k []
    ∙ unfold read_labels in refl
read_labels-join get (k ∷ l ∷ ks) =
    read_labels-format_label get k _
    ∙ ap (add_label (label_of get k)) (after_comma _ ∙ read_labels-join get (l ∷ ks))

-- From what `formatLabels` writes Prometheus reads every label of the map, sorted by its key: its
-- sanitized name and its value as it was, whatever quotes, backslashes and newlines that holds.
pub read_labels-format_labels :
    (keys : List Text) (get : Text → Text)
    → read_labels (in_name []) (format_labels keys get)
      ≡ some (map (label_of get) (sort_strings keys))
unfolding format_labels
read_labels-format_labels keys get = read_labels-join get (sort_strings keys)
