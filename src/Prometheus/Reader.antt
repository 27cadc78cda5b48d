-- ===== src/Prometheus/Reader.antt =====
-- How Prometheus reads a line of an exposition.
use opengrab.Prelude.{
  ◌≡◌, ℕ, true, false, ◌||◌, List, [], ◌∷◌, ◌++◌, refl, arith, ap, ◌∙◌, ◌==◌, drop, if◌then◌else◌,
}
use opengrab.Text.{Text, codes, has_rune, has_prefix, cut_lines, cut_lines-line}
use opengrab.Prometheus.{is_namespace_rune, is_namespace_start, namespace_of, escape_help}
use opengrab.Prometheus.Names.{is_name, all_runes, namespace_of-is_name}
use opengrab.Prometheus.Exposition.{or_cmdrunner, braced}

-- What a line says, with the name of its metric.
pub data Line : Type 0 where
  help type sample : Text → Line

-- A name ends at a blank or a brace.
unfoldable pub first_word : Text → Text
first_word [] = []
first_word (c ∷ s) = let word = first_word s in if c == b' ' || c == b'{' then [] else c ∷ word

unfoldable pub read_line : Text → Line
read_line s =
    if has_prefix s (codes "# HELP ")
    then help (first_word (drop 7 s))
    else if has_prefix s (codes "# TYPE ")
    then type (first_word (drop 7 s))
    else sample (first_word s)

unfoldable pub read_lines : Text → List Text → List Line
read_lines first [] = []
read_lines first (second ∷ others) = read_line first ∷ read_lines second others

-- The lines of an exposition, each of which has its newline.
unfoldable pub read_exposition : Text → List Line
read_exposition s = let (first, others) = cut_lines s in read_lines first others

pub read_exposition-line :
    (line rest : Text)
    → has_rune line b'\n' ≡ false
    → read_exposition (line ++ (b'\n' ∷ rest)) ≡ read_line line ∷ read_exposition rest
unfolding read_exposition read_lines
read_exposition-line line rest h = rw (cut_lines-line line rest h) refl

first_word-name :
    (name rest : Text) (c : ℕ)
    → all_runes is_namespace_rune name ≡ true
    → (c == b' ' || c == b'{') ≡ true
    → first_word (name ++ (c ∷ rest)) ≡ name
unfolding first_word all_runes is_namespace_rune
first_word-name [] rest c h k = rw k refl
first_word-name (d ∷ name) rest c h k = ground (arith, first_word-name name rest c)

abbrev pub help_line : Text → Text → Text
help_line name h = codes "# HELP " ++ (name ++ (codes " " ++ escape_help h))

abbrev pub type_line : Text → Text → Text
type_line name typ = codes "# TYPE " ++ (name ++ (codes " " ++ typ))

pub all_runes-append :
    (s t : Text)
    → all_runes is_namespace_rune s ≡ true
    → all_runes is_namespace_rune t ≡ true
    → all_runes is_namespace_rune (s ++ t) ≡ true
unfolding all_runes
all_runes-append [] t h k = k
all_runes-append (c ∷ s) t h k = ground (arith, all_runes-append s t)

pub read_line-help :
    (name h : Text)
    → all_runes is_namespace_rune name ≡ true
    → read_line (help_line name h) ≡ help name
unfolding read_line has_prefix
read_line-help name h k = ap help (first_word-name name (escape_help h) b' ' k refl)

pub read_line-type :
    (name typ : Text)
    → all_runes is_namespace_rune name ≡ true
    → read_line (type_line name typ) ≡ type name
unfolding read_line has_prefix
read_line-type name typ k = ap type (first_word-name name typ b' ' k refl)

-- A name does not begin like a comment.
not_hash : (c : ℕ) → is_namespace_start c ≡ true → (c == b'#') ≡ false
unfolding is_namespace_start
not_hash c h = ground arith

pub read_line-sample :
    (c : ℕ) (name rest : Text)
    → is_namespace_start c ≡ true
    → read_line ((c ∷ name) ++ rest) ≡ sample (first_word ((c ∷ name) ++ rest))
unfolding read_line has_prefix
read_line-sample c name rest h = rw (not_hash c h) refl

pub first_word-braced :
    (name inner rest : Text) (ks : List Text)
    → all_runes is_namespace_rune name ≡ true
    → first_word (name ++ (braced ks inner ++ (b' ' ∷ rest))) ≡ name
first_word-braced name inner rest [] h = first_word-name name rest b' ' h refl
first_word-braced name inner rest (k ∷ ks) h =
    first_word-name name ((inner ++ codes "}") ++ (b' ' ∷ rest)) b'{' h refl

-- The namespace that is written is a name.
abbrev pub IsNamespace : Text → Type 0
IsNamespace ns = is_name is_namespace_start is_namespace_rune ns ≡ true

or_cmdrunner-name : (s : Text) → IsNamespace s → or_cmdrunner s ≡ s
unfolding is_name
or_cmdrunner-name [] h = cc
or_cmdrunner-name (c ∷ s) h = refl

pub IsNamespace-namespace_of : (s : Text) → IsNamespace (or_cmdrunner (namespace_of s))
IsNamespace-namespace_of [] = unfold is_name all_runes is_namespace_start is_namespace_rune in refl
IsNamespace-namespace_of (c ∷ s) =
    let h = namespace_of-is_name (c ∷ s) (λ e. cc) in
    ap (is_name is_namespace_start is_namespace_rune) (or_cmdrunner-name (namespace_of (c ∷ s)) h)
    ∙ h
