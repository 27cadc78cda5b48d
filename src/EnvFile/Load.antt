-- ===== src/EnvFile/Load.antt =====
-- `loadEnvFiles`: which value a variable has behind it.
use opengrab.Prelude.{
  ◌≡◌, inl, inr, false, ◌&&◌, List, [], ◌∷◌, refl, arith, Option, none, some, if◌then◌else◌, ap,
  sym, Bool-cases, ◌∙◌,
}
use opengrab.Text.{Text, text_eq, text_eq→eq, text_eq_refl}
use opengrab.EnvFile.{
  Environment, parse_line, can_set, set_if_unset, load_parsed, load_lines, load_file, EnvSource,
  missing, refused, lines, load_env_files,
}

-- The value that a parsed line gives a variable; "" if it gives none.
abbrev pub given : Text → Option (Text × Text) → Text
given k none = []
given k (some (key, value)) = if text_eq key k && can_set key value then value else []

-- The first of two values that is not empty.
abbrev pub or_else : Text → Text → Text
or_else [] t = t
or_else (c ∷ s) t = c ∷ s

-- The first value that is not empty, of all that the lines and files give a variable.
unfoldable pub first_of_lines : Text → List Text → Text
first_of_lines k [] = []
first_of_lines k (l ∷ ls) = or_else (given k (parse_line l)) (first_of_lines k ls)

abbrev pub first_of_file : Text → EnvSource → Text
first_of_file k missing = []
first_of_file k refused = []
first_of_file k (lines ls scan_ok close_ok) = first_of_lines k ls

unfoldable pub first_of_files : Text → List (Text × EnvSource) → Text
first_of_files k [] = []
first_of_files k ((path, file) ∷ files) = or_else (first_of_file k file) (first_of_files k files)

or_else_assoc : (s t u : Text) → or_else (or_else s t) u ≡ or_else s (or_else t u)
or_else_assoc [] t u = refl
or_else_assoc (c ∷ s) t u = refl

or_else-nil : (s : Text) → s ≡ or_else s []
or_else-nil [] = refl
or_else-nil (c ∷ s) = refl

set_other :
    (k key value : Text) (env : Environment) (errs : List Text)
    → text_eq key k ≡ false
    → (set_if_unset key value (env, errs)).0 k ≡ env k
set_other k key value env errs h = ground arith

set_same :
    (k value : Text) (env : Environment) (errs : List Text)
    → (set_if_unset k value (env, errs)).0 k
      ≡ or_else (env k) (if can_set k value then value else [])
set_same k value env errs = ground (arith, text_eq_refl k)

load_parsed-value :
    (k : Text) (parsed : Option (Text × Text)) (st : Environment × List Text)
    → (load_parsed parsed st).0 k ≡ or_else (st.0 k) (given k parsed)
load_parsed-value k none st = or_else-nil (st.0 k)
load_parsed-value k (some (key, value)) (env, errs) = elim (Bool-cases (text_eq key k)) [
  | inl same ↦ rw same (
      ap (λ x. (set_if_unset x value (env, errs)).0 k) (text_eq→eq key k same)
      ∙ set_same k value env errs
      ∙ ap (λ x. or_else (env k) (if can_set x value then value else []))
          (sym (text_eq→eq key k same)))
  | inr different ↦ rw different (set_other k key value env errs different ∙ or_else-nil (env k))
]

load_lines-value :
    (k : Text) (ls : List Text) (st : Environment × List Text)
    → (load_lines ls st).0 k ≡ or_else (st.0 k) (first_of_lines k ls)
unfolding load_lines first_of_lines
load_lines-value k [] st = or_else-nil (st.0 k)
load_lines-value k (l ∷ ls) st =
    load_lines-value k ls (load_parsed (parse_line l) st)
    ∙ ap (λ v. or_else v (first_of_lines k ls)) (load_parsed-value k (parse_line l) st)
    ∙ or_else_assoc (st.0 k) (given k (parse_line l)) (first_of_lines k ls)

load_file-value :
    (k path : Text) (file : EnvSource) (st : Environment × List Text)
    → (load_file path file st).0 k ≡ or_else (st.0 k) (first_of_file k file)
unfolding load_file
load_file-value k path missing st = or_else-nil (st.0 k)
load_file-value k path refused (env, errs) = or_else-nil (env k)
load_file-value k path (lines ls scan_ok close_ok) st = load_lines-value k ls st

-- Behind `loadEnvFiles` a variable that was set has the value that it had, and any other the first
-- value that is not empty among those that the lines of the files give it, in their order, where one
-- with a zero byte is refused: no file overrides the environment or a file before it.
pub load_env_files-value :
    (k : Text) (files : List (Text × EnvSource)) (st : Environment × List Text)
    → (load_env_files files st).0 k ≡ or_else (st.0 k) (first_of_files k files)
unfolding load_env_files first_of_files
load_env_files-value k [] st = or_else-nil (st.0 k)
load_env_files-value k ((path, file) ∷ files) st =
    load_env_files-value k files (load_file path file st)
    ∙ ap (λ v. or_else v (first_of_files k files)) (load_file-value k path file st)
    ∙ or_else_assoc (st.0 k) (first_of_file k file) (first_of_files k files)
