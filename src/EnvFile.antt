-- ===== src/EnvFile.antt =====
-- env.go and config.go: the environment that is read from files, and the configuration.
mod Tests
pub mod Load
use opengrab.Prelude.{
  ℕ, Bool, true, false, not, ◌&&◌, ◌||◌, List, [], ◌∷◌, ◌++◌, Option, none, some, ◌==◌,
  if◌then◌else◌,
}
use opengrab.Text.{Text, codes, is_empty, text_eq, trim_space, has_rune, trim_right_rune}

-- `os.Getenv`: "" for a variable that is unset or empty.
abbrev pub Environment : Type 0
Environment = Text → Text

abbrev pub set_variable : Text → Text → Environment → Environment
set_variable key value env k = if text_eq key k then value else env k

-- `strings.Cut(line, "=")`, with none where there is no separator.
unfoldable pub cut_equals : Text → Option (Text × Text)
cut_equals [] = none
cut_equals (c ∷ s) =
    if c == b'='
    then some ([], s)
    else elim (cut_equals s) [ none ↦ none | some (before, after) ↦ some (c ∷ before, after) ]

abbrev pub is_quote : ℕ → Bool
is_quote c = c == b'"' || c == b'\''

-- `strings.Trim(value, cutset)` for the two quotes.
unfoldable pub trim_left_quotes : Text → Text
trim_left_quotes [] = []
trim_left_quotes (c ∷ s) = if is_quote c then trim_left_quotes s else c ∷ s

abbrev pub push_unless_quote : ℕ → Text → Text
push_unless_quote c [] = if is_quote c then [] else c ∷ []
push_unless_quote c (d ∷ s) = c ∷ d ∷ s

unfoldable pub trim_right_quotes : Text → Text
trim_right_quotes [] = []
trim_right_quotes (c ∷ s) = push_unless_quote c (trim_right_quotes s)

abbrev pub is_comment : Text → Bool
is_comment [] = false
is_comment (c ∷ s) = c == b'#'

abbrev pub key_and_value : Option (Text × Text) → Option (Text × Text)
key_and_value none = none
key_and_value (some (key, value)) =
    let k = trim_space key in
    if is_empty k then none else some (k, trim_right_quotes (trim_left_quotes (trim_space value)))

-- The key and the value of a line; none for a line that the loop skips whatever is set.
unfoldable pub parse_line : Text → Option (Text × Text)
parse_line text =
    let line = trim_space text in
    if is_empty line || is_comment line then none else key_and_value (cut_equals line)

-- `os.Setenv` of a key that is not empty and has no `=`: it refuses a zero byte.
abbrev pub can_set : Text → Text → Bool
can_set key value = not (has_rune key 0) && not (has_rune value 0)

-- The environment and the keys or paths with an error, in their order.
abbrev pub set_if_unset : Text → Text → Environment × List Text → Environment × List Text
set_if_unset key value (env, errs) =
    if not (is_empty (env key))
    then (env, errs)
    else if can_set key value
    then (set_variable key value env, errs)
    else (env, errs ++ key ∷ [])

abbrev pub load_parsed : Option (Text × Text) → Environment × List Text → Environment × List Text
load_parsed none st = st
load_parsed (some (key, value)) st = set_if_unset key value st

-- The loop over the lines of a file.
unfoldable pub load_lines : List Text → Environment × List Text → Environment × List Text
load_lines [] st = st
load_lines (l ∷ ls) st = load_lines ls (load_parsed (parse_line l) st)

-- A file, as the source meets it: missing, not to be opened, or the lines that its `bufio.Scanner`
-- yields, with whether the scanner ends without an error and the file closes.
pub data EnvSource : Type 0 where
  missing : EnvSource
  refused : EnvSource
  lines : List Text → Bool → Bool → EnvSource

abbrev pub note_unless : Bool → Text → Environment × List Text → Environment × List Text
note_unless good path (env, errs) = (env, if good then errs else errs ++ path ∷ [])

-- A round of the outer loop of `loadEnvFiles`.
unfoldable pub load_file : Text → EnvSource → Environment × List Text → Environment × List Text
load_file path missing st = st
load_file path refused st = note_unless false path st
load_file path (lines ls scan_ok close_ok) st =
    note_unless close_ok path (note_unless scan_ok path (load_lines ls st))

-- `loadEnvFiles`: there is an error exactly if the list behind it is not empty.
unfoldable pub load_env_files :
    List (Text × EnvSource) → Environment × List Text → Environment × List Text
load_env_files [] st = st
load_env_files ((path, file) ∷ files) st = load_env_files files (load_file path file st)

-- `AppConfig`
pub record AppConfig : Type 0 where
  pub api_base_url : Text
  pub model_name : Text

pub data ConfigError : Type 0 where
  no_base_url no_model_name no_token : ConfigError

pub data Configured (A : Type 0) : Type 0 where
  configured : A → Configured A
  not_set : ConfigError → Configured A

-- `getConfig`
unfoldable pub get_config : Environment → Configured AppConfig
get_config env =
    let url = trim_right_rune (trim_space (env (codes "ASCS_API_BASE_URL"))) b'/' in
    let model = trim_space (env (codes "ASCS_MODEL_NAME")) in
    if is_empty url
    then not_set no_base_url
    else if is_empty model
    then not_set no_model_name
    else configured (record { api_base_url = url; model_name = model })

-- `getToken`
unfoldable pub get_token : Environment → Configured Text
get_token env =
    let token = trim_space (env (codes "ASCS_API_TOKEN")) in
    if is_empty token then not_set no_token else configured token
