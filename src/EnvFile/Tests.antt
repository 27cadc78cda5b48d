-- ===== src/EnvFile/Tests.antt =====
-- env.go and config.go at concrete files.
use opengrab.Prelude.{◌≡◌, refl, true, List, [], ◌∷◌, if◌then◌else◌}
use opengrab.Text.{
  Text, codes, text_eq, trim_space, trim_left, trim_right, is_space, trim_right_rune,
}
use opengrab.EnvFile.{
  Environment, EnvSource, lines, missing, load_env_files, load_file, load_lines, parse_line,
  cut_equals, trim_left_quotes, trim_right_quotes, configured, get_config,
}
use opengrab.EnvFile.Load.{or_else, first_of_files, load_env_files-value}

abbrev shell : Environment
shell k = if text_eq k (codes "ASCS_MODEL_NAME") then codes "small" else []

abbrev files : List (Text × EnvSource)
files =
    (codes ".env", missing)
    ∷ (
      codes "envfile",
      lines
          (codes "# settings"
            ∷ codes " ASCS_API_BASE_URL = \"http://host/\""
            ∷ codes "ASCS_MODEL_NAME=large"
            ∷ [])
          true true,
    )
    ∷ []

loads_what_is_unset :
    get_config (load_env_files files (shell, [])).0
    ≡ configured (record { api_base_url = codes "http://host"; model_name = codes "small" })
unfolding load_env_files load_file load_lines parse_line cut_equals trim_left_quotes
    trim_right_quotes get_config trim_space trim_left trim_right is_space trim_right_rune text_eq
loads_what_is_unset = refl

load_env_files-value_example :
    (load_env_files files (shell, [])).0 (codes "ASCS_MODEL_NAME")
    ≡ or_else (shell (codes "ASCS_MODEL_NAME")) (first_of_files (codes "ASCS_MODEL_NAME") files)
load_env_files-value_example = load_env_files-value (codes "ASCS_MODEL_NAME") files (shell, [])
