-- ===== src/Tool/Schema.antt =====
-- What the schema promises to `NormalizeRequest`, and what it leaves open.
use opengrab.Prelude.{
  ◌≡◌, ◌↔◌, ◌⊎◌, inl, inr, refl, Bool, true, not, ◌&&◌, Option, none, some, arith, if◌then◌else◌,
}
use opengrab.Text.{Text, codes, is_blank, text_eq, text_eq→eq}
use opengrab.Error.{Error, err}
use opengrab.Request.{normalize_request}
use opengrab.Request.Choice.{names_work, normalize_request_refuses_iff}
use opengrab.Tool.{
  Arguments, is_args_mode, is_shell_mode, is_auto_mode, is_valid, mode_of_text, or_empty,
  decode_request,
}

-- The text of a property that is there.
abbrev pub IsBlankText : Option Text → Type 0
IsBlankText t = is_blank (or_empty t) ≡ true

-- Whether the texts that the mode of an object runs are all blank.
unfoldable pub runs_blank : Arguments → Bool
runs_blank a =
    if is_args_mode a
    then is_blank (or_empty a.program)
    else if is_shell_mode a
    then is_blank (or_empty a.shell_command)
    else is_blank (or_empty a.program)
      && is_blank (or_empty a.shell_command)
      && is_blank (or_empty a.command)

-- The mode of a valid object.
known_mode :
    (a : Arguments) (m : Option Text)
    → a.mode ≡ m
    → is_valid a ≡ true
    → (m ≡ some (codes "args")) ⊎ ((m ≡ some (codes "shell")) ⊎ (m ≡ some (codes "auto")))
unfolding is_valid is_args_mode is_shell_mode is_auto_mode
known_mode a none e h = ground arith
known_mode a (some s) e h =
    ground (
      arith,
      text_eq→eq s (codes "args"),
      text_eq→eq s (codes "shell"),
      text_eq→eq s (codes "auto"),
    )

names_work-args :
    (a : Arguments)
    → a.mode ≡ some (codes "args")
    → is_valid a ≡ true
    → names_work (decode_request a).mode (decode_request a) ≡ not (runs_blank a)
unfolding decode_request mode_of_text is_valid is_args_mode is_shell_mode is_auto_mode runs_blank
    text_eq
names_work-args a m h = ground arith

names_work-shell :
    (a : Arguments)
    → a.mode ≡ some (codes "shell")
    → is_valid a ≡ true
    → names_work (decode_request a).mode (decode_request a) ≡ not (runs_blank a)
unfolding decode_request mode_of_text is_valid is_args_mode is_shell_mode is_auto_mode runs_blank
    text_eq
names_work-shell a m h = ground arith

names_work-auto :
    (a : Arguments)
    → a.mode ≡ some (codes "auto")
    → names_work (decode_request a).mode (decode_request a) ≡ not (runs_blank a)
unfolding decode_request mode_of_text is_args_mode is_shell_mode is_auto_mode runs_blank text_eq
names_work-auto a m = ground arith

names_work_valid :
    (a : Arguments)
    → is_valid a ≡ true
    → names_work (decode_request a).mode (decode_request a) ≡ not (runs_blank a)
names_work_valid a h = elim (known_mode a a.mode refl h) [
  | inl m ↦ names_work-args a m h
  | inr (inl m) ↦ names_work-shell a m h
  | inr (inr m) ↦ names_work-auto a m
]

-- A request that the schema accepts is refused exactly if the texts that its mode runs are blank:
-- the program, the shell command, or for `auto` these and the command.
pub is_valid-refused_iff :
    (goos : Text) (a : Arguments)
    → is_valid a ≡ true
    → ((e : Error) × (normalize_request goos (decode_request a) ≡ err e)) ↔ (runs_blank a ≡ true)
is_valid-refused_iff goos a h =
    let refused = normalize_request_refuses_iff goos (decode_request a) in
    let works = names_work_valid a h in
    (λ e. ground (arith, works, refused.0 e), λ b. refused.1 (ground (arith, works)))
