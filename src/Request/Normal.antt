-- ===== src/Request/Normal.antt =====
-- `NormalizeRequest`: what a normalised request looks like, and how the mode is chosen.
use mathlib.Core.Path.{subst}
use opengrab.Prelude.{◌≡◌, ◌≢◌, refl, false, List, [], inl, inr, Bool-cases}
use opengrab.Text.{Text, is_empty, is_blank, trim_space, trim_left, trim_right, trim_space_idem}
use opengrab.Error.{Result, ok, err}
use opengrab.CmdLine.{needs_shell, split_command_line}
use opengrab.CmdLine.Split.{split_keeps}
use opengrab.Mode.{Mode, unset, auto, args, shell, other}
use opengrab.Request.{
  Request, is_empty_request, choose_reason, normalize_auto, normalize_by_mode, normalize_request,
  args_request, shell_request, split_or_shell,
}

-- A request that can be run: `args` with a program, or `shell` with a command that is not blank,
-- and nothing in the fields that its mode does not use.
pub data IsNormal (req : Request) : Mode → Type 0 where
  with_args :
      req.mode ≡ args
      → req.program ≢ []
      → req.shell_command ≡ []
      → req.command ≡ []
      → IsNormal req args
  with_shell :
      req.mode ≡ shell
      → is_blank req.shell_command ≡ false
      → req.program ≡ []
      → req.args ≡ []
      → req.command ≡ []
      → IsNormal req shell

-- What every branch of `NormalizeRequest` that succeeds guarantees.
pub record Normalized (before : Request) (mode : Mode) (after : Request) : Type 0 where
  pub normal : IsNormal after mode
  pub same_dir : after.dir ≡ before.dir
  pub kept_reason : is_blank before.reason ≡ false → after.reason ≡ before.reason

-- `P` holds of the value if there is one.
abbrev Ensures : (Mode × Request → Type 0) → Result (Mode × Request) → Type 0
Ensures P (ok x) = P x
Ensures P (err e) = Unit

not_blank-ne : (s : Text) → is_blank s ≡ false → s ≢ []
unfolding trim_space trim_left trim_right
not_blank-ne s h e = cc

choose_reason_keeps :
    (current fallback : Text) → is_blank current ≡ false → choose_reason current fallback ≡ current
unfolding choose_reason
choose_reason_keeps current fallback h = rw h

module _ (req : Request) (reason : Text)
    (kept : is_blank req.reason ≡ false → reason ≡ req.reason) where
  args_request-Normalized :
      (program : Text) (args' : List Text)
      → program ≢ []
      → Normalized req args (args_request req program args' reason)
  args_request-Normalized program args' h = record {
    normal = with_args refl h refl refl;
    same_dir = refl;
    kept_reason = kept;
  }

  shell_request-Normalized :
      (command : Text)
      → is_blank command ≡ false
      → Normalized req shell (shell_request req command reason)
  shell_request-Normalized command h = record {
    normal = with_shell refl h refl refl refl;
    same_dir = refl;
    kept_reason = kept;
  }

split_or_shell-Normalized :
    (req : Request) (cmd : Text)
    → is_blank cmd ≡ false
    → (r : Result (Text × List Text)) → split_command_line cmd ≡ r
    → let (mode, after) = split_or_shell req cmd r in Normalized req mode after
split_or_shell-Normalized req cmd h (ok (p, ps)) e =
    args_request-Normalized req _ (choose_reason_keeps req.reason _) p ps (split_keeps cmd e).0.0
split_or_shell-Normalized req cmd h (err e') e =
    shell_request-Normalized req _ (choose_reason_keeps req.reason _) cmd h

trim_space-not_blank :
    (s : Text) → is_empty (trim_space s) ≡ false → is_blank (trim_space s) ≡ false
trim_space-not_blank s h = rw trim_space_idem h

normalize_auto-Normalized :
    (goos : Text) (req : Request) → Ensures (λ x. Normalized req x.0 x.1) (normalize_auto goos req)
unfolding normalize_auto
normalize_auto-Normalized goos req =
    let cmd = trim_space req.command in
    let keeps = choose_reason_keeps req.reason in
    elim (Bool-cases (is_blank req.program)) [
      | inr given ↦
          rw given
            (args_request-Normalized req _ (keeps _) req.program req.args (not_blank-ne _ given))
      | inl no_program ↦ rw no_program (elim (Bool-cases (is_blank req.shell_command)) [
        | inr given ↦ rw given (shell_request-Normalized req _ (keeps _) req.shell_command given)
        | inl no_shell_command ↦ rw no_shell_command (elim (Bool-cases (is_empty cmd)) [
          | inl nothing ↦ rw nothing tt
          | inr given ↦
              let blank = trim_space-not_blank req.command given in
              rw given (elim (Bool-cases (needs_shell cmd goos)) [
                | inl needed ↦ rw needed (shell_request-Normalized req _ (keeps _) cmd blank)
                | inr simple ↦
                    rw simple
                      (split_or_shell-Normalized req cmd blank (split_command_line cmd) refl)
              ])
        ])
      ])
    ]

normalize_by_mode-Normalized :
    (goos : Text) (req : Request) (mode : Mode)
    → Ensures (λ x. Normalized req x.0 x.1) (normalize_by_mode goos mode req)
unfolding normalize_by_mode
normalize_by_mode-Normalized goos req unset = normalize_auto-Normalized goos req
normalize_by_mode-Normalized goos req auto = normalize_auto-Normalized goos req
normalize_by_mode-Normalized goos req args = elim (Bool-cases (is_blank req.program)) [
  | inl no_program ↦ rw no_program tt
  | inr given ↦
      rw given
        (args_request-Normalized req _ (λ _. refl) req.program req.args (not_blank-ne _ given))
]
normalize_by_mode-Normalized goos req shell = elim (Bool-cases (is_blank req.shell_command)) [
  | inl nothing ↦ rw nothing tt
  | inr given ↦ rw given (shell_request-Normalized req _ (λ _. refl) req.shell_command given)
]
normalize_by_mode-Normalized goos req (other m) = tt

normalize_request-Ensures :
    (goos : Text) (req : Request)
    → Ensures (λ x. Normalized req x.0 x.1) (normalize_request goos req)
unfolding normalize_request
normalize_request-Ensures goos req = elim (Bool-cases (is_empty_request req)) [
  | inl nothing ↦ rw nothing tt
  | inr something ↦ rw something (normalize_by_mode-Normalized goos req req.mode)
]

-- Whatever request is accepted, in whatever mode, comes back in `args` mode with a program or in
-- `shell` mode with a command that is not blank, its other fields empty, its directory as it was,
-- and its reason as it was if that was not blank.
pub normalize_request-Normalized :
    (goos : Text) (req : Request) {mode : Mode} {after : Request}
    → normalize_request goos req ≡ ok (mode, after)
    → Normalized req mode after
normalize_request-Normalized goos req h =
    subst (Ensures (λ x. Normalized req x.0 x.1)) h (normalize_request-Ensures goos req)
