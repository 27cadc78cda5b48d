-- ===== src/Request/Choice.antt =====
-- `NormalizeRequest`: how the mode is chosen, and which requests are refused.
use opengrab.Prelude.{◌≡◌, refl, Bool, true, false, not, ◌&&◌, List, [], arith, ◌⊎◌, inl, inr, ◌↔◌}
use opengrab.Text.{Text, is_blank, trim_space, to_lower}
use opengrab.Error.{Error, Result, ok, err}
use opengrab.CmdLine.{is_builtin, join_command_quoting, needs_quotes}
use opengrab.CmdLine.Quoting.{IsWord, AllWords, split-join_command_quoting}
use opengrab.CmdLine.Meta.{
  is_harmless, AllShielded, needs_shell-join_command_quoting, join_command_quoting-ne-nil,
}
use opengrab.Mode.{Mode, unset, auto, args, shell, other}
use opengrab.Request.{
  Request, is_empty_request, choose_reason, normalize_auto, normalize_by_mode, normalize_request,
  args_request, why_simple,
}
use opengrab.Request.Normal.{IsNormal, with_args, with_shell, normalize_request-Normalized}

-- The command of an `auto` request, as `NormalizeRequest` reads it.
abbrev pub auto_command : Request → Text
auto_command req = trim_space req.command

-- Whether a request names what its mode is to run.
abbrev pub names_work : Mode → Request → Bool
names_work unset req =
    not (is_blank req.program && is_blank req.shell_command && is_blank req.command)
names_work auto req =
    not (is_blank req.program && is_blank req.shell_command && is_blank req.command)
names_work args req = not (is_blank req.program)
names_work shell req = not (is_blank req.shell_command)
names_work (other m) req = false

normalize_by_mode_refuses :
    (goos : Text) (req : Request) (mode : Mode) (r : Result (Mode × Request))
    → req.mode ≡ mode
    → normalize_request goos req ≡ r
    → ((e : Error) × (r ≡ err e)) ↔ (names_work mode req ≡ false)
unfolding normalize_request normalize_by_mode normalize_auto is_empty_request
normalize_by_mode_refuses goos req unset (ok x) m h = ground arith
normalize_by_mode_refuses goos req auto (ok x) m h = ground arith
normalize_by_mode_refuses goos req args (ok x) m h = ground arith
normalize_by_mode_refuses goos req shell (ok x) m h = ground arith
normalize_by_mode_refuses goos req (other t) (ok x) m h = ground arith
normalize_by_mode_refuses goos req unset (err e) m h = (λ _. ground arith, λ _. (e, refl))
normalize_by_mode_refuses goos req auto (err e) m h = (λ _. ground arith, λ _. (e, refl))
normalize_by_mode_refuses goos req args (err e) m h = (λ _. ground arith, λ _. (e, refl))
normalize_by_mode_refuses goos req shell (err e) m h = (λ _. ground arith, λ _. (e, refl))
normalize_by_mode_refuses goos req (other t) (err e) m h = (λ _. ground arith, λ _. (e, refl))

-- A request is refused exactly when its fields name nothing that its mode runs, or the mode is
-- unknown; any other is normalised.
pub normalize_request_refuses_iff :
    (goos : Text) (req : Request)
    → ((e : Error) × (normalize_request goos req ≡ err e)) ↔ (names_work req.mode req ≡ false)
normalize_request_refuses_iff goos req =
    normalize_by_mode_refuses goos req req.mode (normalize_request goos req) refl refl

again-args :
    (goos : Text) (req : Request)
    → req.mode ≡ args
    → req.shell_command ≡ []
    → req.command ≡ []
    → is_blank req.program ≡ false
    → normalize_request goos req ≡ ok (args, req)
unfolding normalize_request normalize_by_mode is_empty_request
again-args goos req m s c b = ground arith

again-shell :
    (goos : Text) (req : Request)
    → req.mode ≡ shell
    → is_blank req.shell_command ≡ false
    → req.program ≡ []
    → req.args ≡ []
    → req.command ≡ []
    → normalize_request goos req ≡ ok (shell, req)
unfolding normalize_request normalize_by_mode is_empty_request
again-shell goos req m b p a c = ground arith

IsNormal-again :
    (goos : Text) (req : Request) {mode : Mode}
    → IsNormal req mode
    → (mode ≡ shell) ⊎ (is_blank req.program ≡ false)
    → normalize_request goos req ≡ ok (mode, req)
IsNormal-again goos req (with_args m p s c) (inl e) = cc
IsNormal-again goos req (with_args m p s c) (inr b) = again-args goos req m s c b
IsNormal-again goos req (with_shell m b p a c) _ = again-shell goos req m b p a c

-- Normalising is done once and for all: a normalised request that goes to the shell, or whose
-- program is not blank, is normalised to itself.
pub normalize_request_again :
    (goos : Text) (req : Request) {mode : Mode} {after : Request}
    → normalize_request goos req ≡ ok (mode, after)
    → (mode ≡ shell) ⊎ (is_blank after.program ≡ false)
    → normalize_request goos after ≡ ok (mode, after)
normalize_request_again goos req {after} h s =
    IsNormal-again goos after (normalize_request-Normalized goos req h).normal s

-- A command that `joinCommand` made comes back from an `auto` request as the very program and
-- arguments that it was made of, for `args` mode and not for a shell: if the program is no shell
-- builtin and holds nothing that is quoted or special, each argument is not empty, holds no
-- backslash and nothing special outside quotes, and no white space stands at the command's ends.
pub normalize_request-join_command_quoting :
    (goos : Text) (req : Request) (program : Text) (arguments : List Text)
    → req.mode ≡ auto
    → is_blank req.program ≡ true
    → is_blank req.shell_command ≡ true
    → req.command ≡ join_command_quoting program arguments
    → trim_space req.command ≡ req.command
    → IsWord program
    → needs_quotes program ≡ false
    → is_harmless program ≡ true
    → is_builtin goos (to_lower program) ≡ false
    → AllWords arguments
    → AllShielded arguments
    → normalize_request goos req
      ≡ ok (args, args_request req program arguments (choose_reason req.reason why_simple))
unfolding normalize_request normalize_by_mode normalize_auto is_empty_request
normalize_request-join_command_quoting goos req program arguments m p s c t w q h b ws ss = ground (
  arith,
  split-join_command_quoting program arguments w q ws,
  needs_shell-join_command_quoting goos program arguments req.command c t w q h b ws ss,
  join_command_quoting-ne-nil program arguments w.0,
)
