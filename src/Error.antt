-- ===== src/Error.antt =====
-- tools/cmdrunner/cmdrunner.go: the package's errors, and results that may be one of them.
use opengrab.Text.{Text}

-- The package's error variables, and the errors that it makes with `errors.New` and `fmt.Errorf`.
pub data Error : Type 0 where
  empty_request : Error
  invalid_args_mode : Error
  invalid_shell_mode : Error
  empty_program : Error
  empty_shell_command : Error
  -- `invalid mode: %s`
  invalid_mode : Text → Error
  -- `ErrInvalidMode` wrapped, `%w: %q`
  wrapped_invalid_mode : Text → Error
  unsupported_mode : Text → Error
  unclosed_quote : Error

-- Go's pair of a value and an error, where the value counts only if the error is nil.
pub data Result {ℓ} (A : Type ℓ) : Type ℓ where
  ok : A → Result A
  err : Error → Result A
