-- ===== src/Mode.antt =====
-- tools/cmdrunner/cmdrunner.go and supervisor.go: execution modes.
use mathlib.Core.List.{[]}
use opengrab.Text.{Text, codes}

-- `Mode` is a string: `unset` is "", and `other` any text but the three constants'.
pub data Mode : Type 0 where
  unset auto args shell : Mode
  other : Text → Mode

-- The string that a mode is.
abbrev pub mode_text : Mode → Text
mode_text unset = []
mode_text auto = codes "auto"
mode_text args = codes "args"
mode_text shell = codes "shell"
mode_text (other m) = m

-- `normalizeMode`, for processes: the default is `ModeArgs`.
abbrev pub normalize_mode : Mode → Mode
normalize_mode unset = args
normalize_mode mode = mode
