-- ===== src/Tool/Guide.antt =====
-- `ToolUsageGuide`: the shell syntax that it names is what takes a command to the shell.
use opengrab.Prelude.{Bool, not, ◌&&◌}
use opengrab.Text.{Text, codes}
use opengrab.Request.{Request}
use opengrab.CmdLine.{Quotes}

-- The runes of the guide's list: redirection, pipelines, chaining, wildcards and variables.
abbrev pub guide_runes : Text
guide_runes = codes "><|&*?$"

abbrev pub is_outside : Quotes → Bool
is_outside q = not q.escaped && not q.in_single && not q.in_double
