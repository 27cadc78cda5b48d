-- ===== src/Command/Build.antt =====
-- `buildCommand`: which options it accepts, and what it makes of them.
use opengrab.Prelude.{◌≡◌, ◌↔◌, refl, false, List, [], ◌∷◌, ◌++◌, arith}
use opengrab.Text.{Text}
use opengrab.Mode.{args, shell, normalize_mode}
use opengrab.Error.{Result, ok, err}
use opengrab.CmdLine.{needs_quotes, split_command_line}
use opengrab.CmdLine.Quoting.{IsWord, AllWords, split-join_command_quoting}
use opengrab.Run.{RunResult, platform_shell}
use opengrab.Command.{Options, validate_mode, validate_options, Cmd, build_mode, build_command}

module _ (goos : Text) (environ : List Text) where
  build_command-cases :
      (opts : Options) (r : Result (Cmd × RunResult))
      → build_command goos environ opts ≡ r
      → ((x : Cmd × RunResult) × (r ≡ ok x)) ↔ (validate_options opts ≡ ok tt)
  unfolding build_command validate_options validate_mode build_mode
  build_command-cases opts (ok x) h = (λ _. ground arith, λ _. (x, refl))
  build_command-cases opts (err e) h = (λ s. cc (s.1), λ valid. ground arith)

  -- A command is built exactly from the options that `validateOptions` accepts.
  pub build_command_iff :
      (opts : Options)
      → ((x : Cmd × RunResult) × (build_command goos environ opts ≡ ok x))
        ↔ (validate_options opts ≡ ok tt)
  build_command_iff opts = build_command-cases opts (build_command goos environ opts) refl

  -- What a command and its result say of the options they are made of.
  pub record Built (opts : Options) (cmd : Cmd) (base : RunResult) : Type 0 where
    pub mode_is : base.mode ≡ normalize_mode opts.mode
    pub program_is : base.program ≡ cmd.program
    pub args_are : base.args ≡ cmd.args
    pub dir_is : cmd.dir ≡ opts.dir
    pub stdin_is : cmd.stdin ≡ opts.stdin
    pub in_args_mode :
        normalize_mode opts.mode ≡ args
        → (cmd.program ≡ opts.program) × (cmd.args ≡ opts.args) × (base.shell ≡ [])
    pub in_shell_mode :
        normalize_mode opts.mode ≡ shell
        → (cmd.program ≡ (platform_shell goos).0)
          × (cmd.args ≡ (platform_shell goos).1 ++ opts.shell_command ∷ [])
          × (base.command ≡ opts.shell_command)

  -- The result says what the command runs, in the mode that the options ask for.
  pub build_command-Built :
      (opts : Options) {cmd : Cmd} {base : RunResult}
      → build_command goos environ opts ≡ ok (cmd, base)
      → Built opts cmd base
  unfolding build_command validate_options validate_mode build_mode
  build_command-Built opts h = ground arith

  -- The command line that is reported for `args` mode splits back into what is run, if no word is
  -- empty or holds a backslash and the program needs no quotes.
  pub split-build_command :
      (opts : Options) {cmd : Cmd} {base : RunResult}
      → build_command goos environ opts ≡ ok (cmd, base)
      → normalize_mode opts.mode ≡ args
      → IsWord opts.program
      → needs_quotes opts.program ≡ false
      → AllWords opts.args
      → split_command_line base.command ≡ ok (cmd.program, cmd.args)
  unfolding build_command validate_options validate_mode build_mode
  split-build_command opts h m w q ws =
      ground (arith, split-join_command_quoting opts.program opts.args w q ws)
