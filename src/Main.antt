-- ===== src/Main.antt =====
-- main.go: `main`, from the configuration to the last line of the terminal.
pub mod Recall
pub mod Sessions
pub mod Provenance
mod Tests
use opengrab.Prelude.{ℕ, Bool, true, false, List, [], ◌∷◌, ◌++◌, Option, none, some, if◌then◌else◌}
use opengrab.Text.{Text, codes, is_empty}
use opengrab.Run.{Command, Ran, RunError}
use opengrab.EnvFile.{
  Environment, EnvSource, load_env_files, AppConfig, ConfigError, Configured, configured, not_set,
  get_config,
}
use opengrab.Chat.{Api, ChatResult, reply, failed, create_chat_completion}
use opengrab.Session.{Round, Message, Role, system, Line, outer_loop}
use opengrab.Wiki.{FileSystem, Disk, Now, new_memory_store, init, context}
use opengrab.Wiki

-- How far `main` comes before its loop: it returns for the configuration or for `Agent.md`, or has
-- the messages and the files behind `Init`, whose error is a warning only.
pub data Opening : Type 0 where
  not_configured : ConfigError → Opening
  no_agent : Opening
  opened : AppConfig → List Message → Disk → Opening

-- `os.ReadFile`
abbrev pub read_file : FileSystem → Text → Disk → Option Text
read_file fs path disk = if fs.read_ok path then disk path else none

abbrev pub system_message : Text → Message
system_message content = record { role = system; content = content }

-- The messages, with the context of the memory if there is one.
abbrev pub opening_messages : Text → Text → List Message
opening_messages agent memory =
    if is_empty memory
    then system_message agent ∷ []
    else system_message agent ∷ system_message memory ∷ []

abbrev pub with_agent : FileSystem → AppConfig → Disk → Option Text → Opening
with_agent fs config disk none = no_agent
with_agent fs config disk (some agent) =
    let disk' = (init fs new_memory_store disk).0 in
    opened config (opening_messages agent (context fs new_memory_store disk')) disk'

abbrev pub with_config : FileSystem → Disk → Configured AppConfig → Opening
with_config fs disk (not_set e) = not_configured e
with_config fs disk (configured config) =
    with_agent fs config disk (read_file fs (codes "Agent.md") disk)

-- `loadEnvFiles(".env", "envfile")`, whose error is a warning only.
abbrev pub loaded : EnvSource → EnvSource → Environment → Environment
loaded dot_env envfile env =
    (load_env_files ((codes ".env", dot_env) ∷ (codes "envfile", envfile) ∷ []) (env, [])).0

-- `main` up to its loop.
unfoldable pub open_session : EnvSource → EnvSource → Environment → FileSystem → Disk → Opening
open_session dot_env envfile env fs disk =
    with_config fs disk (get_config (loaded dot_env envfile env))

-- The calls of `Remember` in their order, with the times of the calls; an error is a warning only.
-- Nothing that the loop does reads the files.
unfoldable pub remember_turns : FileSystem → List Now → List (Text × Text) → Disk → Disk
remember_turns fs [] turns disk = disk
remember_turns fs (now ∷ nows) [] disk = disk
remember_turns fs (now ∷ nows) ((input, answer) ∷ turns) disk =
    remember_turns fs nows turns (Wiki.remember fs new_memory_store now input answer disk).0

-- What the API, and the execution of a command, do in a round of the inner loop.
pub record Moment : Type 0 where
  pub api : Api
  pub exec : Command → Ran

-- A line of the terminal, with the rounds that it takes.
pub record Spoken : Type 0 where
  pub text : Text
  pub moments : List Moment

abbrev pub reply_text : ChatResult → Option Text
reply_text (reply s) = some s
reply_text (failed e) = none

-- The call of `createChatCompletion` in a round.
abbrev pub round_of : Environment → AppConfig → Moment → Round
round_of env config moment = record {
  ask = λ messages. reply_text (create_chat_completion moment.api env config messages);
  exec = moment.exec;
}

abbrev pub rounds_of : Environment → AppConfig → List Moment → List Round
rounds_of env config [] = []
rounds_of env config (moment ∷ moments) = round_of env config moment ∷ rounds_of env config moments

abbrev pub lines_of : Environment → AppConfig → List Spoken → List Line
lines_of env config [] = []
lines_of env config (spoken ∷ rest) =
    record { text = spoken.text; rounds = rounds_of env config spoken.moments }
    ∷ lines_of env config rest

-- Behind the opening: the messages and the files at the end.
abbrev pub run_loop :
    Text
    → (RunError → Text)
    → Environment
    → FileSystem
    → List Spoken
    → List Now
    → Disk
    → Opening
    → List Message × Disk
run_loop goos message env fs spoken nows disk (not_configured e) = ([], disk)
run_loop goos message env fs spoken nows disk no_agent = ([], disk)
run_loop goos message env fs spoken nows disk (opened config messages disk') =
    let (messages', turns) = outer_loop goos message (lines_of env config spoken) (messages, []) in
    (messages', remember_turns fs nows turns disk')

-- `main`
unfoldable pub run_main :
    Text
    → (RunError → Text)
    → EnvSource
    → EnvSource
    → Environment
    → FileSystem
    → List Spoken
    → List Now
    → Disk
    → List Message × Disk
run_main goos message dot_env envfile env fs spoken nows disk =
    run_loop goos message (loaded dot_env envfile env) fs spoken nows disk
      (open_session dot_env envfile env fs disk)
