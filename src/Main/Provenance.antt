-- ===== src/Main/Provenance.antt =====
-- Where the messages of a session come from.
use opengrab.Prelude.{◌≡◌, List}
use opengrab.Text.{Text}
use opengrab.Run.{RunError}
use opengrab.EnvFile.{Environment, AppConfig}
use opengrab.Chat.{Api, reply, create_chat_completion}
use opengrab.Session.{Message, user, assistant, say, Turn}

-- Messages that are the opening ones, questions, and replies that the API gave to the very messages
-- before them.
pub data Sourced (env : Environment) (config : AppConfig) (opening : List Message)
    : List Message → Type 0 where
  opening_only : Sourced env config opening opening
  asked :
      {ms : List Message}
      → Sourced env config opening ms
      → (content : Text) → Sourced env config opening (say user content ms)
  answered :
      {ms : List Message}
      → Sourced env config opening ms
      → (api : Api) (content : Text) → create_chat_completion api env config ms ≡ reply content
      → Sourced env config opening (say assistant content ms)

module _ (env : Environment) (config : AppConfig) (goos : Text) (message : RunError → Text)
    (opening : List Message) where
  abbrev Holds : Turn → Type 0
  Holds turn = Sourced env config opening turn.messages
