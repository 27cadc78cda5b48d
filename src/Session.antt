-- ===== src/Session.antt =====
-- main.go and command.go: the conversation with the model, and the commands that it asks for.
pub mod Turns
mod Tests
use opengrab.Prelude.{
  ℕ, ◌+◌, Bool, true, false, not, ◌&&◌, ◌||◌, List, [], ◌∷◌, ◌++◌, map, Option, none, some, leb,
  ◌==◌, if◌then◌else◌,
}
use opengrab.Text.{Text, codes, is_empty, text_eq, trim_space, has_prefix}
use opengrab.Mode.{auto}
use opengrab.Request.{Request}
use opengrab.Run.{ExecError, Command, Ran, RunResult, RunError, run}

pub data Role : Type 0 where
  system user assistant : Role

-- `Message`
pub record Message : Type 0 where
  pub role : Role
  pub content : Text

-- The `Request` of `runCommand`.
abbrev pub command_request : Text → Request
command_request command = record {
  mode = auto;
  program = [];
  args = [];
  shell_command = [];
  command = command;
  dir = [];
  reason = [];
}

-- What the model is told; `message` is the text of an error.
abbrev pub told : (RunError → Text) → RunResult × Option RunError → Text
told message (result, none) = result.stdout
told message (result, some e) =
    codes "command error: "
    ++ (message e
        ++ (codes "\nstdout: " ++ (result.stdout ++ (codes "\nstderr: " ++ result.stderr))))

-- `runCommand`
unfoldable pub run_command : Text → (RunError → Text) → (Command → Ran) → Text → Text
run_command goos message exec command = told message (run goos exec (command_request command))

-- `strings.SplitN(s, ":", 2)`, of which the second part is used; none if there is no colon.
unfoldable pub after_colon : Text → Option Text
after_colon [] = none
after_colon (c ∷ s) = if c == b':' then some s else after_colon s

-- The command that a trimmed reply asks for.
unfoldable pub command_of_reply : Text → Option Text
command_of_reply reply =
    if has_prefix reply (codes "命令")
    then elim (after_colon reply) [ none ↦ none | some rest ↦ some (trim_space rest) ]
    else none

-- A round of the inner loop: what `createChatCompletion` returns for the messages, none for an error,
-- and what the execution of a command would do.
pub record Round : Type 0 where
  pub ask : List Message → Option Text
  pub exec : Command → Ran

-- How the inner loop ends; `unfinished` is one that waits for its next answer.
pub data Ending : Type 0 where
  answered failed unfinished : Ending

-- A line of the terminal, with the rounds that it takes.
pub record Line : Type 0 where
  pub text : Text
  pub rounds : List Round

-- The messages, `lastReply`, and the ending.
pub record Turn : Type 0 where
  pub messages : List Message
  pub last_reply : Text
  pub ending : Ending

abbrev pub say : Role → Text → List Message → List Message
say role content messages = messages ++ record { role = role; content = content } ∷ []

-- `strings.EqualFold` with a text that has no capital, no `k` and no `s`.
abbrev pub equal_fold : Text → Text → Bool
equal_fold s t = text_eq (map (λ c. if leb b'A' c && leb c b'Z' then c + 32 else c) s) t

-- `memory.Remember(userInput, lastReply)`, if there is a reply.
abbrev pub remember : Text → Text → List (Text × Text) → List (Text × Text)
remember input reply remembered =
    if is_empty reply then remembered else remembered ++ (input, reply) ∷ []

-- What follows if there is a reply, or a command in it.
abbrev pub go_on : Option Text → (Text → Turn) → Turn → Turn
go_on none next stop = stop
go_on (some command) next stop = next command

module _ (goos : Text) (message : RunError → Text) where
  -- The inner loop, for the answers of the API in their order.
  unfoldable pub inner_loop : List Round → List Message → Text → Turn
  inner_loop [] messages last = record {
    messages = messages;
    last_reply = last;
    ending = unfinished;
  }
  inner_loop (round ∷ rounds) messages last =
      go_on (round.ask messages)
        (λ reply.
          let trimmed = trim_space reply in
          let messages' = say assistant reply messages in
          go_on (command_of_reply trimmed)
            (λ command.
              inner_loop rounds (say user (run_command goos message round.exec command) messages')
                trimmed)
            (record { messages = messages'; last_reply = trimmed; ending = answered }))
        (record { messages = messages; last_reply = last; ending = failed })

  -- The outer loop: the messages, and the calls of `memory.Remember`.
  unfoldable pub outer_loop :
      List Line → List Message × List (Text × Text) → List Message × List (Text × Text)
  outer_loop [] st = st
  outer_loop (line ∷ lines) (messages, remembered) =
      let input = trim_space line.text in
      let turn = inner_loop line.rounds (say user input messages) [] in
      if is_empty input
      then outer_loop lines (messages, remembered)
      else if equal_fold input (codes "exit")
      then (messages, remembered)
      else if equal_fold input (codes "/memory")
      then outer_loop lines (messages, remembered)
      else outer_loop lines (turn.messages, remember input turn.last_reply remembered)
