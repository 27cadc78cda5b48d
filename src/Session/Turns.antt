-- ===== src/Session/Turns.antt =====
-- The messages of a session: who speaks when.
use opengrab.Prelude.{◌≡◌, Bool, true, false, List, [], ◌∷◌, if◌then◌else◌}
use opengrab.Text.{Text}
use opengrab.Run.{RunError}
use opengrab.Session.{
  user, assistant, Message, say, Ending, answered, failed, unfinished, inner_loop, Line,
}

-- The messages that the system gave, then questions and answers in turn; the Boolean says whether
-- the last question waits for its answer.
pub data Conversation (opening : List Message) : List Message → Bool → Type 0 where
  opened : Conversation opening opening false
  asked :
      {ms : List Message}
      → Conversation opening ms false
      → (content : Text) → Conversation opening (say user content ms) true
  replied_to :
      {ms : List Message}
      → Conversation opening ms true
      → (content : Text) → Conversation opening (say assistant content ms) false

-- Whether a question waits behind the inner loop.
abbrev pub is_waiting : Ending → Bool
is_waiting answered = false
is_waiting failed = true
is_waiting unfinished = true

pub both_branches {ℓ} :
    {A : Type ℓ} (P : A → Type 0) (b : Bool) (x y : A) → P x → P y → P (if b then x else y)
both_branches P true x y px py = px
both_branches P false x y px py = py

-- A line of which the inner loop ends in an answer, whatever the messages before.
abbrev pub IsAnswered : Text → (RunError → Text) → Line → Type 0
IsAnswered goos message line =
    (ms : List Message) (last : Text)
    → (inner_loop goos message line.rounds ms last).ending ≡ answered

abbrev pub AllLinesAnswered : Text → (RunError → Text) → List Line → Type 0
AllLinesAnswered goos message [] = Unit
AllLinesAnswered goos message (line ∷ lines) =
    IsAnswered goos message line × AllLinesAnswered goos message lines
