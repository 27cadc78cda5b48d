-- ===== src/Session/Tests.antt =====
-- A session of one line, in which the model asks for a command.
use opengrab.Prelude.{◌≡◌, refl, List, [], ◌∷◌, none, some}
use opengrab.Text.{Text, codes, trim_space, trim_left, trim_right, is_space, text_eq}
use opengrab.Run.{Command, Ran, RunError}
use opengrab.Session.{system, user, Message, say, Round, inner_loop, Line, outer_loop}

abbrev prints : Command → Ran
prints c = record { stdout = c.program; stderr = []; error = none }

abbrev no_text : RunError → Text
no_text e = []

abbrev replied : Text → Round
replied reply = record { ask = λ ms. some reply; exec = prints }

abbrev api_error : Round
api_error = record { ask = λ ms. none; exec = prints }

abbrev opening : List Message
opening = say system (codes "You are an agent.") []

abbrev lines : List Line
lines =
    record {
      text = codes "what is here?";
      rounds = replied (codes "命令: ls") ∷ replied (codes "A file.") ∷ [];
    }
    ∷ []

-- Behind an error of the API the next question follows a question.
question_behind_question :
    (outer_loop
      (codes "linux")
      no_text
      (record { text = codes "a"; rounds = api_error ∷ [] }
        ∷ record { text = codes "b"; rounds = api_error ∷ [] }
        ∷ [])
      ([], [])).0
    ≡ say user (codes "b") (say user (codes "a") [])
unfolding outer_loop inner_loop trim_space trim_left trim_right is_space text_eq
question_behind_question = refl
