-- ===== src/Main/Sessions.antt =====
-- One session behind another: what the second one opens with.
use opengrab.Prelude.{List, [], ◌∷◌}
use opengrab.Text.{Text}
use opengrab.Wiki.{Now}
use opengrab.Wiki.Entries.{Conversation}

-- The turns of a session with the times at which they are remembered.
abbrev pub conversations : List Now → List (Text × Text) → List Conversation
conversations [] turns = []
conversations (now ∷ nows) [] = []
conversations (now ∷ nows) ((input, reply) ∷ turns) = (now, input, reply) ∷ conversations nows turns
