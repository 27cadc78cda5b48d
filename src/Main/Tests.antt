-- ===== src/Main/Tests.antt =====
-- The opening of a session with concrete files.
use opengrab.Prelude.{
  ◌≡◌, ℕ, zero, suc, refl, true, false, List, [], ◌∷◌, ◌++◌, none, some, if◌then◌else◌,
}
use opengrab.Text.{
  Text, codes, text_eq, trim_space, trim_left, trim_right, is_space, has_prefix, width, byte_length,
  trim_right_rune, split, split_from, fields, fields_from, join, to_lower, lower_rune,
  trim_left_rune,
}
use opengrab.Memory.{slugify, replace_others}
use opengrab.Excerpt.{first_of, first_line, one_line}
use opengrab.EnvFile.{Environment, EnvSource, lines, missing, AppConfig}
use opengrab.Wiki.{
  complete, FileSystem, Disk, Now, new_memory_store, init, default_memory_log, log_body, page_name,
}
use opengrab.Wiki.Entries.{Conversation}
use opengrab.Main.{Spoken, loaded, run_main}
use opengrab.Wiki.Pages.{with_log, with_page}
use opengrab.Run.{Command, Ran, RunError}
use opengrab.Chat.{Api}

abbrev writable : FileSystem
writable = record {
  mkdir_ok = λ p. true;
  stat_ok = λ p. true;
  read_ok = λ p. true;
  write = λ p. complete;
  append = λ p. complete;
}

abbrev files : Disk
files = λ p.
    if text_eq new_memory_store.log_path p
    then some default_memory_log
    else if text_eq (codes "Agent.md") p
    then some (codes "Help.")
    else none

abbrev noon : Now
noon = record {
  stamp = codes "20240102-120000";
  rfc_3339 = codes "2024-01-02T12:00:00Z";
  log_time = codes "2024-01-02 12:00:00";
}

abbrev talk : Conversation
talk = (noon, codes "hi", codes "hello")

abbrev talks : ℕ → List Conversation
talks zero = []
talks (suc n) = talk ∷ talks n

abbrev twenty : List Conversation
twenty = talks 20

abbrev all : List Conversation
all = (talk ∷ []) ++ twenty

body :
    log_body noon (codes "hi")
    ≡ codes
        "2024-01-02 12:00:00] query | hi\n\n- Page: [[pages/20240102-120000-hi.md]]\n- User: hi\n"
unfolding log_body page_name slugify replace_others first_of first_line one_line split split_from
    fields fields_from join is_space trim_space trim_left trim_right byte_length width to_lower
    trim_left_rune trim_right_rune has_prefix lower_rune
body = refl

-- The files of the first session.
abbrev opened_files : Disk
opened_files = (init writable new_memory_store files).0

-- Behind the page and the log of a greeting.
abbrev logged_files : Disk → Disk
logged_files disk = with_log noon (codes "hi") (with_page noon (codes "hi") (codes "hello") disk)

abbrev env_file : EnvSource
env_file =
    lines
      (codes "ASCS_API_BASE_URL=https://x/"
        ∷ codes "ASCS_MODEL_NAME=m"
        ∷ codes "ASCS_API_TOKEN=t"
        ∷ [])
      true true

abbrev config : AppConfig
config = record { api_base_url = codes "https://x"; model_name = codes "m" }

abbrev no_text : RunError → Text
no_text e = []

abbrev prints : Command → Ran
prints c = record { stdout = c.program; stderr = []; error = none }

-- Twenty-one greetings at noon, each of which is answered.
-- An API that answers every request.
abbrev polite : Api
polite = record {
  marshal = λ request. some request.model;
  is_url = λ url. true;
  send = λ request. some (record {
    status_code = 200;
    status = codes "200 OK";
    content_type = codes "application/json";
    body = codes "hello";
    read_error = false;
    met_at_done = false;
  });
  unmarshal = λ s. none;
  decode = λ body failed. some (record {
    choices =
        record {
          message_content = body;
          delta_content = [];
          reasoning_content = [];
          finish_reason = none;
        }
        ∷ [];
  });
}

abbrev session_env : Environment
session_env = loaded env_file missing (λ k. [])

abbrev greetings : ℕ → List Spoken
greetings zero = []
greetings (suc n) =
    record { text = codes "hi\n"; moments = record { api = polite; exec = prints } ∷ [] }
    ∷ greetings n

abbrev turns : ℕ → List (Text × Text)
turns zero = []
turns (suc n) = (codes "hi", codes "hello") ∷ turns n

abbrev noons : ℕ → List Now
noons zero = []
noons (suc n) = noon ∷ noons n

abbrev after : Disk
after =
    (run_main (codes "linux") no_text env_file missing (λ k. []) writable (greetings 21) (noons 21)
      files).1
