-- ===== src/Wiki/Tests.antt =====
-- The memory at concrete files and conversations.
use opengrab.Prelude.{◌≡◌, true, false, refl, [], ◌∷◌, ◌++◌, none, some, map, if◌then◌else◌}
use opengrab.Text.{codes, has_prefix, contains, text_eq, is_space, join, trim_space}
use opengrab.Memory.{text_or_empty}
use opengrab.Excerpt.{tail_log, entry_mark}
use opengrab.Excerpt.OneLine.{is_one_line}
use opengrab.Excerpt.LogTail.{separator}
use opengrab.Wiki.{
  complete, FileSystem, Disk, Now, new_memory_store, init, remember, default_memory_log, make_dirs,
  ensure_file,
}
use opengrab.Wiki.Opening.{Keeps, Opened, init-HasFiles}
use opengrab.Wiki.Pages.{Remembered, remember-Remembered}
use opengrab.Wiki.Entries.{IsPrinted, Conversation, remember_all, bodies, remember_all-tail_log}

abbrev writable : FileSystem
writable = record {
  mkdir_ok = λ p. true;
  stat_ok = λ p. true;
  read_ok = λ p. true;
  write = λ p. complete;
  append = λ p. complete;
}

abbrev no_files : Disk
no_files = λ p. none

abbrev only_log : Disk
only_log = λ p. if text_eq new_memory_store.log_path p then some default_memory_log else none

abbrev noon : Now
noon = record {
  stamp = codes "20240102-120000";
  rfc_3339 = codes "2024-01-02T12:00:00Z";
  log_time = codes "2024-01-02 12:00";
}

noon-IsPrinted : IsPrinted noon
unfolding is_one_line is_space has_prefix
noon-IsPrinted = record { stamp_line = refl; log_time_line = refl; no_bracket = refl }

init-HasFiles_example :
    Keeps only_log (init writable new_memory_store only_log).0
    × Opened new_memory_store (init writable new_memory_store only_log)
init-HasFiles_example = init-HasFiles writable new_memory_store only_log

init-no_files : (init writable new_memory_store no_files).1 ≡ none
unfolding init make_dirs ensure_file text_eq
init-no_files = refl

remember-Remembered_example :
    Remembered noon
      (codes "hi")
      (codes "hello")
      only_log
      (remember writable new_memory_store noon (codes "hi") (codes "hello") only_log)
remember-Remembered_example =
    remember-Remembered writable noon (codes "hi") (codes "hello") only_log refl

abbrev first_talk : Conversation
first_talk = (noon, codes "hi", codes "hello")

abbrev second_talk : Conversation
second_talk = (noon, codes "\n## [x", codes "ok")

default_log_no_mark :
    contains (text_or_empty (only_log new_memory_store.log_path) ++ codes "\n## ") separator ≡ false
unfolding text_eq contains has_prefix
default_log_no_mark = refl

remember_all-tail_log_example :
    tail_log
      (text_or_empty
        (remember_all writable (first_talk ∷ second_talk ∷ []) only_log new_memory_store.log_path))
      1
    ≡ trim_space (text_or_empty (only_log new_memory_store.log_path))
      ++ (codes "\n\n"
          ++ join (map (λ b. entry_mark ++ b) (bodies (second_talk ∷ []))) (codes "\n"))
remember_all-tail_log_example =
    remember_all-tail_log writable (first_talk ∷ []) (second_talk ∷ []) only_log (λ p. refl) refl
      default_log_no_mark (noon-IsPrinted, (noon-IsPrinted, tt))
