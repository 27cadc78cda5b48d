-- ===== src/Main/Recall.antt =====
-- What a session finds of the conversations that earlier ones have remembered.
use opengrab.Prelude.{
  ◌≡◌, ◌≢◌, ℕ, ◌<◌, ◌≤◌, Bool, true, false, not, ◌&&◌, ◌||◌, List, [], ◌∷◌, ◌++◌, Option, none,
  some, refl, sym, arith, ap, ◌∙◌, length, ◌==◌, if◌then◌else◌,
}
use opengrab.Text.{
  Text, codes, is_empty, is_space, trim_space, trim_left, trim_right, push_unless_blank, is_blank,
  contains, byte_length, join,
}
use opengrab.Memory.{text_or_empty}
use opengrab.EnvFile.{Environment, EnvSource, AppConfig, configured, get_config}
use opengrab.Excerpt.{last_bytes, tail_log}
use opengrab.Excerpt.LogTail.{entries, separator}
use opengrab.Wiki.{
  complete, FileSystem, Disk, new_memory_store, init, context, context_of, read_limited,
}
use opengrab.Wiki.Opening.{init-HasFiles}
use opengrab.Wiki.Entries.{
  Conversation, AllPrinted, bodies, logged, with_marks, remember_all, remember_all-logged,
  remember_all-tail_log,
}
use opengrab.Main.{opened, open_session, loaded, system_message}

-- Whether there is something in a text but white space.
unfoldable has_ink : Text → Bool
has_ink [] = false
has_ink (c ∷ s) = not (is_space c) || has_ink s

is_empty-push_unless_blank :
    (c : ℕ) (s : Text) → is_empty (push_unless_blank c s) ≡ (is_space c && is_empty s)
is_empty-push_unless_blank c [] = ground arith
is_empty-push_unless_blank c (d ∷ s) = ground arith

is_empty-trim_right : (s : Text) → is_empty (trim_right s) ≡ not (has_ink s)
unfolding trim_right has_ink
is_empty-trim_right [] = refl
is_empty-trim_right (c ∷ s) =
    is_empty-push_unless_blank c (trim_right s) ∙ ground (arith, is_empty-trim_right s)

has_ink-trim_left : (s : Text) → has_ink (trim_left s) ≡ has_ink s
unfolding trim_left has_ink
has_ink-trim_left [] = refl
has_ink-trim_left (c ∷ s) = ground (arith, has_ink-trim_left s)

is_blank-ink : (s : Text) → is_blank s ≡ not (has_ink s)
unfolding trim_space
is_blank-ink s = is_empty-trim_right (trim_left s) ∙ ap not (has_ink-trim_left s)

has_ink-append : (s t : Text) → has_ink (s ++ t) ≡ (has_ink s || has_ink t)
unfolding has_ink
has_ink-append [] t = refl
has_ink-append (c ∷ s) t = ground (arith, has_ink-append s t)

has_ink-entries : (bs : List Text) → 0 < length bs → has_ink (entries bs) ≡ true
unfolding has_ink entries is_space
has_ink-entries [] h = absurd (omega arith)
has_ink-entries (b ∷ bs) h = refl

last_bytes-short : (limit : ℕ) (s : Text) → byte_length s ≤ limit → last_bytes limit s ≡ s
unfolding last_bytes
last_bytes-short limit s h = ground arith

ink-some : (f : Option Text) → has_ink (text_or_empty f) ≡ true → f ≢ none
unfolding has_ink
ink-some none h = absurd (cc)
ink-some (some s) h = λ e. cc

abbrev pub schema_in : FileSystem → Disk → Text
schema_in fs d = read_limited fs new_memory_store.schema_path 6000 d

abbrev pub index_in : FileSystem → Disk → Text
index_in fs d = read_limited fs new_memory_store.index_path 8000 d

-- The context of a log that is read whole and is not blank.
context-log :
    (fs : FileSystem) (d : Disk) (log : Text)
    → read_limited fs new_memory_store.log_path 4000 d ≡ log
    → has_ink log ≡ true
    → context fs new_memory_store d ≡ context_of (schema_in fs d) (index_in fs d) (tail_log log 20)
unfolding context
context-log fs d log e ink =
    let some_ink : has_ink (schema_in fs d ++ (index_in fs d ++ log)) ≡ true =
      (has_ink-append (schema_in fs d) (index_in fs d ++ log)
        ∙ ap (λ b. has_ink (schema_in fs d) || b) (has_ink-append (index_in fs d) log)
        ∙ ground arith) in
    rw (e, is_blank-ink (schema_in fs d ++ (index_in fs d ++ log)), some_ink) refl

context_of-full : (schema index recent : Text) → is_empty (context_of schema index recent) ≡ false
unfolding has_ink is_space
context_of-full schema index recent = is_blank-ink _ ∙ refl

-- `Context` behind `Init`, when there is ink in the log and it is not too long.
init-context :
    (fs : FileSystem) (disk : Disk)
    → ((path : Text) → fs.read_ok path ≡ true)
    → has_ink (logged disk) ≡ true
    → byte_length (logged disk) ≤ 4000
    → let d = (init fs new_memory_store disk).0 in
      context fs new_memory_store d
      ≡ context_of (schema_in fs d) (index_in fs d) (tail_log (logged disk) 20)
unfolding read_limited
init-context fs disk read ink short =
    let log_at = new_memory_store.log_path in
    let d = (init fs new_memory_store disk).0 in
    let same : d log_at ≡ disk log_at =
      (init-HasFiles fs new_memory_store disk).0 log_at (ink-some (disk log_at) ink) in
    let whole : read_limited fs log_at 4000 d ≡ logged disk =
      rw (read log_at, same) (last_bytes-short 4000 (logged disk) short) in
    context-log fs d (logged disk) whole ink

open_session-context :
    (dot_env envfile : EnvSource) (env : Environment) (fs : FileSystem) (disk : Disk)
    (config : AppConfig) (agent memory : Text)
    → get_config (loaded dot_env envfile env) ≡ configured config
    → fs.read_ok (codes "Agent.md") ≡ true
    → disk (codes "Agent.md") ≡ some agent
    → let d = (init fs new_memory_store disk).0 in
      context fs new_memory_store d ≡ memory
      → is_empty memory ≡ false
      → open_session dot_env envfile env fs disk
        ≡ opened config (system_message agent ∷ system_message memory ∷ []) d
unfolding open_session
open_session-context dot_env envfile env fs disk config agent memory ec er ea em full =
    rw (ec, er, ea, em, full) refl

-- What the context shows of the log: all of it, or its header and the last conversations.
abbrev pub shown : Text → Text → List Conversation → List Conversation → Text
shown header log older recent =
    if length older == 0
    then log
    else trim_space header ++ (codes "\n\n" ++ join (with_marks (bodies recent)) (codes "\n"))

has_bodies :
    (older recent : List Conversation) → length recent ≡ 20 → 0 < length (bodies (older ++ recent))
has_bodies [] [] h = absurd (omega arith)
has_bodies [] (c ∷ recent) h = omega arith
has_bodies (c ∷ older) recent h = omega arith

ink-logged :
    (fs : FileSystem) (older recent : List Conversation) (disk : Disk)
    → ((path : Text) → fs.write path ≡ complete)
    → fs.append new_memory_store.log_path ≡ complete
    → length recent ≡ 20
    → has_ink (logged (remember_all fs (older ++ recent) disk)) ≡ true
ink-logged fs older recent disk write append n =
    let bs = bodies (older ++ recent) in
    ap has_ink (remember_all-logged fs (older ++ recent) disk write append)
    ∙ has_ink-append (logged disk) (entries bs)
    ∙ ap (λ b. has_ink (logged disk) || b) (has_ink-entries bs (has_bodies older recent n))
    ∙ ground arith

-- A session that is configured, has its `Agent.md`, and can read the files, opens behind any run of
-- `Remember` that could write, the last twenty of it `recent`, on a log that was a header without a
-- mark, while the log has at most 4000 bytes, with two messages: `Agent.md`, and a context that
-- shows the log whole if there are no other conversations, and else its trimmed header and the
-- entries of exactly the last twenty.
pub open_session-recalls :
    (dot_env envfile : EnvSource) (env : Environment) (fs : FileSystem) (disk : Disk)
    (config : AppConfig) (agent : Text) (older recent : List Conversation)
    → get_config (loaded dot_env envfile env) ≡ configured config
    → ((path : Text) → fs.read_ok path ≡ true)
    → ((path : Text) → fs.write path ≡ complete)
    → fs.append new_memory_store.log_path ≡ complete
    → contains (logged disk ++ codes "\n## ") separator ≡ false
    → AllPrinted (older ++ recent)
    → length recent ≡ 20
    → remember_all fs (older ++ recent) disk (codes "Agent.md") ≡ some agent
    → byte_length (logged (remember_all fs (older ++ recent) disk)) ≤ 4000
    → let after = remember_all fs (older ++ recent) disk in
      let d = (init fs new_memory_store after).0 in
      open_session dot_env envfile env fs after
      ≡ opened config
          (system_message agent
            ∷ system_message (
                context_of
                  (schema_in fs d)
                  (index_in fs d)
                  (shown (logged disk) (logged after) older recent))
            ∷ [])
          d
open_session-recalls dot_env envfile env fs disk config agent older recent ec read write append h k
      n ea short =
    let after = remember_all fs (older ++ recent) disk in
    let d = (init fs new_memory_store after).0 in
    let view = shown (logged disk) (logged after) older recent in
    let tail : tail_log (logged after) 20 ≡ view =
      ap (tail_log (logged after)) (sym n)
      ∙ remember_all-tail_log fs older recent disk write append h k in
    let ink = ink-logged fs older recent disk write append n in
    open_session-context dot_env envfile env fs after config agent
      (context_of (schema_in fs d) (index_in fs d) view) ec (read (codes "Agent.md")) ea
      (init-context fs after read ink short ∙ ap (context_of (schema_in fs d) (index_in fs d)) tail)
      (context_of-full (schema_in fs d) (index_in fs d) view)
