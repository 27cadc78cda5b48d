-- ===== src/Wiki.antt =====
-- memory.go: `MemoryStore`, the files of the memory, `Init`, `Context` and `Remember`.
pub mod Opening
pub mod Files
pub mod Pages
pub mod Entries
mod Tests
use opengrab.Prelude.{
  ℕ, Bool, true, false, not, List, [], ◌∷◌, ◌++◌, Option, none, some, if◌then◌else◌,
}
use opengrab.Text.{Text, codes, take_bytes, is_empty, is_blank, text_eq, trim_space}
use opengrab.Memory.{insert_entry, read_text_or_empty, text_or_empty, slugify}
use opengrab.Excerpt.{first_line, one_line, markdown_title, tail_log, last_bytes}

-- `MemoryStore`
pub record MemoryStore : Type 0 where
  pub root : Text
  pub raw_dir : Text
  pub wiki_dir : Text
  pub pages_dir : Text
  pub schema_path : Text
  pub index_path : Text
  pub log_path : Text

-- `newMemoryStore`
abbrev pub new_memory_store : MemoryStore
new_memory_store = record {
  root = codes "memory";
  raw_dir = codes "memory/raw";
  wiki_dir = codes "memory/wiki";
  pages_dir = codes "memory/wiki/pages";
  schema_path = codes "MEMORY.md";
  index_path = codes "memory/wiki/index.md";
  log_path = codes "memory/wiki/log.md";
}

-- The files by their paths; none where there is none. No other process touches them.
abbrev pub Disk : Type 0
Disk = Text → Option Text

abbrev pub put_text : Text → Option Text → Disk → Disk
put_text path file disk p = if text_eq path p then file else disk p

-- How a write ends: the file cannot be opened, which has no effect, or it breaks behind some bytes
-- with an error, or it is done.
pub data Answer : Type 0 where
  refused : Answer
  broken : ℕ → Answer
  complete : Answer

-- What the operating system answers, by the path. `stat_ok` is about files that are there.
pub record FileSystem : Type 0 where
  pub mkdir_ok : Text → Bool
  pub stat_ok : Text → Bool
  pub read_ok : Text → Bool
  pub write : Text → Answer
  pub append : Text → Answer

-- An error, with its path.
pub data FileError : Type 0 where
  mkdir_failed stat_failed write_failed append_failed : Text → FileError

-- `os.WriteFile`, which empties the file before it writes.
abbrev pub write_as : Answer → Text → Text → Disk → Disk × Option FileError
write_as refused path content disk = (disk, some (write_failed path))
write_as (broken n) path content disk =
    (put_text path (some (take_bytes n content)) disk, some (write_failed path))
write_as complete path content disk = (put_text path (some content) disk, none)

abbrev pub write_text : FileSystem → Text → Text → Disk → Disk × Option FileError
write_text fs path content disk = write_as (fs.write path) path content disk

abbrev pub ensure : FileSystem → Text → Text → Option Text → Disk → Disk × Option FileError
ensure fs path content (some old) disk =
    (disk, if fs.stat_ok path then none else some (stat_failed path))
ensure fs path content none disk = write_text fs path content disk

-- `ensureFile`
unfoldable pub ensure_file : FileSystem → Text → Text → Disk → Disk × Option FileError
ensure_file fs path content disk = ensure fs path content (disk path) disk

abbrev pub append_as : Answer → Text → Text → Disk → Disk × Option FileError
append_as refused path content disk = (disk, some (append_failed path))
append_as (broken n) path content disk = (
  put_text path (some (text_or_empty (disk path) ++ take_bytes n content)) disk,
  some (append_failed path),
)
append_as complete path content disk =
    (put_text path (some (text_or_empty (disk path) ++ content)) disk, none)

-- `appendFile`
unfoldable pub append_file : FileSystem → Text → Text → Disk → Disk × Option FileError
append_file fs path content disk = append_as (fs.append path) path content disk

-- `readTextOrEmpty`; a limit of 0 is none.
unfoldable pub read_limited : FileSystem → Text → ℕ → Disk → Text
read_limited fs path limit disk =
    if fs.read_ok path then last_bytes limit (text_or_empty (disk path)) else []

abbrev pub write_new : FileSystem → Text → Option Text → Disk → Disk × Option FileError
write_new fs path none disk = (disk, none)
write_new fs path (some content) disk = write_text fs path content disk

-- `insertIndexEntry`
unfoldable pub insert_at : FileSystem → Text → Text → Disk → Disk × Option FileError
insert_at fs path entry disk =
    write_new fs path (insert_entry (read_text_or_empty (fs.read_ok path) (disk path)) entry) disk

-- A call, and the next one if it returned nil.
abbrev pub and_then :
    Disk × Option FileError → (Disk → Disk × Option FileError) → Disk × Option FileError
and_then (disk, some e) next = (disk, some e)
and_then (disk, none) next = next disk

-- The loop of `os.MkdirAll` in `Init`; directories are not modelled.
unfoldable pub make_dirs : FileSystem → List Text → Option FileError
make_dirs fs [] = none
make_dirs fs (dir ∷ dirs) = if fs.mkdir_ok dir then make_dirs fs dirs else some (mkdir_failed dir)

abbrev pub default_memory_index : Text
default_memory_index = codes "# Memory Index\n\n## Conversation Pages\n"

abbrev pub default_memory_log : Text
default_memory_log = codes "# Memory Log\n"

abbrev pub default_memory_schema : Text
default_memory_schema =
    codes "# Memory Schema\n\nThis project follows the LLM Wiki pattern:\n\n"
    ++ (codes "- `memory/raw/` stores immutable source material.\n"
        ++ (codes "- `memory/wiki/` stores LLM-maintained markdown synthesis.\n"
            ++ (codes "- `memory/wiki/index.md` catalogs wiki pages and should be read first.\n"
                ++ (codes "- `memory/wiki/log.md` is append-only chronological history.\n\n"
                    ++ (codes
                          "When answering, use the wiki context as durable memory. When new durable "
                        ++ (codes
                              "information appears in conversation, save it as a page, update the "
                            ++ codes "index, and append to the log.\n"))))))

-- `Init`
unfoldable pub init : FileSystem → MemoryStore → Disk → Disk × Option FileError
init fs m disk =
    and_then (disk, make_dirs fs (m.root ∷ m.raw_dir ∷ m.wiki_dir ∷ m.pages_dir ∷ []))
      (λ d. and_then (ensure_file fs m.schema_path default_memory_schema d) (λ d'.
        and_then (ensure_file fs m.index_path default_memory_index d')
          (ensure_file fs m.log_path default_memory_log)))

abbrev pub context_of : Text → Text → Text → Text
context_of schema index recent = trim_space (
    codes "# Persistent Memory\n\nUse the following local wiki as durable memory for this "
    ++ (codes "assistant. Treat raw sources as immutable, wiki pages as maintained synthesis, and "
        ++ (codes "log as chronological history.\n\n## Schema\n"
            ++ (schema
                ++ (codes "\n\n## Wiki Index\n"
                    ++ (index ++ (codes "\n\n## Recent Log\n" ++ (recent ++ codes "\n"))))))))

-- `Context`
unfoldable pub context : FileSystem → MemoryStore → Disk → Text
context fs m disk =
    let schema = read_limited fs m.schema_path 6000 disk in
    let index = read_limited fs m.index_path 8000 disk in
    let log = read_limited fs m.log_path 4000 disk in
    if is_blank (schema ++ (index ++ log)) then [] else context_of schema index (tail_log log 20)

-- `now` in the three formats that `Remember` uses.
pub record Now : Type 0 where
  pub stamp : Text
  pub rfc_3339 : Text
  pub log_time : Text

abbrev pub or_conversation : Text → Text
or_conversation s = if is_empty s then codes "conversation" else s

abbrev pub title_of : Text → Text
title_of input = or_conversation (first_line input)

-- `pageName`
unfoldable pub page_name : Now → Text → Text
page_name now input =
    now.stamp ++ (codes "-" ++ (or_conversation (slugify (title_of input)) ++ codes ".md"))

-- `relPage`, and `pagePath`, which `filepath.Join` puts together.
abbrev pub rel_page : Now → Text → Text
rel_page now input = codes "pages/" ++ page_name now input

abbrev pub page_path : MemoryStore → Now → Text → Text
page_path m now input = m.pages_dir ++ (codes "/" ++ page_name now input)

-- `page`
unfoldable pub page_text : Now → Text → Text → Text
page_text now input reply =
    codes "---\ntype: conversation\ncreated: "
    ++ (now.rfc_3339
        ++ (codes "\ntags:\n  - memory\n---\n\n# "
            ++ (markdown_title (title_of input)
                ++ (codes "\n\n## User\n\n"
                    ++ (input
                        ++ (codes "\n\n## Assistant\n\n" ++ (trim_space reply ++ codes "\n")))))))

-- What stands behind the mark of the entry in the log, and the entry.
unfoldable pub log_body : Now → Text → Text
log_body now input =
    now.log_time
    ++ (codes "] query | "
        ++ (title_of input
            ++ (codes "\n\n- Page: [["
                ++ (rel_page now input
                    ++ (codes "]]\n- User: " ++ (one_line input 180 ++ codes "\n"))))))

abbrev pub log_entry : Now → Text → Text
log_entry now input = codes "\n## [" ++ log_body now input

unfoldable pub index_entry : Now → Text → Text
index_entry now input =
    codes "- [[" ++ (rel_page now input ++ (codes "]] - " ++ (one_line input 120 ++ codes "\n")))

-- `Remember`
unfoldable pub remember :
    FileSystem → MemoryStore → Now → Text → Text → Disk → Disk × Option FileError
remember fs m now input reply disk =
    and_then (write_text fs (page_path m now input) (page_text now input reply) disk) (λ d.
      and_then (append_file fs m.log_path (log_entry now input) d)
        (insert_at fs m.index_path (index_entry now input)))
