-- ===== src/Wiki/Opening.antt =====
-- `Init`: it makes the files that are missing, and leaves the others.
use opengrab.Prelude.{
  ◌≡◌, ◌≢◌, ◌⊎◌, inl, inr, [], ◌∷◌, Option, none, some, refl, sym, arith, ap, ◌∙◌, Bool-cases,
  Option-cases,
}
use opengrab.Text.{Text, take_bytes, text_eq, text_eq→eq, text_eq_refl}
use opengrab.Wiki.{
  MemoryStore, Disk, put_text, Answer, refused, broken, complete, write_as, FileSystem, FileError,
  ensure, ensure_file, and_then, make_dirs, init, default_memory_schema, default_memory_index,
  default_memory_log,
}

-- The disk behind a call that only makes files: what was there is as it was.
abbrev pub Keeps : Disk → Disk → Type 0
Keeps old new = (p : Text) → old p ≢ none → new p ≡ old p

put_text-Keeps :
    (path : Text) (file : Option Text) (disk : Disk)
    → disk path ≡ none
    → Keeps disk (put_text path file disk)
put_text-Keeps path file disk e p h = elim (Bool-cases (text_eq path p)) [
  | inl same ↦ absurd (h (ap disk (sym (text_eq→eq path p same)) ∙ e))
  | inr other ↦ rw other refl
]

write_as-Keeps :
    (answer : Answer) (path content : Text) (disk : Disk)
    → disk path ≡ none
    → Keeps disk (write_as answer path content disk).0
write_as-Keeps refused path content disk e = λ p h. refl
write_as-Keeps (broken n) path content disk e =
    put_text-Keeps path (some (take_bytes n content)) disk e
write_as-Keeps complete path content disk e = put_text-Keeps path (some content) disk e

ensure-Keeps :
    (fs : FileSystem) (path content : Text) (file : Option Text) (disk : Disk)
    → disk path ≡ file
    → Keeps disk (ensure fs path content file disk).0
ensure-Keeps fs path content (some old) disk e p h = refl
ensure-Keeps fs path content none disk e p h =
    write_as-Keeps (fs.write path) path content disk e p h

ensure_file-Keeps :
    (fs : FileSystem) (path content : Text) (disk : Disk)
    → Keeps disk (ensure_file fs path content disk).0
unfolding ensure_file
ensure_file-Keeps fs path content disk = ensure-Keeps fs path content (disk path) disk refl

-- A file that was there is there.
Keeps-some : (old new : Disk) → Keeps old new → (p : Text) → old p ≢ none → new p ≢ none
Keeps-some old new k p h e = h (sym (k p h) ∙ e)

Keeps-trans : (a b c : Disk) → Keeps a b → Keeps b c → Keeps a c
Keeps-trans a b c h k p n = k p (Keeps-some a b h p n) ∙ h p n

and_then-Keeps :
    (old : Disk) (r : Disk × Option FileError) (next : Disk → Disk × Option FileError)
    → Keeps old r.0
    → ((disk : Disk) → Keeps disk (next disk).0)
    → Keeps old (and_then r next).0
and_then-Keeps old (disk, some e) next h k = h
and_then-Keeps old (disk, none) next h k = Keeps-trans old disk (next disk).0 h (k disk)

-- After a call that returned nil the file is there.
write_as-made :
    (answer : Answer) (path content : Text) (disk : Disk)
    → (write_as answer path content disk).1 ≡ none
    → (write_as answer path content disk).0 path ≢ none
write_as-made refused path content disk h = absurd (ground arith)
write_as-made (broken n) path content disk h = absurd (ground arith)
write_as-made complete path content disk h = rw (text_eq_refl path) (λ n. cc)

ensure-made :
    (fs : FileSystem) (path content : Text) (file : Option Text) (disk : Disk)
    → disk path ≡ file
    → (ensure fs path content file disk).1 ≡ none
    → (ensure fs path content file disk).0 path ≢ none
ensure-made fs path content (some old) disk e h = λ n. ground arith
ensure-made fs path content none disk e h = write_as-made (fs.write path) path content disk h

ensure_file-made :
    (fs : FileSystem) (path content : Text) (disk : Disk)
    → (ensure_file fs path content disk).1 ≡ none
    → (ensure_file fs path content disk).0 path ≢ none
unfolding ensure_file
ensure_file-made fs path content disk h = ensure-made fs path content (disk path) disk refl h

and_then-none :
    (r : Disk × Option FileError) (next : Disk → Disk × Option FileError)
    → (and_then r next).1 ≡ none
    → (r.1 ≡ none) × ((next r.0).1 ≡ none) × (and_then r next ≡ next r.0)
and_then-none (disk, none) next h = (refl, h, refl)
and_then-none (disk, some e) next h = absurd (ground arith)

-- The three calls of `ensureFile`.
abbrev files_of : FileSystem → MemoryStore → Disk → Disk × Option FileError
files_of fs m d = and_then (ensure_file fs m.schema_path default_memory_schema d) (λ d'.
    and_then (ensure_file fs m.index_path default_memory_index d')
      (ensure_file fs m.log_path default_memory_log))

abbrev pub HasFiles : MemoryStore → Disk → Type 0
HasFiles m disk =
    (disk m.schema_path ≢ none) × (disk m.index_path ≢ none) × (disk m.log_path ≢ none)

files_of-HasFiles :
    (fs : FileSystem) (m : MemoryStore) (d : Disk)
    → (files_of fs m d).1 ≡ none
    → HasFiles m (files_of fs m d).0
files_of-HasFiles fs m d h =
    let next = λ (d' : Disk).
      and_then (ensure_file fs m.index_path default_memory_index d')
        (ensure_file fs m.log_path default_memory_log) in
    let r = ensure_file fs m.schema_path default_memory_schema d in
    let (made, h', e) = and_then-none r next h in
    let r' = ensure_file fs m.index_path default_memory_index r.0 in
    let (made', h'', e') = and_then-none r' (ensure_file fs m.log_path default_memory_log) h' in
    let r'' = ensure_file fs m.log_path default_memory_log r'.0 in
    let all : files_of fs m d ≡ r'' = e ∙ e' in
    let keeps = ensure_file-Keeps fs m.log_path default_memory_log r'.0 in
    rw all (
      Keeps-some r'.0 r''.0 keeps m.schema_path (
          Keeps-some r.0 r'.0 (ensure_file-Keeps fs m.index_path default_memory_index r.0)
            m.schema_path (ensure_file-made fs m.schema_path default_memory_schema d made)),
      Keeps-some r'.0 r''.0 keeps m.index_path
          (ensure_file-made fs m.index_path default_memory_index r.0 made'),
      ensure_file-made fs m.log_path default_memory_log r'.0 h'',
    )

files_of-Keeps : (fs : FileSystem) (m : MemoryStore) (d : Disk) → Keeps d (files_of fs m d).0
files_of-Keeps fs m d =
    let last = ensure_file fs m.log_path default_memory_log in
    let middle =
      λ (d' : Disk). and_then (ensure_file fs m.index_path default_memory_index d') last in
    and_then-Keeps d (ensure_file fs m.schema_path default_memory_schema d) middle
      (ensure_file-Keeps fs m.schema_path default_memory_schema d)
      (λ d'.
        and_then-Keeps d' (ensure_file fs m.index_path default_memory_index d') last
          (ensure_file-Keeps fs m.index_path default_memory_index d')
          (ensure_file-Keeps fs m.log_path default_memory_log))

-- A call that returned an error, or nil with the files there.
abbrev pub Opened : MemoryStore → Disk × Option FileError → Type 0
Opened m r = ((r.1 ≡ none) × HasFiles m r.0) ⊎ ((e : FileError) × (r.1 ≡ some e))

files_of-Opened : (fs : FileSystem) (m : MemoryStore) (d : Disk) → Opened m (files_of fs m d)
files_of-Opened fs m d = elim (Option-cases (files_of fs m d).1) [
  | inl nil ↦ inl (nil, files_of-HasFiles fs m d nil)
  | inr (e, h) ↦ inr (e, h)
]

behind_dirs :
    (fs : FileSystem) (m : MemoryStore) (disk : Disk) (dirs : Option FileError)
    → let r = and_then (disk, dirs) (files_of fs m) in Keeps disk r.0 × Opened m r
behind_dirs fs m disk none = (files_of-Keeps fs m disk, files_of-Opened fs m disk)
behind_dirs fs m disk (some e) = (λ p h. refl, inr (e, refl))

-- `Init` leaves every file that is there as it is, whatever fails, and it returns an error, or nil
-- and then the schema, the index and the log are there.
pub init-HasFiles :
    (fs : FileSystem) (m : MemoryStore) (disk : Disk)
    → Keeps disk (init fs m disk).0 × Opened m (init fs m disk)
unfolding init
init-HasFiles fs m disk =
    behind_dirs fs m disk (make_dirs fs (m.root ∷ m.raw_dir ∷ m.wiki_dir ∷ m.pages_dir ∷ []))
