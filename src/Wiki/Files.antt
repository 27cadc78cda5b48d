-- ===== src/Wiki/Files.antt =====
-- What a write to a file leaves: no other file differs.
use opengrab.Prelude.{
  ◌≡◌, ◌⊎◌, inl, inr, true, false, List, [], ◌∷◌, Option, none, some, refl, arith, ap, ◌∙◌,
}
use opengrab.Text.{Text, text_eq_refl, has_text, contains, take_bytes}
use opengrab.Memory.{text_or_empty, insert_entry, read_text_or_empty}
use opengrab.Memory.Index.{insert_entry_cases}
use opengrab.Wiki.{
  Disk, put_text, FileSystem, FileError, Answer, refused, broken, complete, write_as, write_new,
  write_failed, insert_at,
}

-- Only the files at the given paths may differ.
abbrev pub Same : List Text → Disk → Disk → Type 0
Same paths old new = (p : Text) → has_text paths p ≡ false → new p ≡ old p

pub put_text-same :
    (path : Text) (file : Option Text) (disk : Disk) → put_text path file disk path ≡ file
put_text-same path file disk = rw (text_eq_refl path) refl

pub put_text-Same :
    (path : Text) (file : Option Text) (disk : Disk)
    → Same (path ∷ []) disk (put_text path file disk)
unfolding has_text
put_text-Same path file disk p h = ground arith

pub write_as-Same :
    (answer : Answer) (path content : Text) (disk : Disk)
    → Same (path ∷ []) disk (write_as answer path content disk).0
write_as-Same refused path content disk p h = refl
write_as-Same (broken n) path content disk p h =
    put_text-Same path (some (take_bytes n content)) disk p h
write_as-Same complete path content disk p h = put_text-Same path (some content) disk p h

-- `insertIndexEntry` on an index that can be read or is missing: the index has the entry, or there is
-- an error, and no other file differs.
abbrev pub InsertedAt : Text → Text → Disk → Disk × Option FileError → Type 0
InsertedAt path entry d r =
    ((r.1 ≡ none) × (contains (text_or_empty (r.0 path)) entry ≡ true) × Same (path ∷ []) d r.0)
    ⊎ ((r.1 ≡ some (write_failed path)) × Same (path ∷ []) d r.0)

write_as-InsertedAt :
    (answer : Answer) (path entry after : Text) (d : Disk)
    → contains after entry ≡ true
    → InsertedAt path entry d (write_as answer path after d)
write_as-InsertedAt refused path entry after d h = inr (refl, write_as-Same refused path after d)
write_as-InsertedAt (broken n) path entry after d h =
    inr (refl, write_as-Same (broken n) path after d)
write_as-InsertedAt complete path entry after d h = inl (
  refl,
  ap (λ f. contains (text_or_empty f) entry) (put_text-same path (some after) d) ∙ h,
  write_as-Same complete path after d,
)

pub insert_at_lem :
    (fs : FileSystem) (path entry : Text) (d : Disk)
    → fs.read_ok path ≡ true
    → InsertedAt path entry d (insert_at fs path entry d)
unfolding insert_at
insert_at_lem fs path entry d read =
    rw read (elim (insert_entry_cases (text_or_empty (d path)) entry) [
      | inl (unchanged, found) ↦ rw unchanged (inl (refl, found, λ p h. refl))
      | inr (after, e, i) ↦ rw e (write_as-InsertedAt (fs.write path) path entry after d i.0)
    ])

write_new-Same :
    (fs : FileSystem) (path : Text) (content : Option Text) (disk : Disk)
    → Same (path ∷ []) disk (write_new fs path content disk).0
write_new-Same fs path none disk = λ p h. refl
write_new-Same fs path (some content) disk = write_as-Same (fs.write path) path content disk

-- Whatever fails, no other file than the index differs.
pub insert_at-Same :
    (fs : FileSystem) (path entry : Text) (disk : Disk)
    → Same (path ∷ []) disk (insert_at fs path entry disk).0
unfolding insert_at
insert_at-Same fs path entry disk =
    write_new-Same fs path (insert_entry (read_text_or_empty (fs.read_ok path) (disk path)) entry)
      disk
