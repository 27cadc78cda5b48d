-- ===== src/RotateWriter.antt =====
-- tools/cmdrunner/rotate_writer.go: a log file that is rotated by size.
pub mod Rotate
pub mod Backlog
pub mod Log
pub mod Failures
pub mod Fresh
mod Tests
use opengrab.Prelude.{
  ℕ, zero, suc, ◌+◌, ◌-◌, ◌*◌, min, pos_part, Bool, true, false, not, ◌&&◌, List, [], ◌++◌, Option,
  none, some, ◌==◌, if◌then◌else◌, length, take, ℤ, pos, ltb_ℤ, leb_ℤ, add_64,
}
use opengrab.Text.{Text, is_empty}

-- The files at `path` (0) and at `path.1`, `path.2`, … with their bytes; none where there is none.
-- No other process touches them.
abbrev pub Files : Type 0
Files = ℕ → Option (List ℕ)

-- What the operating system answers during one call; a file operation that is refused has no
-- effect. `written` is how many bytes `file.Write` takes of a given number.
pub record Os : Type 0 where
  pub close_ok : Bool
  pub remove_ok : Bool
  pub stat_ok : ℕ → Bool
  pub rename_ok : ℕ → Bool
  pub open_ok : Bool
  pub written : ℕ → ℕ
  pub write_ok : Bool

-- `RotateWriter`, with its files; `is_open` is `w.file != nil`. The handle appends to file 0.
pub record RotateWriter : Type 0 where
  pub max_bytes : ℤ
  pub max_backups : ℕ
  pub is_open : Bool
  pub size : ℤ
  pub files : Files

pub data WriteError : Type 0 where
  closed_error close_error rename_error open_error write_error : WriteError

abbrev pub is_file : Option (List ℕ) → Bool
is_file none = false
is_file (some b) = true

abbrev pub put_file : ℕ → Option (List ℕ) → Files → Files
put_file i b f j = if i == j then b else f j

-- `os.Rename` of an existing file.
abbrev pub rename_file : ℕ → ℕ → Files → Files
rename_file src dst f = put_file src none (put_file dst (f src) f)

-- A round of the loop in `rotate`: the file is renamed if `os.Stat` finds it, and an error of
-- `os.Rename` is ignored.
unfoldable pub move_file : Os → ℕ → Files → Files
move_file os i f =
    if is_file (f i) && os.stat_ok i && os.rename_ok i then rename_file i (i + 1) f else f

-- `for i := n; i >= 1; i--`
unfoldable pub shift_backups : Os → ℕ → Files → Files
shift_backups os zero f = f
shift_backups os (suc n) f = shift_backups os n (move_file os (suc n) f)

-- `os.Remove(oldest)`, whose error is ignored.
unfoldable pub remove_oldest : Os → ℕ → Files → Files
remove_oldest os i f = if os.remove_ok then put_file i none f else f

-- The end of `rotate`: the new file at `path`.
unfoldable pub open_new : Os → RotateWriter → RotateWriter × Option WriteError
open_new os w =
    if os.open_ok
    then (record w { is_open = true; size = pos 0; files = put_file 0 (some []) w.files }, none)
    else (w, some open_error)

-- `path` becomes `path.1`; this error is returned.
unfoldable pub move_main : Os → RotateWriter → RotateWriter × Option WriteError
move_main os w =
    if is_file (w.files 0) && os.stat_ok 0
    then (if os.rename_ok 0
        then open_new os (record w { files = rename_file 0 1 w.files })
        else (w, some rename_error))
    else open_new os w

-- What `rotate` has done when it comes to the main file.
abbrev pub shift_all : Os → RotateWriter → RotateWriter
shift_all os w = record w {
  is_open = false;
  files = shift_backups os (w.max_backups - 1) (remove_oldest os w.max_backups w.files);
}

-- `rotate`
unfoldable pub rotate : Os → RotateWriter → RotateWriter × Option WriteError
rotate os w =
    if w.is_open && not os.close_ok then (w, some close_error) else move_main os (shift_all os w)

abbrev pub bytes_of : Option (List ℕ) → List ℕ
bytes_of none = []
bytes_of (some b) = b

-- `w.file.Write(p)`, with what `Write` returns.
unfoldable pub append_bytes : Os → List ℕ → RotateWriter → RotateWriter × ℕ × Option WriteError
append_bytes os p w =
    let n = min (os.written (length p)) (length p) in
    (
      record w {
        size = add_64 w.size n;
        files = put_file 0 (some (bytes_of (w.files 0) ++ take n p)) w.files;
      },
      n,
      if os.write_ok then none else some write_error,
    )

abbrev pub is_full : RotateWriter → ℕ → Bool
is_full w n = ltb_ℤ (pos 0) w.max_bytes && ltb_ℤ w.max_bytes (add_64 w.size n)

abbrev pub write_or_fail :
    Os → List ℕ → RotateWriter × Option WriteError → RotateWriter × ℕ × Option WriteError
write_or_fail os p (w, some e) = (w, 0, some e)
write_or_fail os p (w, none) = append_bytes os p w

-- `Write`
unfoldable pub write : Os → List ℕ → RotateWriter → RotateWriter × ℕ × Option WriteError
write os p w =
    if w.is_open
    then write_or_fail os p (if is_full w (length p) then rotate os w else (w, none))
    else (w, 0, some closed_error)

-- `Close`
unfoldable pub close : Os → RotateWriter → RotateWriter × Option WriteError
close os w =
    if w.is_open
    then (record w { is_open = false }, if os.close_ok then none else some close_error)
    else (w, none)

-- What the operating system answers while a writer is made.
pub record Opening : Type 0 where
  pub mkdir_ok : Bool
  pub open_ok : Bool
  pub stat_ok : Bool

-- What `NewRotateWriter` returns: the nil writer, a writer, or an error, with the files that it
-- leaves.
pub data Opened : Type 0 where
  no_writer : Opened
  writer : RotateWriter → Opened
  failed : Files → Opened

abbrev pub limit_or_default : ℤ → ℤ
limit_or_default max_bytes = if leb_ℤ max_bytes (pos 0) then pos (10 * 1024 * 1024) else max_bytes

abbrev pub backups_or_default : ℤ → ℕ
backups_or_default max_backups = if ltb_ℤ max_backups (pos 1) then 3 else pos_part max_backups

-- The literal `&RotateWriter{…}`, with the size of the file at `path`.
abbrev pub opened_writer : ℤ → ℤ → Files → RotateWriter
opened_writer max_bytes max_backups f = record {
  max_bytes = limit_or_default max_bytes;
  max_backups = backups_or_default max_backups;
  is_open = true;
  size = pos (length (bytes_of (f 0)));
  files = f;
}

-- `NewRotateWriter`; `O_CREATE` makes the file at `path` if there is none. The permissions are left
-- out.
unfoldable pub new_rotate_writer : Opening → Text → ℤ → ℤ → Files → Opened
new_rotate_writer os path max_bytes max_backups f =
    let created = put_file 0 (some (bytes_of (f 0))) f in
    if is_empty path
    then no_writer
    else if not os.mkdir_ok
    then failed f
    else if not os.open_ok
    then failed f
    else if not os.stat_ok
    then failed created
    else writer (opened_writer max_bytes max_backups created)
