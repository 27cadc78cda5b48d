-- ===== src/RotateWriter/Rotate.antt =====
-- `rotate` where the operating system refuses nothing: every backup moves on by one.
use opengrab.Prelude.{
  ◌≡◌, ℕ, zero, suc, ◌+◌, ◌-◌, ◌≤◌, true, [], Option, none, some, ◌==◌, if◌then◌else◌, pos, arith,
  leb,
}
use opengrab.RotateWriter.{
  Files, Os, RotateWriter, WriteError, move_file, shift_backups, remove_oldest, open_new, move_main,
  shift_all, rotate,
}

-- Every operation of the call succeeds.
pub record Succeeds (os : Os) : Type 0 where
  pub closes : os.close_ok ≡ true
  pub removes : os.remove_ok ≡ true
  pub stats : (i : ℕ) → os.stat_ok i ≡ true
  pub renames : (i : ℕ) → os.rename_ok i ≡ true
  pub opens : os.open_ok ≡ true
  pub takes_all : (n : ℕ) → os.written n ≡ n
  pub writes : os.write_ok ≡ true

move_file_lem :
    (os : Os) (i : ℕ) (f : Files) (j : ℕ)
    → Succeeds os
    → f (i + 1) ≡ none
    → move_file os i f j ≡ (if j == i + 1 then f i else if j == i then none else f j)
unfolding move_file
move_file_lem os i f j s e = ground (arith, s.stats i, s.renames i)

-- Behind the loop from `n` on, with nothing at `n + 1`: each of 1, …, n has moved on by one.
shift_backups_lem :
    (os : Os) (n : ℕ) (f : Files) (j : ℕ)
    → Succeeds os
    → f (n + 1) ≡ none
    → shift_backups os n f j
      ≡ (if j == 0 then f 0 else if j == 1 then none else if leb j (n + 1) then f (j - 1) else f j)
unfolding shift_backups
shift_backups_lem os zero f j s e = ground arith
shift_backups_lem os (suc n) f j s e =
    let g = move_file os (suc n) f in
    let moved = λ (k : ℕ). move_file_lem os (suc n) f k s e in
    let gap : g (n + 1) ≡ none = ground (arith, moved (n + 1)) in
    ground (arith, shift_backups_lem os n g j s gap, moved 0, moved (j - 1), moved j)

-- The files behind a rotation: the main file is new, it and the backups have moved on by one, and
-- the oldest of `max` backups is gone.
abbrev pub rotated : ℕ → Files → Files
rotated max f j = if j == 0 then some [] else if leb j max then f (j - 1) else f j

move_main_lem :
    (os : Os) (w : RotateWriter) (j : ℕ)
    → Succeeds os
    → w.files 1 ≡ none
    → (move_main os w).0.files j
      ≡ (if j == 0 then some [] else if j == 1 then w.files 0 else w.files j)
unfolding move_main open_new
move_main_lem os w j s e = ground (arith, s.stats 0, s.renames 0)

remove_oldest_lem :
    (os : Os) (i : ℕ) (f : Files) (j : ℕ)
    → Succeeds os
    → remove_oldest os i f j ≡ (if i == j then none else f j)
unfolding remove_oldest
remove_oldest_lem os i f j s = ground arith

move_main-ok :
    (os : Os) (w : RotateWriter)
    → Succeeds os
    → let (w', e) = move_main os w in
      (e ≡ none)
      × (w'.is_open ≡ true)
      × (w'.size ≡ pos 0)
      × (w'.max_bytes ≡ w.max_bytes)
      × (w'.max_backups ≡ w.max_backups)
unfolding move_main open_new
move_main-ok os w s = ground (arith, s.stats 0, s.renames 0)

shift_all_files :
    (os : Os) (w : RotateWriter) (j : ℕ)
    → Succeeds os
    → 1 ≤ w.max_backups
    → (shift_all os w).files j ≡ (
        if j == 0
        then w.files 0
        else if j == 1
        then none
        else if leb j w.max_backups
        then w.files (j - 1)
        else w.files j)
shift_all_files os w j s h =
    let f = remove_oldest os w.max_backups w.files in
    let removed = λ (k : ℕ). remove_oldest_lem os w.max_backups w.files k s in
    let n = w.max_backups - 1 in
    let back : n + 1 ≡ w.max_backups = omega arith in
    let gap : f (n + 1) ≡ none = rw back (ground (arith, removed w.max_backups)) in
    ground (arith, shift_backups_lem os n f j s gap, removed 0, removed (j - 1), removed j)

-- What `rotate` does to a writer with at least one backup, where nothing is refused.
pub record Rotated (w : RotateWriter) (out : RotateWriter × Option WriteError) : Type 0 where
  pub no_error : out.1 ≡ none
  pub opened : out.0.is_open ≡ true
  pub emptied : out.0.size ≡ pos 0
  pub same_bytes : out.0.max_bytes ≡ w.max_bytes
  pub same_backups : out.0.max_backups ≡ w.max_backups
  pub files_are : (j : ℕ) → out.0.files j ≡ rotated w.max_backups w.files j

finish_rotation :
    (os : Os) (w : RotateWriter)
    → Succeeds os
    → 1 ≤ w.max_backups
    → (shift_all os w).files 1 ≡ none
    → Rotated w (move_main os (shift_all os w))
finish_rotation os w s h gap =
    let w' = shift_all os w in
    let ok = move_main-ok os w' s in
    record {
      no_error = ok.0;
      opened = ok.1;
      emptied = ok.2;
      same_bytes = ok.3;
      same_backups = ok.4;
      files_are = λ j. ground (
        arith,
        move_main_lem os w' j s gap,
        shift_all_files os w 0 s h,
        shift_all_files os w j s h,
      );
    }

-- With one backup or more a rotation where the operating system refuses nothing moves the main file and every backup on by
-- one, drops the oldest, touches no other file, and leaves a new empty main file open.
pub rotate-Rotated :
    (os : Os) (w : RotateWriter) → Succeeds os → 1 ≤ w.max_backups → Rotated w (rotate os w)
unfolding rotate
rotate-Rotated os w s h =
    let w' = shift_all os w in
    let through : rotate os w ≡ move_main os w' = ground (arith, s.closes) in
    let gap : w'.files 1 ≡ none = ground (arith, shift_all_files os w 1 s h) in
    rw through (finish_rotation os w s h gap)
