-- ===== src/RotateWriter/Tests.antt =====
-- rotate_writer.go at a concrete writer of five bytes and two backups.
use mathlib.Core.List.{flatten}
use opengrab.Prelude.{
  ◌≡◌, refl, ℕ, true, false, List, [], ◌∷◌, ◌++◌, none, some, pos, arith, inl, ◌==◌, if◌then◌else◌,
}
use opengrab.RotateWriter.{
  new_rotate_writer, opened_writer, put_file, bytes_of, Files, Os, RotateWriter, write,
  append_bytes, rotate, move_main, open_new, shift_backups, remove_oldest, move_file, rename_error,
  closed_error,
}
use opengrab.RotateWriter.Rotate.{Succeeds, Rotated, rotate-Rotated}
use opengrab.RotateWriter.Backlog.{backlog}
use opengrab.RotateWriter.Log.{IsSized, write_all, write_all-keeps_tail}
use opengrab.Text.{codes}
use opengrab.RotateWriter.Fresh.{new_rotate_writer-IsSized}
use opengrab.RotateWriter.Failures.{failed_rotation_closes}

abbrev willing : Os
willing = record {
  close_ok = true;
  remove_ok = true;
  stat_ok = λ i. true;
  rename_ok = λ i. true;
  open_ok = true;
  written = λ n. n;
  write_ok = true;
}

willing-Succeeds : Succeeds willing
willing-Succeeds = record {
  closes = refl;
  removes = refl;
  stats = λ i. refl;
  renames = λ i. refl;
  opens = refl;
  takes_all = λ n. refl;
  writes = refl;
}

abbrev no_files : Files
no_files i = none

abbrev small : RotateWriter
small = record {
  max_bytes = pos 5;
  max_backups = 2;
  is_open = true;
  size = pos 3;
  files = λ i. if i == 0 then some (1 ∷ 2 ∷ 3 ∷ []) else none;
}

small-IsSized : IsSized small
small-IsSized = record {
  opened = refl;
  limit = 5;
  limit_is = refl;
  limit_fits = (omega arith, omega arith);
  backups = omega arith;
  size_is = refl;
  size_fits = omega arith;
}

abbrev three : List (List ℕ)
three = (4 ∷ 5 ∷ 6 ∷ []) ∷ (7 ∷ 8 ∷ 9 ∷ []) ∷ (10 ∷ 11 ∷ 12 ∷ []) ∷ []

-- The first bytes are dropped with the oldest backup.
three_rotations : backlog 2 (write_all (λ n. willing) three small).files ≡ flatten three
unfolding write_all write append_bytes rotate move_main open_new shift_backups remove_oldest
    move_file flatten
three_rotations = refl

rotate-Rotated_example : Rotated small (rotate willing small)
rotate-Rotated_example = rotate-Rotated willing small willing-Succeeds (omega arith)

write_all-keeps_tail_example :
    let w' = write_all (λ n. willing) three small in
    (dropped : List ℕ) × (backlog 2 small.files ++ flatten three
      ≡ dropped ++ backlog w'.max_backups w'.files)
write_all-keeps_tail_example =
    write_all-keeps_tail (λ n. willing) three small (λ n. willing-Succeeds) small-IsSized
      (omega arith, (omega arith, (omega arith, tt)))

-- An operating system that does not rename.
abbrev stubborn : Os
stubborn = record willing { rename_ok = λ i. false }

abbrev shut_down : RotateWriter
shut_down = (write stubborn (4 ∷ 5 ∷ 6 ∷ []) small).0

failed_rotation_closes_example :
    write willing (7 ∷ []) shut_down ≡ (shut_down, 0, some closed_error)
unfolding write rotate move_main shift_backups move_file remove_oldest
failed_rotation_closes_example =
    failed_rotation_closes stubborn willing (4 ∷ 5 ∷ 6 ∷ []) (7 ∷ []) small shut_down 0 rename_error
      refl (inl refl)

new_rotate_writer-IsSized_example :
    IsSized (opened_writer (pos 0) (pos 0) (put_file 0 (some []) no_files))
    × ((i : ℕ) → bytes_of (put_file 0 (some []) no_files i) ≡ bytes_of (no_files i))
unfolding new_rotate_writer
new_rotate_writer-IsSized_example =
    new_rotate_writer-IsSized (record { mkdir_ok = true; open_ok = true; stat_ok = true })
      (codes "a.log") (pos 0) (pos 0) no_files refl (omega arith) refl
