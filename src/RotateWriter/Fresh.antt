-- ===== src/RotateWriter/Fresh.antt =====
-- `NewRotateWriter`: the writer that it makes.
use opengrab.Prelude.{
  ◌≡◌, refl, ℕ, ◌<◌, ◌≤◌, ◌^◌, true, ℤ, pos, negsuc, pos_part, ltb_ℤ, length, arith, some,
}
use opengrab.Text.{Text}
use opengrab.RotateWriter.{
  RotateWriter, Files, Opening, writer, limit_or_default, backups_or_default, opened_writer,
  put_file, bytes_of, new_rotate_writer,
}
use opengrab.RotateWriter.Log.{IsSized}

-- A limit of at most 2 ^ 62 - 1 bytes stays one, and it is positive.
limit_or_default-fits :
    (max_bytes : ℤ)
    → ltb_ℤ max_bytes (pos (2 ^ 62)) ≡ true
    → let l = pos_part (limit_or_default max_bytes) in
      (limit_or_default max_bytes ≡ pos l) × ((0 < l) × (l < 2 ^ 62))
limit_or_default-fits (pos n) h = ground arith
limit_or_default-fits (negsuc n) h = ground arith

backups_or_default-positive : (max_backups : ℤ) → 1 ≤ backups_or_default max_backups
backups_or_default-positive (pos n) = ground arith
backups_or_default-positive (negsuc n) = ground arith

opened_writer-IsSized :
    (max_bytes max_backups : ℤ) (f : Files)
    → ltb_ℤ max_bytes (pos (2 ^ 62)) ≡ true
    → length (bytes_of (f 0)) < 2 ^ 62
    → IsSized (opened_writer max_bytes max_backups f)
opened_writer-IsSized max_bytes max_backups f h l = record {
  opened = refl;
  limit = pos_part (limit_or_default max_bytes);
  limit_is = (limit_or_default-fits max_bytes h).0;
  limit_fits = (limit_or_default-fits max_bytes h).1;
  backups = backups_or_default-positive max_backups;
  size_is = refl;
  size_fits = l;
}

writer-new_rotate_writer :
    (os : Opening) (path : Text) (max_bytes max_backups : ℤ) (f : Files) {w : RotateWriter}
    → new_rotate_writer os path max_bytes max_backups f ≡ writer w
    → w ≡ opened_writer max_bytes max_backups (put_file 0 (some (bytes_of (f 0))) f)
unfolding new_rotate_writer
writer-new_rotate_writer os path max_bytes max_backups f h = ground arith

-- The writer that `NewRotateWriter` makes, with whatever limit below 2 ^ 62 bytes and whatever
-- number of backups, on a file of less, is open and knows its size, and no file has other bytes than
-- before: the theorems on writes hold from here on.
pub new_rotate_writer-IsSized :
    (os : Opening) (path : Text) (max_bytes max_backups : ℤ) (f : Files) {w : RotateWriter}
    → ltb_ℤ max_bytes (pos (2 ^ 62)) ≡ true
    → length (bytes_of (f 0)) < 2 ^ 62
    → new_rotate_writer os path max_bytes max_backups f ≡ writer w
    → IsSized w × ((i : ℕ) → bytes_of (w.files i) ≡ bytes_of (f i))
new_rotate_writer-IsSized os path max_bytes max_backups f {w} h l e =
    rw (writer-new_rotate_writer os path max_bytes max_backups f e) (
      opened_writer-IsSized max_bytes max_backups (put_file 0 (some (bytes_of (f 0))) f) h l,
      λ i. put_file-same i,
    )
  where
    put_file-same : (i : ℕ) → bytes_of (put_file 0 (some (bytes_of (f 0))) f i) ≡ bytes_of (f i)
    put_file-same i = ground arith
