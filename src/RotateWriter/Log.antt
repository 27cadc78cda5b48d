-- ===== src/RotateWriter/Log.antt =====
-- `Write`: what the log files hold together, where the operating system refuses nothing.
use mathlib.Core.List.{flatten}
use opengrab.Prelude.{
  ◌≡◌, refl, sym, ap, ◌∙◌, ℕ, suc, ◌^◌, ◌≤◌, ◌<◌, true, false, List, [], ◌∷◌, ◌++◌, append-nil,
  append_assoc, Option, none, some, length, length-append, take-all, pos, add_64, ◌≤ℤ◌, arith, ◌⊎◌,
  inl, inr, Bool-cases, min,
}
use opengrab.RotateWriter.{
  Os, RotateWriter, WriteError, put_file, rotate, bytes_of, append_bytes, is_full, write,
}
use opengrab.RotateWriter.Backlog.{backlog, backlog-append, kept-rotated}
use opengrab.RotateWriter.Rotate.{Succeeds, Rotated, rotate-Rotated}

-- A writer that is open, with a size below 2 ^ 62 that is the main file's.
pub record IsSized (w : RotateWriter) : Type 0 where
  pub opened : w.is_open ≡ true
  pub limit : ℕ
  pub limit_is : w.max_bytes ≡ pos limit
  pub limit_fits : (0 < limit) × (limit < 2 ^ 62)
  pub backups : 1 ≤ w.max_backups
  pub size_is : w.size ≡ pos (length (bytes_of (w.files 0)))
  pub size_fits : length (bytes_of (w.files 0)) < 2 ^ 62

append_bytes_lem :
    (os : Os) (p : List ℕ) (w : RotateWriter)
    → Succeeds os
    → append_bytes os p w ≡ (
      record w {
        size = add_64 w.size (length p);
        files = put_file 0 (some (bytes_of (w.files 0) ++ p)) w.files;
      },
      length p,
      none,
    )
unfolding append_bytes
append_bytes_lem os p w s =
    ground (arith, s.takes_all (length p), s.writes, take-all (min (length p) (length p)) p)

-- What one `Write` does to a writer.
pub record Written (p : List ℕ) (w : RotateWriter) (out : RotateWriter × ℕ × Option WriteError)
    : Type 0 where
  pub count_is : out.1 ≡ length p
  pub no_error : out.2 ≡ none
  pub still_sized : IsSized out.0
  pub same_limit : out.0.max_bytes ≡ w.max_bytes
  pub same_backups : out.0.max_backups ≡ w.max_backups
  -- the rotation, if there is one, drops no more than the oldest backup
  pub dropped : List ℕ
  pub nothing_else :
      backlog w.max_backups w.files ++ p ≡ dropped ++ backlog out.0.max_backups out.0.files
  pub whole : (before : List ℕ) × (out.0.files 0 ≡ some (before ++ p))
  pub bounded : (pos (length (bytes_of (out.0.files 0))) ≤ℤ w.max_bytes) ⊎ (out.0.files 0 ≡ some p)

-- What fits is below the limit, and its size does not wrap.
room :
    (p : List ℕ) (w : RotateWriter) (z : IsSized w)
    → length p < 2 ^ 62
    → is_full w (length p) ≡ false
    → let n = length (bytes_of (w.files 0) ++ p) in
      (n ≤ z.limit) × (add_64 w.size (length p) ≡ pos n)
room p w z l full = ground (
  arith,
  length-append (bytes_of (w.files 0)) p,
  z.limit_is,
  z.limit_fits.0,
  z.limit_fits.1,
  z.size_is,
  z.size_fits,
)

-- A write that needs no rotation.
Written-append :
    (os : Os) (p : List ℕ) (w : RotateWriter)
    → Succeeds os
    → IsSized w
    → length p < 2 ^ 62
    → is_full w (length p) ≡ false
    → Written p w (append_bytes os p w)
Written-append os p w s z l full =
    let fits = room p w z l full in
    rw (append_bytes_lem os p w s) (record {
      count_is = refl;
      no_error = refl;
      still_sized = record {
        opened = z.opened;
        limit = z.limit;
        limit_is = z.limit_is;
        limit_fits = z.limit_fits;
        backups = z.backups;
        size_is = fits.1;
        size_fits = omega (arith, fits.0, z.limit_fits.1);
      };
      same_limit = refl;
      same_backups = refl;
      dropped = [];
      nothing_else = sym (backlog-append w.max_backups w.files p);
      whole = (bytes_of (w.files 0), refl);
      bounded = inl (ground (arith, fits.0, z.limit_is));
    })

-- A write to a writer that was just rotated.
Written-Rotated :
    (os : Os) (p : List ℕ) (w w' : RotateWriter) (e : Option WriteError)
    → Succeeds os
    → IsSized w
    → length p < 2 ^ 62
    → Rotated w (w', e)
    → Written p w (append_bytes os p w')
Written-Rotated os p w w' e s z l r =
    let emptied : w'.files 0 ≡ some [] = r.files_are 0 in
    rw (append_bytes_lem os p w' s) (record {
      count_is = refl;
      no_error = refl;
      still_sized = record {
        opened = r.opened;
        limit = z.limit;
        limit_is = r.same_bytes ∙ z.limit_is;
        limit_fits = z.limit_fits;
        backups = rw r.same_backups z.backups;
        size_is = ground (arith, r.emptied, emptied);
        size_fits = ground (arith, emptied);
      };
      same_limit = r.same_bytes;
      same_backups = r.same_backups;
      dropped = bytes_of (w.files w.max_backups);
      nothing_else =
          rw r.same_backups (kept-rotated w.max_backups w.files w'.files p z.backups r.files_are);
      whole = ([], ground (arith, emptied));
      bounded = inr (ground (arith, emptied));
    })

write-fits :
    (os : Os) (p : List ℕ) (w : RotateWriter)
    → w.is_open ≡ true
    → is_full w (length p) ≡ false
    → write os p w ≡ append_bytes os p w
unfolding write
write-fits os p w o f = simp (o, f)

write-full :
    (os : Os) (p : List ℕ) (w w' : RotateWriter)
    → w.is_open ≡ true
    → is_full w (length p) ≡ true
    → rotate os w ≡ (w', none)
    → write os p w ≡ append_bytes os p w'
unfolding write
write-full os p w w' o f r = simp (o, f, r)

pub write-Written :
    (os : Os) (p : List ℕ) (w : RotateWriter)
    → Succeeds os
    → IsSized w
    → length p < 2 ^ 62
    → Written p w (write os p w)
write-Written os p w s z l = elim (Bool-cases (is_full w (length p))) [
  | inr fits ↦ rw (write-fits os p w z.opened fits) (Written-append os p w s z l fits)
  | inl full ↦
      let r = rotate-Rotated os w s z.backups in
      let (w', e) = rotate os w in
      rw (write-full os p w w' z.opened full (ap (λ x. (w', x)) r.no_error))
        (Written-Rotated os p w w' e s z l r)
]

-- Writes in their order, each with the answers of the operating system.
unfoldable pub write_all : (ℕ → Os) → List (List ℕ) → RotateWriter → RotateWriter
write_all os [] w = w
write_all os (p ∷ ps) w = write_all (λ n. os (suc n)) ps (write (os 0) p w).0

-- Every write is shorter than 2 ^ 62 bytes.
abbrev pub AllShort : List (List ℕ) → Type 0
AllShort [] = Unit
AllShort (p ∷ ps) = (length p < 2 ^ 62) × AllShort ps

-- However many writes of fewer than 2 ^ 62 bytes there are to an open writer that knows its size and
-- has a limit below 2 ^ 62, where the operating system refuses nothing, the log files hold
-- together, oldest first, the last part of what was there and was written behind it: nothing is lost
-- but at the old end, and nothing is out of order.
pub write_all-keeps_tail :
    (os : ℕ → Os) (ps : List (List ℕ)) (w : RotateWriter)
    → ((n : ℕ) → Succeeds (os n))
    → IsSized w
    → AllShort ps
    → let w' = write_all os ps w in
      (dropped : List ℕ) × (backlog w.max_backups w.files ++ flatten ps
        ≡ dropped ++ backlog w'.max_backups w'.files)
unfolding write_all flatten
write_all-keeps_tail os [] w s z l = ([], append-nil (backlog w.max_backups w.files))
write_all-keeps_tail os (p ∷ ps) w s z (l, ls) =
    let first = write-Written (os 0) p w (s 0) z l in
    let w' = (write (os 0) p w).0 in
    let (gone, e) =
      write_all-keeps_tail (λ n. os (suc n)) ps w' (λ n. s (suc n)) first.still_sized ls in
    (
      first.dropped ++ gone,
      sym (append_assoc (backlog w.max_backups w.files) p (flatten ps))
          ∙ ap (λ t. t ++ flatten ps) first.nothing_else
          ∙ append_assoc first.dropped (backlog w'.max_backups w'.files) (flatten ps)
          ∙ ap (λ t. first.dropped ++ t) e
          ∙ sym (append_assoc first.dropped gone _),
    )
