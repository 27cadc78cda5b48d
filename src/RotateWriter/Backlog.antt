-- ===== src/RotateWriter/Backlog.antt =====
-- What the log files hold together.
use opengrab.Prelude.{
  ◌≡◌, refl, sym, ap, ◌∙◌, ℕ, zero, suc, ◌≤◌, List, ◌++◌, append-nil, append_assoc, some, arith,
}
use opengrab.RotateWriter.{Files, put_file, bytes_of}
use opengrab.RotateWriter.Rotate.{rotated}

-- The files from the backup `n` to the main one, oldest first.
abbrev pub backlog : ℕ → Files → List ℕ
backlog zero f = bytes_of (f 0)
backlog (suc n) f = bytes_of (f (suc n)) ++ backlog n f

backlog-rotated :
    (n max : ℕ) (f g : Files)
    → ((j : ℕ) → g j ≡ rotated max f j)
    → suc n ≤ max
    → backlog (suc n) g ≡ backlog n f
backlog-rotated zero max f g e h = ground (arith, e 0, e 1, append-nil (bytes_of (f 0)))
backlog-rotated (suc n) max f g e h =
    ground (arith, e (suc (suc n)), backlog-rotated n max f g e (omega arith))

pub backlog-append :
    (n : ℕ) (f : Files) (p : List ℕ)
    → backlog n (put_file 0 (some (bytes_of (f 0) ++ p)) f) ≡ backlog n f ++ p
backlog-append zero f p = refl
backlog-append (suc n) f p =
    ground (arith, backlog-append n f p, append_assoc (bytes_of (f (suc n))) (backlog n f) p)

-- A rotation and a write keep all but the oldest backup.
pub kept-rotated :
    (max : ℕ) (f g : Files) (p : List ℕ)
    → 1 ≤ max
    → ((j : ℕ) → g j ≡ rotated max f j)
    → backlog max f ++ p
      ≡ bytes_of (f max) ++ backlog max (put_file 0 (some (bytes_of (g 0) ++ p)) g)
kept-rotated zero f g p h e = absurd (omega arith)
kept-rotated (suc n) f g p h e =
    append_assoc (bytes_of (f (suc n))) (backlog n f) p
    ∙ ap (λ t. bytes_of (f (suc n)) ++ t)
        (ap (λ t. t ++ p) (sym (backlog-rotated n (suc n) f g e (omega arith)))
          ∙ sym (backlog-append (suc n) g p))
