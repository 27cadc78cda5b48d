-- ===== src/RotateWriter/Failures.antt =====
-- `rotate` where the operating system refuses something: what is left of the writer.
use opengrab.Prelude.{◌≡◌, ◌≢◌, ℕ, false, List, some, arith, ◌⊎◌}
use opengrab.RotateWriter.{
  Os, RotateWriter, WriteError, closed_error, close_error, rename_error, open_error, move_main,
  open_new, rotate, append_bytes, write,
}

rotate-fails :
    (os : Os) (w w' : RotateWriter) (e : WriteError)
    → rotate os w ≡ (w', some e)
    → e ≢ close_error
    → w'.is_open ≡ false
unfolding rotate move_main open_new
rotate-fails os w w' e h n = ground arith

-- If a write fails because the main file cannot be renamed or the new one not opened, the writer is
-- closed: every later write fails too, whatever the operating system answers by then, and no file
-- changes any more.
pub failed_rotation_closes :
    (os later : Os) (p q : List ℕ) (w w' : RotateWriter) (n : ℕ) (e : WriteError)
    → write os p w ≡ (w', n, some e)
    → (e ≡ rename_error) ⊎ (e ≡ open_error)
    → write later q w' ≡ (w', 0, some closed_error)
unfolding write append_bytes
failed_rotation_closes os later p q w w' n e h k = ground (arith, rotate-fails os w w' e)
