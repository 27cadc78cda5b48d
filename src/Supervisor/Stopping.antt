-- ===== src/Supervisor/Stopping.antt =====
-- supervisor.go: `Stop` ends the loop, and `Wait` returns.
use opengrab.Prelude.{◌≡◌, ◌≢◌, ◌⊎◌, inl, inr, true, none, some, refl}
use opengrab.Supervisor.State.{SupervisorOptions}
use opengrab.Supervisor.Machine.{created, Machine, fresh}
use opengrab.Supervisor.Loop.{Run}
use opengrab.Supervisor.Bounds.{Run-IsBegun}
use opengrab.Supervisor.Ends.{CanGoOn}
use opengrab.Supervisor.Control.{wait}

-- `Wait` returns the final error, or it blocks and some answer lets the loop go on.
abbrev pub Returns : SupervisorOptions → Machine → Type 0
Returns o m = (wait m.sup ≡ some m.sup.final_err) ⊎ ((wait m.sup ≡ none) × CanGoOn o m)

begun-started :
    (o : SupervisorOptions) (m : Machine) → Run o fresh m → m.phase ≢ created → m.sup.started ≡ true
begun-started o m r begun = elim (Run-IsBegun o (inl refl) r) [
  | inl c ↦ absurd (begun c)
  | inr s ↦ s
]
