-- ===== src/Supervisor/Bounds.antt =====
-- supervisor.go: how often a process is started again, and that the loop ends.
use mathlib.Core.Path.{subst}
use opengrab.Prelude.{
  ◌≢◌, List, [], ◌∷◌, ◌≡◌, refl, ℕ, suc, ◌+◌, ◌*◌, ◌-◌, ◌^◌, ◌≤◌, ◌<◌, true, Option, none, some,
  pos, ◌⊎◌, inl, inr, arith, if◌then◌else◌,
}
use opengrab.Supervisor.State.{SupervisorOptions, Supervisor}
use opengrab.Supervisor.Machine.{
  created, Health, Machine, Event, start_called, check_returned, late_check_returned, fresh,
}
use opengrab.Supervisor.Loop.{
  start_supervisor, return_check, return_late, handle, step, Run, here, next,
}
use opengrab.Supervisor.Progress.{
  rank, is_loop_event, restarts_of, may_restart, Progress, IsBegun, handle-Progress,
}
use opengrab.Supervisor.Flags.{Sticky, Sticky-handle}

step-Sticky :
    (o : SupervisorOptions) (event : Event) (m m' : Machine)
    → step o m event ≡ some m'
    → Sticky m.sup m'.sup
unfolding step
step-Sticky o event m m' h = Sticky-handle o event m.phase m m' h

created-IsBegun :
    (o : SupervisorOptions) (event : Event) (m m' : Machine)
    → m.phase ≡ created
    → handle o event created m ≡ some m'
    → IsBegun m'
unfolding handle start_supervisor
created-IsBegun o start_called m m' p h = ground arith
created-IsBegun o (check_returned a) m m' p h = checked m.health h
  where
    checked : (health : Option Health) → return_check o a health m ≡ some m' → IsBegun m'
    checked none e = cc
    checked (some x) e = ground arith
created-IsBegun o (late_check_returned a) m m' p h = late_checked m.late h
  where
    late_checked : (late : List ℕ) → return_late o a late m ≡ some m' → IsBegun m'
    late_checked [] e = cc
    late_checked (n ∷ late) e = ground arith
created-IsBegun o event m m' p h = ground arith

step-IsBegun :
    (o : SupervisorOptions) (event : Event) (m m' : Machine)
    → IsBegun m
    → step o m event ≡ some m'
    → IsBegun m'
step-IsBegun o event m m' (inr b) h = inr ((step-Sticky o event m m' h).started b)
step-IsBegun o event m m' (inl c) h =
    created-IsBegun o event m m' c (subst (λ p. handle o event p m ≡ some m') c (unfold step in h))

pub Run-IsBegun : (o : SupervisorOptions) {m m' : Machine} → IsBegun m → Run o m m' → IsBegun m'
Run-IsBegun o b here = b
Run-IsBegun o b (next {a} {b = z} r event h) = step-IsBegun o event a z (Run-IsBegun o b r) h

step-Progress :
    (o : SupervisorOptions) (event : Event) (m m' : Machine)
    → IsBegun m
    → step o m event ≡ some m'
    → Progress o event m m'
unfolding step
step-Progress o event m m' b h = handle-Progress o event m.phase m m' refl b h

-- The steps of the goroutine of `loop` in a run.
abbrev pub loop_events : {o : SupervisorOptions} {m m' : Machine} → Run o m m' → ℕ
loop_events here = 0
loop_events (next r event h) = if is_loop_event event then suc (loop_events r) else loop_events r

module _ (o : SupervisorOptions) (max : ℕ) (limit : o.max_restarts ≡ pos max) (positive : 0 < max)
    (fits : max < 2 ^ 63) where
  may_restart-lt :
      (s : Supervisor)
      → s.metrics.restarts ≤ max
      → may_restart o s ≡ true
      → s.metrics.restarts < max
  may_restart-lt s b h = ground arith

  -- With a limit on the restarts, positive and below 2 ^ 63, there are never more of them, whatever processes, hooks, health
  -- checks and callers do.
  pub restarts_le_max : {m : Machine} → Run o fresh m → restarts_of m ≤ max
  restarts_le_max here = omega arith
  restarts_le_max (next {a} {b = z} r event h) = ground (
    arith,
    restarts_le_max r,
    step-Progress o event a z (Run-IsBegun o (inl refl) r) h,
    may_restart-lt a.sup,
  )

  -- Along a run the loop's steps are paid for by the restarts that are left and by the rank.
  loop_events_paid :
      {m : Machine} (r : Run o fresh m)
      → loop_events r + (max - restarts_of m) * 9 + rank m.phase ≤ max * 9 + 9
  loop_events_paid here = omega arith
  loop_events_paid (next {a} {b = z} r event h) = ground (
    arith,
    loop_events_paid r,
    restarts_le_max r,
    step-Progress o event a z (Run-IsBegun o (inl refl) r) h,
    may_restart-lt a.sup,
  )

  -- With a limit of `max` restarts, positive and below 2 ^ 63, the loop takes at most 9 * (max + 1) steps from its start to its
  -- end, whatever the environment does.
  pub loop_events_le : {m : Machine} (r : Run o fresh m) → loop_events r ≤ 9 * (max + 1)
  loop_events_le r = omega (arith, loop_events_paid r)

-- A supervisor that was started, and then stopped or cancelled.
abbrev pub IsEnding : Supervisor → Type 0
IsEnding s = (s.started ≡ true) × ((s.stopping ≡ true) ⊎ (s.cancelled ≡ true))

step-IsEnding :
    (o : SupervisorOptions) (event : Event) (m m' : Machine)
    → IsEnding m.sup
    → step o m event ≡ some m'
    → IsEnding m'.sup
step-IsEnding o event m m' e h =
    let k = step-Sticky o event m m' h in ground (arith, k.started e.0, k.stopping e.0, k.cancelled)

pub Run-IsEnding :
    (o : SupervisorOptions) {m m' : Machine} → IsEnding m.sup → Run o m m' → IsEnding m'.sup
Run-IsEnding o e here = e
Run-IsEnding o e (next {a} {b = z} r event h) = step-IsEnding o event a z (Run-IsEnding o e r) h

ending-not_restart : (o : SupervisorOptions) (s : Supervisor) → IsEnding s → may_restart o s ≢ true
ending-not_restart o s e = ground arith

-- From the moment at which `Stop` is called, or the context is cancelled, of a supervisor that was
-- started no process is started
-- again, and the loop takes at most as many steps as its phase ranks (nine): it ends.
pub ending_run :
    (o : SupervisorOptions) {m m' : Machine} (r : Run o m m')
    → IsEnding m.sup
    → (restarts_of m' ≡ restarts_of m) × (loop_events r + rank m'.phase ≤ rank m.phase)
ending_run o here e = (refl, omega arith)
ending_run o (next {a} {b = z} r event h) e =
    let ending = Run-IsEnding o e r in
    ground (
      arith,
      ending_run o r e,
      step-Progress o event a z (inr ending.0) h,
      ending-not_restart o a.sup ending,
    )
