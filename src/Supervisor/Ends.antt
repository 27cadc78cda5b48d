-- ===== src/Supervisor/Ends.antt =====
-- supervisor.go: the loop can always go on until it has returned.
use opengrab.Prelude.{◌≡◌, ◌≢◌, refl, true, none, some}
use opengrab.Run.{no_result}
use opengrab.Supervisor.State.{SupervisorOptions}
use opengrab.Supervisor.Machine.{
  Phase, created, top, hooking, starting, waiting, after_hook, deciding, restarting, sleeping,
  finished, Machine, Event, proceed, before_start_returned, start_succeeded, process_done,
  after_stop_returned, timer_fired,
}
use opengrab.Supervisor.Loop.{handle, step}
use opengrab.Supervisor.Progress.{is_loop_event}

-- An event at which the goroutine of `loop` goes on from `m`.
abbrev pub CanGoOn : SupervisorOptions → Machine → Type 0
CanGoOn o m =
    (event : Event) × (m' : Machine) × (is_loop_event event ≡ true) × (step o m event ≡ some m')

going_on :
    (o : SupervisorOptions) (phase : Phase) (m : Machine)
    → m.phase ≡ phase
    → phase ≢ created
    → phase ≢ finished
    → (event : Event) × (m' : Machine) × (is_loop_event event ≡ true)
      × (handle o event phase m ≡ some m')
unfolding handle
going_on o created m p c f = absurd (c refl)
going_on o top m p c f = (proceed, _, refl, refl)
going_on o hooking m p c f = (before_start_returned none, _, refl, refl)
going_on o starting m p c f = (start_succeeded 1 0, _, refl, refl)
going_on o waiting m p c f = (process_done no_result none 0, _, refl, refl)
going_on o (after_hook ended) m p c f = (after_stop_returned none, _, refl, refl)
going_on o (deciding ended) m p c f = (proceed, _, refl, refl)
going_on o (restarting ended) m p c f = (proceed, _, refl, refl)
going_on o sleeping m p c f = (timer_fired, _, refl, refl)
going_on o finished m p c f = absurd (f refl)

-- The loop is never stuck: until it has returned some answer of the environment lets it go on.
pub never_stuck :
    (o : SupervisorOptions) (m : Machine) → m.phase ≢ created → m.phase ≢ finished → CanGoOn o m
unfolding step
never_stuck o m c f = going_on o m.phase m refl c f
