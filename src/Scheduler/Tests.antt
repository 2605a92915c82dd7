-- ===== src/Scheduler/Tests.antt =====
-- A task with two dependencies that is cancelled while it waits for the second.
use astrald.Prelude.{◌≤◌, ◌≡◌, refl, true, false, some, List, [], ◌∷◌, All}
use astrald.Scheduler.ScheduledTask.{
  ScheduledTask, state_running, new, close_done, prepare, cancel_with_error,
}
use astrald.Scheduler.Runner.{
  Event, dep_completes, waiter_sees_dep, waiter_sees_cancel, late_release, wait_ends, cancels,
  finished, schedule, run, step, see_dep, see_cancel, release_late, release_taken, finish,
}
use astrald.Scheduler.Invariant.{IsClosedOnce}
use astrald.Scheduler.Releases.{ReleasedSafely, NotLeaked, run-schedule}

abbrev history : List Event
history =
    dep_completes 0
    ∷ waiter_sees_dep 0
    ∷ cancels (some 7)
    ∷ waiter_sees_cancel 1
    ∷ wait_ends
    ∷ dep_completes 1
    ∷ late_release 1
    ∷ []

history_ends : (run history (schedule (true ∷ true ∷ []))).phase ≡ finished
unfolding run step schedule see_dep see_cancel release_late release_taken finish cancel_with_error
    close_done new
history_ends = refl

run-schedule_example :
    let r = run history (schedule (true ∷ true ∷ [])) in
    All (ReleasedSafely r.task.state) r.deps
    × (r.task.state ≡ state_running → All (λ d. d.completed ≡ true) r.deps)
    × (r.runs ≤ 1)
    × (r.phase ≡ finished → (r.queued ≡ false) × All NotLeaked r.deps)
    × IsClosedOnce r.task
run-schedule_example = run-schedule (true ∷ true ∷ []) history

abbrev running : ScheduledTask
running = (prepare true new).0
