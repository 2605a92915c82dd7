-- ===== src/Scheduler/Releases.antt =====
-- What holds in every history of a scheduled task, however its waiters, its runner, its dependencies
-- and its cancellers are interleaved.
use astrald.Prelude.{
  ℕ, ◌≤◌, ◌<◌, ◌≡◌, ◌≢◌, ◌⊎◌, arith, Bool, true, false, Option, none, some, List, All,
}
use astrald.Scheduler.ScheduledTask.{
  ScheduledTask, live, invalid_state, State, state_scheduled, state_running, state_done, close_done,
  prepare, store_results, cancel_with_error,
}
use astrald.Scheduler.Runner.{gave_up, Dep, Phase, finished, Event, schedule, run}
use astrald.Scheduler.Invariant.{Kept, InStep, IsClosedOnce, All-map}
use astrald.Scheduler.Kept.{schedule-IsValid}
use astrald.Scheduler.Preserved.{run-IsValid}

-- Never twice, and not before it is complete and the task is done with it.
abbrev pub ReleasedSafely : State → Dep → Type 0
ReleasedSafely st d = (d.releases ≤ 1) × (0 < d.releases → (d.completed ≡ true) × (st ≡ state_done))

-- Released, or left to a goroutine that waits for it to complete.
abbrev pub NotLeaked : Dep → Type 0
NotLeaked d = d.releasable ≡ true → (d.releases ≡ 1) ⊎ (d.waiter ≡ gave_up)

-- Whatever the order in which dependencies complete, waiters see them or see a cancellation, the
-- runner goes on and callers cancel: no dependency is released twice, or before it is complete, or
-- before the task is done; while the task runs all its dependencies are complete; it is run once at
-- most; when the runner has finished, each releasable dependency has been released or is left to a
-- goroutine that waits for it; and the task's Done channel is closed once, exactly when it is done.
pub run-schedule :
    (kinds : List Bool) (es : List Event)
    → let r = run es (schedule kinds) in
      All (ReleasedSafely r.task.state) r.deps
      × (r.task.state ≡ state_running → All (λ d. d.completed ≡ true) r.deps)
      × (r.runs ≤ 1)
      × (r.phase ≡ finished → (r.queued ≡ false) × All NotLeaked r.deps)
      × IsClosedOnce r.task
run-schedule kinds es =
    let r = run es (schedule kinds) in
    let v = run-IsValid es (schedule kinds) (schedule-IsValid kinds) in
    (
      All-map _ _ r.deps (λ d h. safely r.task.state r.canceled r.phase r.runs d v.in_step h)
          v.kept,
      λ on.
          All-map _ _ r.deps (λ d h. ready r.task.state r.canceled r.phase r.runs d v.in_step on h)
            v.kept,
      once r.phase r.task.state r.runs v.in_step,
      λ e. (
        ground (arith, v.listed, e),
        All-map _ _ r.deps (λ d h. kept r.task.state r.canceled r.phase d e h) v.kept,
      ),
      v.closed,
    )
  where
    safely :
        (st : State) (c : Bool) (ph : Phase) (n : ℕ) (d : Dep)
        → InStep ph st n
        → Kept st c ph d
        → ReleasedSafely st d
    safely st c ph n d s h = ground (arith, s, h)

    ready :
        (st : State) (c : Bool) (ph : Phase) (n : ℕ) (d : Dep)
        → InStep ph st n
        → st ≡ state_running
        → Kept st c ph d
        → d.completed ≡ true
    ready st c ph n d s on h = ground (arith, s, on, h)

    once : (ph : Phase) (st : State) (n : ℕ) → InStep ph st n → n ≤ 1
    once ph st n s = ground (arith, s)

    kept :
        (st : State) (c : Bool) (ph : Phase) (d : Dep)
        → ph ≡ finished
        → Kept st c ph d
        → NotLeaked d
    kept st c ph d e h = ground (arith, e, h)

-- CancelWithError of a task that is done changes nothing. Of a scheduled one it ends it with the
-- given error, and a later Run does not start it. Of a running one it leaves no live context, and
-- the task's error is the given one, whatever the task returns, unless the given one is nil.
cancel_with_error-store_results :
    (t : ScheduledTask) (err ret : Option ℕ)
    → ((t.state ≡ state_done) × (cancel_with_error err t ≡ t))
      ⊎ ((t.state ≡ state_scheduled)
          × ((cancel_with_error err t).state ≡ state_done)
          × ((cancel_with_error err t).err ≡ err)
          × ((prepare true (cancel_with_error err t)).1 ≡ some invalid_state))
      ⊎ ((t.state ≡ state_running)
          × ((cancel_with_error err t).ctx ≢ live)
          × ((store_results ret (cancel_with_error err t)).err
              ≡ elim err [ none ↦ ret | some e ↦ some e ]))
unfolding cancel_with_error store_results close_done prepare
cancel_with_error-store_results t err ret = ground arith
