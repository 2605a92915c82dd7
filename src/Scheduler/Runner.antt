-- ===== src/Scheduler/Runner.antt =====
-- mod/scheduler/src/module.go: Schedule and the goroutines that it starts, as steps that can come in
-- any order. The module runs, so its context is not nil; the dependencies are distinct objects.
use astrald.Prelude.{
  ℕ, zero, suc, Bool, true, false, not, ◌&&◌, Option, none, some, List, [], ◌∷◌, if◌then◌else◌, ltb,
}
use astrald.Scheduler.ScheduledTask.{ScheduledTask, new, prepare, store_results, cancel_with_error}

-- A dependency's waiter: still in its select; it took the Done of the dependency, which is among the
-- releasers then if it can be released; it saw the task's Done and left the release to a goroutine;
-- that goroutine is done.
pub data Waiter : Type 0 where
  selecting took gave_up gone : Waiter

-- `completed` says whether its Done channel is closed, `releases` counts the calls of Release.
pub record Dep : Type 0 where
  pub releasable : Bool
  pub completed : Bool
  pub waiter : Waiter
  pub releases : ℕ

-- Where the runner stands: at wg.Wait, before the Run of the task, in it, past the cleanup.
pub data Phase : Type 0 where
  waits_deps starts runs_task finished : Phase

pub record Runner : Type 0 where
  pub task : ScheduledTask
  pub deps : List Dep
  pub canceled : Bool
  pub phase : Phase
  pub queued : Bool
  pub runs : ℕ

pub data Event : Type 0 where
  dep_completes waiter_sees_dep waiter_sees_cancel late_release : ℕ → Event
  wait_ends prepares : Event
  task_returns cancels : Option ℕ → Event

abbrev pub modify : ℕ → (Dep → Dep) → List Dep → List Dep
modify i f [] = []
modify zero f (d ∷ ds) = f d ∷ ds
modify (suc i) f (d ∷ ds) = d ∷ modify i f ds

abbrev pub map_deps : (Dep → Dep) → List Dep → List Dep
map_deps f [] = []
map_deps f (d ∷ ds) = f d ∷ map_deps f ds

abbrev pub is_selecting : Waiter → Bool
is_selecting selecting = true
is_selecting took = false
is_selecting gave_up = false
is_selecting gone = false

abbrev pub selecting_at : ℕ → List Dep → Bool
selecting_at i [] = false
selecting_at zero (d ∷ ds) = is_selecting d.waiter
selecting_at (suc i) (d ∷ ds) = selecting_at i ds

-- wg.Wait returns.
abbrev pub all_left : List Dep → Bool
all_left [] = true
all_left (d ∷ ds) = not (is_selecting d.waiter) && all_left ds

abbrev pub complete : Dep → Dep
complete d = record d { completed = true }

unfoldable pub see_dep : Dep → Dep
see_dep d = elim d.waiter [
  | selecting ↦ if d.completed then record d { waiter = took } else d
  | _ ↦ d
]

unfoldable pub see_cancel : Dep → Dep
see_cancel d = elim d.waiter [ selecting ↦ record d { waiter = gave_up } | _ ↦ d ]

unfoldable pub release_late : Dep → Dep
release_late d = elim d.waiter [
  | gave_up ↦
      if d.releasable && d.completed
      then record d { waiter = gone; releases = suc d.releases }
      else d
  | _ ↦ d
]

-- The cleanup calls Release of each of the releasers.
unfoldable pub release_taken : Dep → Dep
release_taken d = elim d.waiter [
  | took ↦ if d.releasable then record d { releases = suc d.releases } else d
  | _ ↦ d
]

unfoldable pub finish : Runner → Runner
finish r = record r { queued = false; deps = map_deps release_taken r.deps; phase = finished }

-- isRunning: the module's context, if it is set, by whether it has ended.
unfoldable is_running : Option Bool → Bool
is_running none = false
is_running (some ended) = not ended

-- Schedule
unfoldable pub schedule : List Bool → Runner
schedule kinds = record {
  task = new;
  deps = fresh kinds;
  canceled = false;
  phase = waits_deps;
  queued = true;
  runs = 0;
}
  where
    fresh : List Bool → List Dep
    fresh [] = []
    fresh (k ∷ ks) =
        (record { releasable = k; completed = false; waiter = selecting; releases = 0 }) ∷ fresh ks

unfoldable pub step : Event → Runner → Runner
step (dep_completes i) r = record r { deps = modify i complete r.deps }
step (waiter_sees_dep i) r = record r { deps = modify i see_dep r.deps }
step (waiter_sees_cancel i) r =
    if ltb 0 r.task.done_closes && selecting_at i r.deps
    then record r { deps = modify i see_cancel r.deps; canceled = true }
    else r
step (late_release i) r = record r { deps = modify i release_late r.deps }
step wait_ends r = elim r.phase [
  | waits_deps ↦
      if all_left r.deps then if r.canceled then finish r else record r { phase = starts } else r
  | _ ↦ r
]
step prepares r = elim r.phase [
  | starts ↦
      let (task', failed) = prepare true r.task in
      elim failed [
        | none ↦ record r { task = task'; phase = runs_task; runs = suc r.runs }
        | some e ↦ finish (record r { task = task' })
      ]
  | _ ↦ r
]
step (task_returns err) r = elim r.phase [
  | runs_task ↦ finish (record r { task = store_results err r.task })
  | _ ↦ r
]
step (cancels err) r = record r { task = cancel_with_error err r.task }

unfoldable pub run : List Event → Runner → Runner
run [] r = r
run (e ∷ es) r = run es (step e r)
