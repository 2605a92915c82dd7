-- ===== src/Scheduler/Invariant.antt =====
-- What holds of a scheduled task and its runner after every step, and how each change of a
-- dependency keeps it.
use astrald.Prelude.{
  ℕ, zero, suc, ◌≤◌, ◌≡◌, ◌≢◌, ◌⊎◌, arith, Bool, true, false, not, ◌&&◌, List, [], ◌∷◌,
  if◌then◌else◌, All,
}
use astrald.Scheduler.ScheduledTask.{ScheduledTask, State, state_running, state_done}
use astrald.Scheduler.Runner.{
  Waiter, selecting, took, gave_up, gone, Dep, Phase, waits_deps, starts, runs_task, finished,
  Runner, modify, map_deps, complete, see_dep, see_cancel, release_late,
}

abbrev pub is_finished : Phase → Bool
is_finished finished = true
is_finished waits_deps = false
is_finished starts = false
is_finished runs_task = false

-- How often a dependency has been released, by where its waiter stands, and what is known then of
-- the task, of its runner's phase and of the runner's `canceled`.
abbrev KeptAt : State → Bool → Phase → Waiter → Bool → Bool → ℕ → Type 0
KeptAt st c ph selecting able completed n = (n ≡ 0) × (ph ≡ waits_deps)
KeptAt st c ph took able completed n =
    (completed ≡ true) × (n ≡ (if able && is_finished ph then 1 else 0))
KeptAt st c ph gave_up able completed n =
    (n ≡ 0) × (st ≡ state_done) × (c ≡ true) × ((ph ≡ waits_deps) ⊎ (ph ≡ finished))
KeptAt st c ph gone able completed n =
    (n ≡ 1)
    × (able ≡ true)
    × (completed ≡ true)
    × (st ≡ state_done)
    × (c ≡ true)
    × ((ph ≡ waits_deps) ⊎ (ph ≡ finished))

abbrev pub Kept : State → Bool → Phase → Dep → Type 0
Kept st c ph d = KeptAt st c ph d.waiter d.releasable d.completed d.releases

-- The task and the runner's phase.
abbrev pub InStep : Phase → State → ℕ → Type 0
InStep waits_deps st n = (st ≢ state_running) × (n ≡ 0)
InStep starts st n = (st ≢ state_running) × (n ≡ 0)
InStep runs_task st n = (st ≡ state_running) × (n ≡ 1)
InStep finished st n = (st ≡ state_done) × (n ≤ 1)

-- The channel is closed once, when the task is done.
abbrev pub IsClosedOnce : ScheduledTask → Type 0
IsClosedOnce t =
    ((t.state ≡ state_done) × (t.done_once ≡ true) × (t.done_closes ≡ 1))
    ⊎ ((t.state ≢ state_done) × (t.done_once ≡ false) × (t.done_closes ≡ 0))

pub record IsValid (r : Runner) : Type 0 where
  pub closed : IsClosedOnce r.task
  pub in_step : InStep r.phase r.task.state r.runs
  pub stopped : r.canceled ≡ true → r.task.state ≡ state_done
  pub listed : r.queued ≡ not (is_finished r.phase)
  pub kept : All (Kept r.task.state r.canceled r.phase) r.deps

pub All-modify :
    (P Q : Dep → Type 0) (f : Dep → Dep) (i : ℕ) (ds : List Dep)
    → ((d : Dep) → P d → Q d)
    → ((d : Dep) → P d → Q (f d))
    → All P ds
    → All Q (modify i f ds)
All-modify P Q f i [] h k a = tt
All-modify P Q f zero (d ∷ ds) h k a = (k d a.0, rest ds a.1)
  where
    rest : (xs : List Dep) → All P xs → All Q xs
    rest [] b = tt
    rest (x ∷ xs) b = (h x b.0, rest xs b.1)
All-modify P Q f (suc i) (d ∷ ds) h k a = (h d a.0, All-modify P Q f i ds h k a.1)

pub All-map_deps :
    (P Q : Dep → Type 0) (f : Dep → Dep) (ds : List Dep)
    → ((d : Dep) → P d → Q (f d))
    → All P ds
    → All Q (map_deps f ds)
All-map_deps P Q f [] k a = tt
All-map_deps P Q f (d ∷ ds) k a = (k d a.0, All-map_deps P Q f ds k a.1)

pub All-map : (P Q : Dep → Type 0) (ds : List Dep) → ((d : Dep) → P d → Q d) → All P ds → All Q ds
All-map P Q [] k a = tt
All-map P Q (d ∷ ds) k a = (k d a.0, All-map P Q ds k a.1)

pub complete-Kept :
    (st : State) (c : Bool) (ph : Phase) (d : Dep) → Kept st c ph d → Kept st c ph (complete d)
complete-Kept st c ph d h = ground (arith, h)

pub see_dep-Kept :
    (st : State) (c : Bool) (ph : Phase) (d : Dep) → Kept st c ph d → Kept st c ph (see_dep d)
unfolding see_dep
see_dep-Kept st c ph d h = ground (arith, h)

pub see_cancel-Kept :
    (st : State) (c : Bool) (ph : Phase) (d : Dep)
    → st ≡ state_done
    → Kept st c ph d
    → Kept st true ph (see_cancel d)
unfolding see_cancel
see_cancel-Kept st c ph d e h = ground (arith, h)

pub release_late-Kept :
    (st : State) (c : Bool) (ph : Phase) (d : Dep) → Kept st c ph d → Kept st c ph (release_late d)
unfolding release_late
release_late-Kept st c ph d h = ground (arith, h)
