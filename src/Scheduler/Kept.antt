-- ===== src/Scheduler/Kept.antt =====
-- How each change of a dependency, of the task or of the runner's phase keeps the invariant.
use astrald.Prelude.{
  ℕ, ◌≤◌, ◌≡◌, ◌≢◌, refl, ◌⊎◌, inl, inr, arith, Bool, true, false, ◌&&◌, Option, List, [], ◌∷◌, ltb,
  All, Bool-cases,
}
use astrald.Scheduler.ScheduledTask.{
  ScheduledTask, State, state_scheduled, state_running, state_done, new, close_done, store_results,
  cancel_with_error,
}
use astrald.Scheduler.Runner.{
  Dep, Phase, waits_deps, starts, runs_task, finished, Runner, waiter_sees_cancel, modify,
  is_selecting, selecting_at, all_left, see_cancel, release_taken, finish, schedule, step,
}
use astrald.Scheduler.Invariant.{
  is_finished, Kept, IsClosedOnce, IsValid, All-modify, All-map_deps, All-map, see_cancel-Kept,
}

release_taken-Kept :
    (st : State) (c : Bool) (ph : Phase) (d : Dep)
    → is_finished ph ≡ false
    → Kept st c ph d × (is_selecting d.waiter ≡ false)
    → Kept state_done c finished (release_taken d)
unfolding release_taken
release_taken-Kept st c ph d e h = ground (arith, h)

canceled-Kept : (st : State) (c : Bool) (ph : Phase) (d : Dep) → Kept st c ph d → Kept st true ph d
canceled-Kept st c ph d h = ground (arith, h)

pub starts-Kept :
    (st : State) (c : Bool) (ph : Phase) (d : Dep)
    → c ≡ false
    → ph ≡ waits_deps
    → Kept st c ph d × (is_selecting d.waiter ≡ false)
    → Kept st c starts d
starts-Kept st c ph d calm e h = ground (arith, h)

-- Past the wait and not canceled: every dependency was taken.
pub runs-Kept :
    (st : State) (c : Bool) (d : Dep) → Kept st c starts d → Kept state_running c runs_task d
runs-Kept st c d h = ground (arith, h)

-- The task's state may change to done at any time, and to running once no waiter waits for it.
done-Kept : (st : State) (c : Bool) (ph : Phase) (d : Dep) → Kept st c ph d → Kept state_done c ph d
done-Kept st c ph d h = ground (arith, h)

pub left :
    (P : Dep → Type 0) (ds : List Dep)
    → all_left ds ≡ true
    → All P ds
    → All (λ d. P d × (is_selecting d.waiter ≡ false)) ds
left P [] e a = tt
left P (d ∷ ds) e a = ((a.0, ground arith), left P ds (ground arith) a.1)

pub past_waiting :
    (st : State) (c : Bool) (ph : Phase) (d : Dep)
    → ph ≢ waits_deps
    → Kept st c ph d
    → Kept st c ph d × (is_selecting d.waiter ≡ false)
past_waiting st c ph d ne h = (h, ground (arith, h, ne))

pub finish-IsValid :
    (r : Runner) (t : ScheduledTask)
    → is_finished r.phase ≡ false
    → IsClosedOnce t
    → t.state ≡ state_done
    → r.runs ≤ 1
    → All (λ d. Kept r.task.state r.canceled r.phase d × (is_selecting d.waiter ≡ false)) r.deps
    → IsValid (finish (record r { task = t }))
unfolding finish
finish-IsValid r t going closed over once a = record {
  closed = closed;
  in_step = (over, once);
  stopped = λ e. over;
  listed = refl;
  kept = rw over (
      All-map_deps _ _ release_taken r.deps
        (λ d h. release_taken-Kept r.task.state r.canceled r.phase d going h) a);
}

pub store_results-done :
    (err : Option ℕ) (t : ScheduledTask)
    → IsClosedOnce t
    → IsClosedOnce (store_results err t) × ((store_results err t).state ≡ state_done)
unfolding store_results close_done
store_results-done err t h = ground (arith, h)

cancel-closed :
    (err : Option ℕ) (t : ScheduledTask) → IsClosedOnce t → IsClosedOnce (cancel_with_error err t)
unfolding cancel_with_error close_done
cancel-closed err t h = ground (arith, h)

cancel-state :
    (err : Option ℕ) (t : ScheduledTask)
    → (((cancel_with_error err t).state ≡ t.state)
        ⊎ ((t.state ≢ state_running) × ((cancel_with_error err t).state ≡ state_done)))
unfolding cancel_with_error close_done
cancel-state err t = ground arith

pub schedule-IsValid : (kinds : List Bool) → IsValid (schedule kinds)
unfolding schedule new
schedule-IsValid kinds = record {
  closed = inr (λ e. cc, refl, refl);
  in_step = (λ e. cc, refl);
  stopped = λ e. cc;
  listed = refl;
  kept = all_fresh kinds;
}
  where
    all_fresh : (ks : List Bool) → All (Kept state_scheduled false waits_deps) (schedule ks).deps
    all_fresh [] = tt
    all_fresh (k ∷ ks) = ((refl, refl), all_fresh ks)

pub cancels-IsValid :
    (err : Option ℕ) (r : Runner)
    → IsValid r
    → IsValid (record r { task = cancel_with_error err r.task })
cancels-IsValid err r v = elim (cancel-state err r.task) [
  | inl e ↦ record {
    closed = cancel-closed err r.task v.closed;
    in_step = rw e v.in_step;
    stopped = rw e v.stopped;
    listed = v.listed;
    kept = rw e v.kept;
  }
  | inr (idle, e) ↦ record {
    closed = cancel-closed err r.task v.closed;
    in_step = ground (arith, v.in_step, e, idle);
    stopped = λ c. e;
    listed = v.listed;
    kept = rw e (All-map _ _ r.deps (λ d h. done-Kept r.task.state r.canceled r.phase d h) v.kept);
  }
]

is_closed : (t : ScheduledTask) → IsClosedOnce t → ltb 0 t.done_closes ≡ true → t.state ≡ state_done
is_closed t h e = ground (arith, h)

pub waiter_sees_cancel-IsValid :
    (i : ℕ) (r : Runner) → IsValid r → IsValid (step (waiter_sees_cancel i) r)
unfolding step
waiter_sees_cancel-IsValid i r v =
    elim (Bool-cases (ltb 0 r.task.done_closes && selecting_at i r.deps)) [
      | inr e ↦ rw (e, step) v
      | inl e ↦
          let over = is_closed r.task v.closed (ground arith) in
          rw (e, step)
            (record {
              closed = v.closed;
              in_step = v.in_step;
              stopped = λ c. over;
              listed = v.listed;
              kept =
                  All-modify _ _ see_cancel i r.deps
                    (λ d h. canceled-Kept r.task.state r.canceled r.phase d h)
                    (λ d h. see_cancel-Kept r.task.state r.canceled r.phase d over h) v.kept;
            })
    ]

pub set_deps-IsValid :
    (f : Dep → Dep) (i : ℕ) (r : Runner)
    → IsValid r
    → ((d : Dep)
        → Kept r.task.state r.canceled r.phase d
        → Kept r.task.state r.canceled r.phase (f d))
    → IsValid (record r { deps = modify i f r.deps })
set_deps-IsValid f i r v k = record {
  closed = v.closed;
  in_step = v.in_step;
  stopped = v.stopped;
  listed = v.listed;
  kept = All-modify _ _ f i r.deps (λ d h. h) k v.kept;
}
