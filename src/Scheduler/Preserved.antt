-- ===== src/Scheduler/Preserved.antt =====
-- Every step of a runner keeps the invariant.
use astrald.Prelude.{
  ℕ, suc, ◌≡◌, ◌≢◌, ◌⊎◌, inl, inr, arith, true, false, Option, List, [], ◌∷◌, Bool-cases,
}
use astrald.Scheduler.ScheduledTask.{
  live, State, state_scheduled, state_running, state_done, prepare, store_results,
}
use astrald.Scheduler.Runner.{
  Phase, waits_deps, starts, runs_task, finished, Runner, Event, dep_completes, waiter_sees_dep,
  waiter_sees_cancel, late_release, wait_ends, prepares, task_returns, cancels, all_left, complete,
  see_dep, release_late, finish, step, run,
}
use astrald.Scheduler.Invariant.{IsValid, All-map, complete-Kept, see_dep-Kept, release_late-Kept}
use astrald.Scheduler.Kept.{
  starts-Kept, runs-Kept, left, past_waiting, finish-IsValid, store_results-done, cancels-IsValid,
  waiter_sees_cancel-IsValid, set_deps-IsValid,
}

Phase-cases : (ph : Phase) → (ph ≡ waits_deps) ⊎ (ph ≡ starts) ⊎ (ph ≡ runs_task) ⊎ (ph ≡ finished)
Phase-cases ph = ground arith

wait_ends-finish :
    (r : Runner)
    → r.phase ≡ waits_deps
    → all_left r.deps ≡ true
    → r.canceled ≡ true
    → step wait_ends r ≡ finish r
unfolding step
wait_ends-finish r e out c = rw (e, step, out) (ground (arith, c))

wait_ends_starts :
    (r : Runner)
    → r.phase ≡ waits_deps
    → all_left r.deps ≡ true
    → r.canceled ≡ false
    → step wait_ends r ≡ record r { phase = starts }
unfolding step
wait_ends_starts r e out c = ground arith

wait_ends_stays :
    (r : Runner) → (r.phase ≢ waits_deps) ⊎ (all_left r.deps ≡ false) → step wait_ends r ≡ r
unfolding step
wait_ends_stays r h = ground (arith, Phase-cases r.phase)

wait_ends-IsValid : (r : Runner) → IsValid r → IsValid (step wait_ends r)
wait_ends-IsValid r v = elim (Phase-cases r.phase) [
  | inr h ↦ rw (wait_ends_stays r (inl (λ w. ground (arith, h, w)))) v
  | inl e ↦ elim (Bool-cases (all_left r.deps)) [
    | inr more ↦ rw (wait_ends_stays r (inr more)) v
    | inl out ↦ elim (Bool-cases r.canceled) [
      | inl c ↦ rw (wait_ends-finish r e out c) (
          finish-IsValid r r.task (rw e) v.closed (v.stopped c) (ground (arith, v.in_step, e))
            (left _ r.deps out v.kept))
      | inr c ↦ rw (wait_ends_starts r e out c) (record {
        closed = v.closed;
        in_step = ground (arith, v.in_step, e);
        stopped = v.stopped;
        listed = ground (arith, v.listed, e);
        kept =
            All-map _ _ r.deps (λ d h. starts-Kept r.task.state r.canceled r.phase d c e h)
              (left _ r.deps out v.kept);
      })
    ]
  ]
]

State-cases : (st : State) → (st ≡ state_scheduled) ⊎ (st ≡ state_running) ⊎ (st ≡ state_done)
State-cases st = ground arith

prepares_runs :
    (r : Runner)
    → r.phase ≡ starts
    → r.task.state ≡ state_scheduled
    → step prepares r ≡ record r {
      task = record r.task { ctx = live; state = state_running };
      phase = runs_task;
      runs = suc r.runs;
    }
unfolding step prepare
prepares_runs r e fresh = ground arith

prepares-finish :
    (r : Runner) → r.phase ≡ starts → r.task.state ≡ state_done → step prepares r ≡ finish r
unfolding step prepare
prepares-finish r e over = ground arith

prepares_stays : (r : Runner) → r.phase ≢ starts → step prepares r ≡ r
unfolding step
prepares_stays r h = ground (arith, Phase-cases r.phase)

prepares-IsValid : (r : Runner) → IsValid r → IsValid (step prepares r)
prepares-IsValid r v = elim (Phase-cases r.phase) [
  | inl e ↦ rw (prepares_stays r (λ w. cc (e, w))) v
  | inr (inr h) ↦ rw (prepares_stays r (λ w. ground (arith, h, w))) v
  | inr (inl e) ↦ elim (State-cases r.task.state) [
    | inl fresh ↦ rw (prepares_runs r e fresh) (record {
      closed = ground (arith, v.closed, fresh);
      in_step = ground (arith, v.in_step, e);
      stopped = λ c. ground (arith, v.stopped c, fresh);
      listed = ground (arith, v.listed, e);
      kept =
          All-map _ _ r.deps (λ d h. runs-Kept r.task.state r.canceled d (ground (arith, h, e)))
            v.kept;
    })
    | inr (inl on) ↦ absurd (ground (arith, v.in_step, e, on))
    | inr (inr over) ↦ rw (prepares-finish r e over) (
        finish-IsValid r r.task (rw e) v.closed over (ground (arith, v.in_step, e)) (
          All-map _ _ r.deps
            (λ d h. past_waiting r.task.state r.canceled r.phase d (λ w. cc (e, w)) h) v.kept))
  ]
]

task_returns-IsValid :
    (err : Option ℕ) (r : Runner) → IsValid r → IsValid (step (task_returns err) r)
unfolding step
task_returns-IsValid err r v = elim (Phase-cases r.phase) [
  | inl e ↦ rw (e, step) v
  | inr (inl e) ↦ rw (e, step) v
  | inr (inr (inr e)) ↦ rw (e, step) v
  | inr (inr (inl e)) ↦
      let (closed, over) = store_results-done err r.task v.closed in
      rw (e, step)
        (finish-IsValid r (store_results err r.task) (rw e) closed over
          (ground (arith, v.in_step, e))
          (All-map _ _ r.deps
            (λ d h. past_waiting r.task.state r.canceled r.phase d (λ w. cc (e, w)) h) v.kept))
]

step-IsValid : (e : Event) (r : Runner) → IsValid r → IsValid (step e r)
unfolding step
step-IsValid (dep_completes i) r v =
    set_deps-IsValid complete i r v (λ d h. complete-Kept r.task.state r.canceled r.phase d h)
step-IsValid (waiter_sees_dep i) r v =
    set_deps-IsValid see_dep i r v (λ d h. see_dep-Kept r.task.state r.canceled r.phase d h)
step-IsValid (waiter_sees_cancel i) r v = waiter_sees_cancel-IsValid i r v
step-IsValid (late_release i) r v =
    set_deps-IsValid release_late i r v
      (λ d h. release_late-Kept r.task.state r.canceled r.phase d h)
step-IsValid wait_ends r v = wait_ends-IsValid r v
step-IsValid prepares r v = prepares-IsValid r v
step-IsValid (task_returns err) r v = task_returns-IsValid err r v
step-IsValid (cancels err) r v = cancels-IsValid err r v

pub run-IsValid : (es : List Event) (r : Runner) → IsValid r → IsValid (run es r)
unfolding run
run-IsValid [] r v = v
run-IsValid (e ∷ es) r v = run-IsValid es (step e r) (step-IsValid e r v)
