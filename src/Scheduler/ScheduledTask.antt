-- ===== src/Scheduler/ScheduledTask.antt =====
-- mod/scheduler/src/scheduled_task.go: ScheduledTask. A method that holds the mutex is one step. An
-- error is a number, `none` is nil. The timestamps are left out.
use astrald.Prelude.{ℕ, suc, Bool, true, false, Option, none, some, if◌then◌else◌}

pub data State : Type 0 where
  state_scheduled state_running state_done : State

pub data PrepareError : Type 0 where
  invalid_state context_is_nil : PrepareError

-- The context that prepare makes, and the cause that it was cancelled with.
pub data Ctx : Type 0 where
  no_ctx live : Ctx
  cancelled : Option ℕ → Ctx

-- `done_closes` counts the closes of the channel `done`, `done_once` says whether its Once has run.
pub record ScheduledTask : Type 0 where
  pub state : State
  pub done_closes : ℕ
  pub done_once : Bool
  pub ctx : Ctx
  pub err : Option ℕ

-- NewScheduledTask
unfoldable pub new : ScheduledTask
new = record {
  state = state_scheduled;
  done_closes = 0;
  done_once = false;
  ctx = no_ctx;
  err = none;
}

-- closeDone
unfoldable pub close_done : ScheduledTask → ScheduledTask
close_done t =
    if t.done_once then t else record t { done_once = true; done_closes = suc t.done_closes }

-- prepare; `ctx_given` says whether the context is not nil, and the result is none on success.
unfoldable pub prepare : Bool → ScheduledTask → ScheduledTask × Option PrepareError
prepare ctx_given t = elim t.state [
  | state_scheduled ↦
      if ctx_given
      then (record t { ctx = live; state = state_running }, none)
      else (t, some context_is_nil)
  | _ ↦ (t, some invalid_state)
]

-- What Run does once the task has returned `err`.
unfoldable pub store_results : Option ℕ → ScheduledTask → ScheduledTask
store_results err t =
    let kept : Option ℕ = elim t.err [ none ↦ err | some e ↦ some e ] in
    close_done (record t { err = kept; state = state_done })

-- The cancel function of a context: the first cause stays.
abbrev pub cancel_cause : Option ℕ → Ctx → Ctx
cancel_cause err no_ctx = no_ctx
cancel_cause err live = cancelled err
cancel_cause err (cancelled e) = cancelled e

-- CancelWithError
unfoldable pub cancel_with_error : Option ℕ → ScheduledTask → ScheduledTask
cancel_with_error err t = elim t.state [
  | state_done ↦ t
  | state_scheduled ↦ close_done (record t { err = err; state = state_done })
  | state_running ↦ record t { err = err; ctx = cancel_cause err t.ctx }
]
