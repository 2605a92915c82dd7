-- ===== src/Nat/Interleaving.antt =====
-- mod/nat/src/hole.go: BeginLock, finalizeLock and Expire of many goroutines on one hole, step by
-- step in any order.
pub mod Steps
pub mod Safety
use astrald.Prelude.{
  ℕ, suc, ◌<◌, ◌≡◌, refl, ◌⊎◌, inl, inr, arith, ◌==◌, Bool, true, false, List, [], ◌∷◌, ◌++◌,
  if◌then◌else◌, Bool-cases, update,
}
use astrald.Nat.{
  HoleState, state_idle, state_in_locking, state_locked, state_expired, PingMap, Hole, is_over,
  new_hole, swap_in_locking, swap_locked, store_start, store_expired, clear_pings, close_conn, wake,
}

-- Where a goroutine stands: outside these calls, or before a step of one. Looking at lockedCh and
-- closing it are two steps.
pub data Pc : Type 0 where
  outside : Pc
  to_start : ℕ → Pc
  lock_clears lock_closes lock_looks lock_shuts : Pc
  expire_closes expire_clears expire_looks expire_shuts expire_tells : Pc

pub data Event (maps : PingMap) : Type 0 where
  begins : ℕ → ℕ → Event maps
  finalizes expires advances : ℕ → Event maps
  sets_pings : maps.Map → Event maps

pub record World (maps : PingMap) : Type 0 where
  pub hole : Hole maps
  pub threads : ℕ → Pc

-- The states that can follow a state in one step or more.
abbrev pub can_follow : HoleState → HoleState → Bool
can_follow state_idle _ = true
can_follow state_in_locking state_idle = false
can_follow state_in_locking _ = true
can_follow state_locked state_locked = true
can_follow state_locked state_expired = true
can_follow state_locked _ = false
can_follow state_expired state_expired = true
can_follow state_expired _ = false

module _ (maps : PingMap) where
  -- The next step of a goroutine: BeginLock's lockStart and wake, then those of finalizeLock and of
  -- Expire in their order.
  unfoldable pub act : Pc → Hole maps → Hole maps × Pc
  act outside h = (h, outside)
  act (to_start now) h = (wake maps (store_start maps now h), outside)
  act lock_clears h = (clear_pings maps h, lock_closes)
  act lock_closes h = (close_conn maps h, lock_looks)
  act lock_looks h = (h, if h.locked_closes == 0 then lock_shuts else outside)
  act lock_shuts h = (record h { locked_closes = suc h.locked_closes }, outside)
  act expire_closes h = (close_conn maps h, expire_clears)
  act expire_clears h = (clear_pings maps h, expire_looks)
  act expire_looks h = (h, if h.locked_closes == 0 then expire_shuts else expire_tells)
  act expire_shuts h = (record h { locked_closes = suc h.locked_closes }, expire_tells)
  act expire_tells h = (wake maps (record h { expirations = suc h.expirations }), outside)

  abbrev pub put : ℕ → Hole maps × Pc → World maps → World maps
  put i (h, pc) w = record { hole = h; threads = update w.threads i pc }

  -- A goroutine makes a call only when it is outside.
  unfoldable pub enter : Pc → ℕ → Hole maps × Pc → World maps → World maps
  enter outside i r w = put i r w
  enter _ i r w = w

  unfoldable pub start_locking : ℕ → Hole maps → Hole maps × Pc
  start_locking now h =
      let (h', swapped) = swap_in_locking maps h in (h', if swapped then to_start now else outside)

  unfoldable pub finish_locking : Hole maps → Hole maps × Pc
  finish_locking h =
      let (h', swapped) = swap_locked maps h in (h', if swapped then lock_clears else outside)

  -- The run loop and the receiver change the pings at any time.
  unfoldable pub step : Event maps → World maps → World maps
  step (begins i now) w = enter (w.threads i) i (start_locking now w.hole) w
  step (finalizes i) w = enter (w.threads i) i (finish_locking w.hole) w
  step (expires i) w = enter (w.threads i) i (store_expired maps w.hole, expire_closes) w
  step (advances i) w = put i (act (w.threads i) w.hole) w
  step (sets_pings m) w = record w { hole = record w.hole { pings = m } }

  unfoldable pub run : List (Event maps) → World maps → World maps
  run [] w = w
  run (e ∷ es) w = run es (step e w)

  -- A new hole, that no goroutine is at.
  abbrev pub start : ℕ → World maps
  start now = record { hole = new_hole maps now; threads = λ i. outside }
