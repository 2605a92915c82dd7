-- ===== src/Nat/Interleaving/Safety.antt =====
-- What holds of a hole in every order of its goroutines' steps.
use astrald.Prelude.{ℕ, ◌<◌, ◌≡◌, refl, inl, inr, arith, true, false, List, [], ◌∷◌, ◌++◌}
use astrald.Nat.{
  HoleState, PingMap, Hole, is_over, new_hole, swap_in_locking, swap_locked, store_expired,
}
use astrald.Nat.Interleaving.{
  Pc, outside, expire_closes, Event, begins, finalizes, expires, advances, sets_pings, World,
  can_follow, put, enter, start_locking, finish_locking, step, run, start,
}
use astrald.Nat.Interleaving.Steps.{IsSafe, act-state, advance-IsSafe, changes-IsSafe}

module _ (maps : PingMap) where
  enter-IsSafe :
      (pc : Pc) (i : ℕ) (r : Hole maps × Pc) (w : World maps)
      → IsSafe maps w
      → (pc ≡ outside → IsSafe maps (put maps i r w))
      → IsSafe maps (enter maps pc i r w)
  unfolding enter
  enter-IsSafe outside i r w v h = h refl
  enter-IsSafe _ i r w v h = v

  start_locking-IsSafe :
      (i now : ℕ) (w : World maps)
      → IsSafe maps w
      → w.threads i ≡ outside
      → IsSafe maps (put maps i (start_locking maps now w.hole) w)
  unfolding start_locking swap_in_locking
  start_locking-IsSafe i now w v out =
      let r = start_locking maps now w.hole in
      changes-IsSafe maps i r.0 r.1 w v out (ground arith) (ground arith) (λ e. ground (arith, e))
        (λ e. ground (arith, e)) (ground arith)

  finish_locking-IsSafe :
      (i : ℕ) (w : World maps)
      → IsSafe maps w
      → w.threads i ≡ outside
      → IsSafe maps (put maps i (finish_locking maps w.hole) w)
  unfolding finish_locking swap_locked
  finish_locking-IsSafe i w v out =
      let r = finish_locking maps w.hole in
      changes-IsSafe maps i r.0 r.1 w v out (ground arith) (ground arith) (λ e. ground (arith, e))
        (λ e. ground (arith, e)) (ground arith)

  step-IsSafe : (e : Event maps) (w : World maps) → IsSafe maps w → IsSafe maps (step maps e w)
  unfolding step
  step-IsSafe (begins i now) w v =
      enter-IsSafe (w.threads i) i (start_locking maps now w.hole) w v
        (start_locking-IsSafe i now w v)
  step-IsSafe (finalizes i) w v =
      enter-IsSafe (w.threads i) i (finish_locking maps w.hole) w v (finish_locking-IsSafe i w v)
  step-IsSafe (expires i) w v =
      enter-IsSafe (w.threads i) i (store_expired maps w.hole, expire_closes) w v
        (λ out.
          changes-IsSafe maps i (store_expired maps w.hole) expire_closes w v out refl refl
            (λ e. refl) (λ e. refl) (inr (inr (refl, refl))))
  step-IsSafe (advances i) w v = advance-IsSafe maps i w v
  step-IsSafe (sets_pings m) w v = record {
    closed = v.closed;
    shut = v.shut;
    ahead = v.ahead;
    closes = v.closes;
    shuts = v.shuts;
  }

  abbrev Follows : World maps → World maps → Type 0
  Follows w w' = can_follow w.hole.state w'.hole.state ≡ true

  enter-Follows :
      (pc : Pc) (i : ℕ) (r : Hole maps × Pc) (w : World maps)
      → can_follow w.hole.state r.0.state ≡ true
      → Follows w (enter maps pc i r w)
  unfolding enter
  enter-Follows outside i r w h = h
  enter-Follows _ i r w h = ground arith

  step-Follows : (e : Event maps) (w : World maps) → Follows w (step maps e w)
  unfolding step start_locking finish_locking swap_in_locking swap_locked
  step-Follows (begins i now) w =
      enter-Follows (w.threads i) i (start_locking maps now w.hole) w (ground arith)
  step-Follows (finalizes i) w =
      enter-Follows (w.threads i) i (finish_locking maps w.hole) w (ground arith)
  step-Follows (expires i) w =
      enter-Follows (w.threads i) i (store_expired maps w.hole, expire_closes) w (ground arith)
  step-Follows (advances i) w = ground (arith, act-state maps (w.threads i) w.hole)
  step-Follows (sets_pings m) w = ground arith

  can_follow_trans :
      (a b d : HoleState) → can_follow a b ≡ true → can_follow b d ≡ true → can_follow a d ≡ true
  can_follow_trans a b d h k = ground (arith, h, k)

  run-IsSafe :
      (es : List (Event maps)) (w : World maps)
      → IsSafe maps w
      → IsSafe maps (run maps es w) × Follows w (run maps es w)
  unfolding run
  run-IsSafe [] w v = (v, ground arith)
  run-IsSafe (e ∷ es) w v =
      let w' = step maps e w in
      let (v', f) = run-IsSafe es w' (step-IsSafe e w v) in
      (
        v',
        can_follow_trans w.hole.state w'.hole.state (run maps es w').hole.state (step-Follows e w)
            f,
      )

  run-append :
      (es fs : List (Event maps)) (w : World maps)
      → run maps (es ++ fs) w ≡ run maps fs (run maps es w)
  unfolding run
  run-append [] fs w = refl
  run-append (e ∷ es) fs w = run-append es fs (step maps e w)

  -- Any number of goroutines call BeginLock, finalizeLock and Expire on a new hole, with their steps
  -- in any order, and the pings change at any time. The socket is closed, and lockedCh is closed,
  -- only once the hole is locked or expired; when no goroutine is in a call and the hole is one of
  -- them, both have been closed; and whatever comes after, the hole never goes back: not to idle
  -- once a lock has begun, and from locked only to expired. That lockedCh is closed once only is not
  -- stated.
  pub run-new_hole :
      (now : ℕ) (es fs : List (Event maps))
      → let w = run maps es (start maps now) in
        let h = w.hole in
        (h.conn_open ≡ false → is_over h.state ≡ true)
        × (0 < h.locked_closes → is_over h.state ≡ true)
        × (((i : ℕ) → w.threads i ≡ outside)
            → is_over h.state ≡ true
            → (h.conn_open ≡ false) × (0 < h.locked_closes))
        × (can_follow h.state (run maps (es ++ fs) (start maps now)).hole.state ≡ true)
  unfolding new_hole
  run-new_hole now es fs =
      let fresh : IsSafe maps (start maps now) = record {
        closed = λ e. cc e;
        shut = λ e. absurd (omega (arith, e));
        ahead = λ i e. cc e;
        closes = λ e. cc e;
        shuts = λ e. cc e;
      } in
      let (v, f) = run-IsSafe es (start maps now) fresh in
      let w = run maps es (start maps now) in
      (
        v.closed,
        v.shut,
        λ rest o. (
          elim (v.closes o) [ inl e ↦ e | inr (i, e) ↦ absurd (cc (rest i, e)) ],
          elim (v.shuts o) [ inl e ↦ e | inr (i, e) ↦ absurd (cc (rest i, e)) ],
        ),
        rw (run-append es fs (start maps now)) (run-IsSafe fs w v).1,
      )
