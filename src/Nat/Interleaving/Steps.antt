-- ===== src/Nat/Interleaving/Steps.antt =====
-- What the steps of BeginLock, finalizeLock and Expire keep, whichever goroutine makes them.
use astrald.Prelude.{ℕ, ◌<◌, ◌≡◌, ◌⊎◌, inl, inr, arith, ◌==◌, Bool, true, false, Bool-cases, update}
use astrald.Nat.{PingMap, Hole, is_over}
use astrald.Nat.Interleaving.{
  Pc, outside, lock_clears, lock_closes, lock_looks, lock_shuts, expire_closes, expire_clears,
  expire_looks, expire_shuts, World, act, put,
}

-- Whether a goroutine has still to close the socket, and to see to lockedCh.
abbrev pub will_close : Pc → Bool
will_close lock_clears = true
will_close lock_closes = true
will_close expire_closes = true
will_close _ = false

abbrev pub will_shut : Pc → Bool
will_shut lock_clears = true
will_shut lock_closes = true
will_shut lock_looks = true
will_shut lock_shuts = true
will_shut expire_closes = true
will_shut expire_clears = true
will_shut expire_looks = true
will_shut expire_shuts = true
will_shut _ = false

module _ (maps : PingMap) where
  -- The socket and lockedCh are closed, and goroutines are about to, only in a hole that is over; and
  -- in such a hole each of the two is done or still ahead of some goroutine.
  pub record IsSafe (w : World maps) : Type 0 where
    pub closed : w.hole.conn_open ≡ false → is_over w.hole.state ≡ true
    pub shut : 0 < w.hole.locked_closes → is_over w.hole.state ≡ true
    pub ahead : (i : ℕ) → will_shut (w.threads i) ≡ true → is_over w.hole.state ≡ true
    pub closes :
        is_over w.hole.state ≡ true
        → (w.hole.conn_open ≡ false) ⊎ ((i : ℕ) × (will_close (w.threads i) ≡ true))
    pub shuts :
        is_over w.hole.state ≡ true
        → (0 < w.hole.locked_closes) ⊎ ((i : ℕ) × (will_shut (w.threads i) ≡ true))

  pub act-state : (pc : Pc) (h : Hole maps) → (act maps pc h).0.state ≡ h.state
  unfolding act
  act-state pc h = ground arith

  act-closed :
      (pc : Pc) (h : Hole maps)
      → (act maps pc h).0.conn_open ≡ false
      → (h.conn_open ≡ false) ⊎ (will_shut pc ≡ true)
  unfolding act
  act-closed pc h e = ground (arith, e)

  act-shut :
      (pc : Pc) (h : Hole maps)
      → 0 < (act maps pc h).0.locked_closes
      → (0 < h.locked_closes) ⊎ (will_shut pc ≡ true)
  unfolding act
  act-shut pc h e = ground (arith, e)

  act-ahead : (pc : Pc) (h : Hole maps) → will_shut (act maps pc h).1 ≡ true → will_shut pc ≡ true
  unfolding act
  act-ahead pc h e = ground (arith, e)

  act-closes :
      (pc : Pc) (h : Hole maps)
      → (h.conn_open ≡ false) ⊎ (will_close pc ≡ true)
      → ((act maps pc h).0.conn_open ≡ false) ⊎ (will_close (act maps pc h).1 ≡ true)
  unfolding act
  act-closes pc h e = ground (arith, e)

  act-shuts :
      (pc : Pc) (h : Hole maps)
      → (0 < h.locked_closes) ⊎ (will_shut pc ≡ true)
      → (0 < (act maps pc h).0.locked_closes) ⊎ (will_shut (act maps pc h).1 ≡ true)
  unfolding act
  act-shuts pc h e = ground (arith, e)

  act-keeps :
      (pc : Pc) (h : Hole maps)
      → (h.conn_open ≡ false → (act maps pc h).0.conn_open ≡ false)
        × (0 < h.locked_closes → 0 < (act maps pc h).0.locked_closes)
  unfolding act
  act-keeps pc h = ground arith

  -- A step maps of goroutine i that changes the hole to h and leaves it at pc.
  put-IsSafe :
      (i : ℕ) (h : Hole maps) (pc : Pc) (w : World maps)
      → IsSafe w
      → (is_over w.hole.state ≡ true → is_over h.state ≡ true)
      → (h.conn_open ≡ false → is_over h.state ≡ true)
      → (0 < h.locked_closes → is_over h.state ≡ true)
      → (will_shut pc ≡ true → is_over h.state ≡ true)
      → (is_over h.state ≡ true
          → (h.conn_open ≡ false) ⊎ ((j : ℕ) × (will_close (update w.threads i pc j) ≡ true)))
      → (is_over h.state ≡ true
          → (0 < h.locked_closes) ⊎ ((j : ℕ) × (will_shut (update w.threads i pc j) ≡ true)))
      → IsSafe (put maps i (h, pc) w)
  put-IsSafe i h pc w v over c s a cs ss = record {
    closed = c;
    shut = s;
    ahead = λ j e. ground (arith, v.ahead j, over, a, e);
    closes = cs;
    shuts = ss;
  }

  -- What some goroutine was about to do is done, or still ahead of some goroutine.
  still_ahead :
      (P : Pc → Bool) (A : Type 0) (f : ℕ → Pc) (i : ℕ) (pc : Pc)
      → (P (f i) ≡ true → A ⊎ (P pc ≡ true))
      → (j : ℕ) × (P (f j) ≡ true)
      → A ⊎ ((j : ℕ) × (P (update f i pc j) ≡ true))
  still_ahead P A f i pc h (j, e) = elim (Bool-cases (i == j)) [
    | inr other ↦ inr (j, ground (arith, other, e))
    | inl same ↦ done (h (ground (arith, same, e)))
  ]
    where
      done : A ⊎ (P pc ≡ true) → A ⊎ ((j : ℕ) × (P (update f i pc j) ≡ true))
      done (inl a) = inl a
      done (inr e') = inr (i, ground (arith, e'))

  pub advance-IsSafe :
      (i : ℕ) (w : World maps) → IsSafe w → IsSafe (put maps i (act maps (w.threads i) w.hole) w)
  advance-IsSafe i w v =
      let pc = w.threads i in
      let h = w.hole in
      let same = act-state pc h in
      put-IsSafe i (act maps pc h).0 (act maps pc h).1 w v (λ o. ground (arith, same, o))
        (λ e. ground (arith, same, act-closed pc h e, v.closed, v.ahead i))
        (λ e. ground (arith, same, act-shut pc h e, v.shut, v.ahead i))
        (λ e. ground (arith, same, act-ahead pc h e, v.ahead i))
        (λ o. elim (v.closes (ground (arith, same, o))) [
          | inl e ↦ inl ((act-keeps pc h).0 e)
          | inr later ↦
              still_ahead will_close _ w.threads i (act maps pc h).1 (λ e. act-closes pc h (inr e))
                later
        ])
        (λ o. elim (v.shuts (ground (arith, same, o))) [
          | inl e ↦ inl ((act-keeps pc h).1 e)
          | inr later ↦
              still_ahead will_shut _ w.threads i (act maps pc h).1 (λ e. act-shuts pc h (inr e))
                later
        ])

  -- A call of goroutine i changes the state only, to h's, before the first step maps of pc.
  pub changes-IsSafe :
      (i : ℕ) (h : Hole maps) (pc : Pc) (w : World maps)
      → IsSafe w
      → w.threads i ≡ outside
      → h.conn_open ≡ w.hole.conn_open
      → h.locked_closes ≡ w.hole.locked_closes
      → (is_over w.hole.state ≡ true → is_over h.state ≡ true)
      → (will_shut pc ≡ true → is_over h.state ≡ true)
      → ((is_over w.hole.state ≡ true)
          ⊎ (is_over h.state ≡ false)
          ⊎ ((will_close pc ≡ true) × (will_shut pc ≡ true)))
      → IsSafe (put maps i (h, pc) w)
  changes-IsSafe i h pc w v out c l over a cases =
      put-IsSafe i h pc w v over (λ e. ground (arith, c, e, v.closed, over))
        (λ e. ground (arith, l, e, v.shut, over)) a
        (λ o. elim cases [
          | inl was ↦ elim (v.closes was) [
            | inl e ↦ inl (ground (arith, c, e))
            | inr later ↦ still_ahead will_close _ w.threads i pc (λ e. absurd (cc (out, e))) later
          ]
          | inr (inl not_yet) ↦ absurd (cc (not_yet, o))
          | inr (inr (e, e')) ↦ inr (i, ground (arith, e))
        ])
        (λ o. elim cases [
          | inl was ↦ elim (v.shuts was) [
            | inl e ↦ inl (ground (arith, l, e))
            | inr later ↦ still_ahead will_shut _ w.threads i pc (λ e. absurd (cc (out, e))) later
          ]
          | inr (inl not_yet) ↦ absurd (cc (not_yet, o))
          | inr (inr (e, e')) ↦ inr (i, ground (arith, e'))
        ])
