-- ===== src/Nodes/Mux/Registry/Later.antt =====
-- What comes later in a mux: a session that has left routing has not gone back, and has no more
-- results in its channel. The frame handlers and Close keep to that.
use astrald.Prelude.{
  ℕ, ◌≤◌, ◌<◌, ◌≡◌, inl, inr, arith, Bool, false, Option, some, List, length, ◌==◌, Option-cases,
  Bool-cases,
}
use astrald.Nodes.Callbacks.{Wire}
use astrald.Nodes.Session.{
  Session, state_routing, state_migrating, new_session, setup, open_session, swap_state, same_state,
}
use astrald.Nodes.Session.Reader
use astrald.Nodes.Mux.{SigMap, Mux, update}
use astrald.Nodes.Mux.Sessions.{close_session, create_session}
use astrald.Nodes.Mux.Handlers.{
  handle_response, response_for, data_for, takes_data, is_answered_by, handle_data, handle_read,
  handle_reset, handle_migrate,
}
use astrald.Nodes.Mux.Registry.{PushResult-cases}

abbrev pub is_routing : Session → Bool
is_routing s = same_state s.state state_routing

-- A session that was not routing still is not, and has no more results in its channel than before.
abbrev pub Settles : Session → Session → Type 0
Settles s s' =
    is_routing s ≡ false
    → (is_routing s' ≡ false) × (length s'.routing_result ≤ length s.routing_result)

module _ {maps : SigMap} {W : Type 0} where
  abbrev pub IsLater : Mux maps W → Mux maps W → Type 0
  IsLater m m' = (m.made ≤ m'.made) × ((p : ℕ) → p < m.made → Settles (m.store p) (m'.store p))

  pub IsLater-refl : (m : Mux maps W) → IsLater m m
  IsLater-refl m = (omega arith, λ p l e. (e, omega arith))

  pub IsLater-trans : (m n o : Mux maps W) → IsLater m n → IsLater n o → IsLater m o
  IsLater-trans m n o (g, h) (g', h') =
      (omega (arith, g, g'), λ p l e. ground (arith, g, h p l e, h' p))

  pub update-IsLater :
      (m : Mux maps W) (p : ℕ) (s : Session) (w : W)
      → Settles (m.store p) s
      → IsLater m (record m { store = update m.store p s; wire_state = w })
  update-IsLater m p s w h = (omega arith, λ q l e. ground (arith, h, e))

module _ (maps : SigMap) {W : Type 0} (wire : Wire W) where
  pub close_session-IsLater : (p : ℕ) (m : Mux maps W) → IsLater m (close_session maps wire p m)
  unfolding close_session
  close_session-IsLater p m = elim (Bool-cases (m.store p).closed) [
    | inl done ↦ rw (done, close_session) (IsLater-refl m)
    | inr still ↦ rw (still, close_session) (omega arith, λ q l e. ground (arith, e))
  ]

  -- A change that may close the session after it.
  pub then_close :
      (p : ℕ) (m n : Mux maps W) → IsLater m n → IsLater m (close_session maps wire p n)
  then_close p m n h = IsLater-trans m n (close_session maps wire p n) h (close_session-IsLater p n)

  pub create_session-IsLater :
      (fresh nonce remote : ℕ) (source : Option ℕ) (q : List ℕ) (outbound : Bool) (n : ℕ)
      (m : Mux maps W)
      → IsLater m (create_session maps wire fresh nonce remote source q outbound n m).0
  unfolding create_session setup new_session
  create_session-IsLater fresh nonce remote source q outbound n m =
      elim (Bool-cases (maps.set nonce m.made m.sessions).1) [
        | inl set ↦ (ground (arith, set), λ p l e. ground (arith, set, l, e))
        | inr taken ↦ (ground (arith, taken), λ p l e. ground (arith, taken, e))
      ]

  pub handle_read-IsLater : (n l : ℕ) (m : Mux maps W) → IsLater m (handle_read maps wire n l m)
  unfolding handle_read
  handle_read-IsLater n l m = elim (Option-cases (maps.get n m.sessions)) [
    | inl e ↦ rw (e, handle_read) (IsLater-refl m)
    | inr (p, e) ↦ rw (e, handle_read) (update-IsLater m p _ m.wire_state (λ e'. (e', omega arith)))
  ]

  pub handle_migrate-IsLater : (n : ℕ) (m : Mux maps W) → IsLater m (handle_migrate maps wire n m)
  unfolding handle_migrate
  handle_migrate-IsLater n m = elim (Option-cases (maps.get n m.sessions)) [
    | inl e ↦ rw (e, handle_migrate) (IsLater-refl m)
    | inr (p, e) ↦ elim (Bool-cases (same_state (m.store p).state state_migrating)) [
      | inl on ↦ elim (Option-cases (m.store p).reader) [
        | inl none' ↦ rw (e, handle_migrate, on, none') (IsLater-refl m)
        | inr (r, some') ↦
            rw (e, handle_migrate, on, some')
              (update-IsLater m p _ m.wire_state (λ e'. (e', omega arith)))
      ]
      | inr off ↦ rw (e, handle_migrate, off) (IsLater-refl m)
    ]
  ]

  pub handle_reset-IsLater : (n : ℕ) (m : Mux maps W) → IsLater m (handle_reset maps wire n m)
  unfolding handle_reset
  handle_reset-IsLater n m = elim (Option-cases (maps.get n m.sessions)) [
    | inl e ↦ rw (e, handle_reset) (IsLater-refl m)
    | inr (p, e) ↦
        rw (e, handle_reset)
          (then_close p m _ (update-IsLater m p _ m.wire_state (λ e'. (e', omega arith))))
  ]

  data_for-IsLater : (p : ℕ) (pl : List ℕ) (m : Mux maps W) → IsLater m (data_for maps wire p pl m)
  unfolding data_for
  data_for-IsLater p pl m = elim (Option-cases (m.store p).reader) [
    | inl e ↦ rw (e, data_for) (IsLater-refl m)
    | inr (r, e) ↦
        let s : Session = record (m.store p) { reader = some (Reader.push pl r).0 } in
        let stored = update-IsLater m p s m.wire_state (λ e'. (e', omega arith)) in
        elim (PushResult-cases (Reader.push pl r).1) [
          | inl ok ↦ rw (e, data_for, ok) stored
          | inr (inl shut) ↦ rw (e, data_for, shut) (then_close p m _ stored)
          | inr (inr full) ↦ rw (e, data_for, full) (then_close p m _ stored)
        ]
  ]

  pub handle_data-IsLater :
      (n : ℕ) (pl : List ℕ) (m : Mux maps W) → IsLater m (handle_data maps wire n pl m)
  unfolding handle_data
  handle_data-IsLater n pl m = elim (Option-cases (maps.get n m.sessions)) [
    | inl e ↦ rw (e, handle_data) (IsLater-refl m)
    | inr (p, e) ↦ elim (Bool-cases (takes_data (m.store p).state)) [
      | inl t ↦
          rw (e, handle_data, t)
            (data_for-IsLater p pl
              (record m { wire_state = wire.on_bytes (length pl) m.wire_state }))
      | inr t ↦ rw (e, handle_data, t) (IsLater-refl m)
    ]
  ]

  response_for-IsLater : (p e b : ℕ) (m : Mux maps W) → IsLater m (response_for maps wire p e b m)
  unfolding response_for swap_state open_session
  response_for-IsLater p e b m = elim (Bool-cases (is_answered_by m.remote_identity (m.store p))) [
    | inr other ↦ rw (other, response_for) (IsLater-refl m)
    | inl ours ↦ elim (Bool-cases (same_state (m.store p).state state_routing)) [
      | inr late ↦ elim (Bool-cases (e == 0)) [
        | inl ok ↦ rw (ours, response_for, ok, late) (IsLater-refl m)
        | inr bad ↦ rw (ours, response_for, bad, late) (IsLater-refl m)
      ]
      | inl routing ↦ elim (Bool-cases (e == 0)) [
        | inl ok ↦
            rw (ours, response_for, ok, routing)
              (update-IsLater m p _ m.wire_state (λ e'. absurd (cc (routing, e'))))
        | inr bad ↦
            rw (ours, response_for, bad, routing)
              (update-IsLater m p _ m.wire_state (λ e'. absurd (cc (routing, e'))))
      ]
    ]
  ]

  pub handle_response-IsLater :
      (n e b : ℕ) (m : Mux maps W) → IsLater m (handle_response maps wire n e b m)
  unfolding handle_response
  handle_response-IsLater n e b m = elim (Option-cases (maps.get n m.sessions)) [
    | inl none' ↦ rw (none', handle_response) (IsLater-refl m)
    | inr (p, some') ↦ rw (some', handle_response) (response_for-IsLater p e b m)
  ]
