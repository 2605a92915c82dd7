-- ===== src/Nodes/Mux/Registry/FrameHandlers.antt =====
-- The handlers of frames for a session keep the map of a mux.
use astrald.Prelude.{
  ℕ, ◌≤◌, ◌≡◌, refl, inl, inr, arith, true, false, some, List, [], ◌∷◌, ◌++◌, length, ◌==◌,
  Option-cases, Bool-cases, length-append,
}
use astrald.Nodes.Callbacks.{Wire}
use astrald.Nodes.Session.{
  Session, SessionState, state_routing, state_open, state_migrating, state_closed, open_session,
  swap_state, same_state,
}
use astrald.Nodes.Session.Reader
use astrald.Nodes.Mux.{SigMap, Mux}
use astrald.Nodes.Mux.Handlers.{
  handle_response, response_for, data_for, takes_data, is_answered_by, handle_data, handle_read,
  handle_reset, handle_migrate,
}
use astrald.Nodes.Mux.Registry.{
  HasOneVerdict, IsRegistry, PushResult-cases, update-IsRegistry, wire-IsRegistry,
  close_session-IsRegistry,
}

module _ (maps : SigMap) {W : Type 0} (wire : Wire W) (on_pong : ℕ → W → W) where
  pub handle_read-IsRegistry :
      (n l : ℕ) (m : Mux maps W) → IsRegistry m → IsRegistry (handle_read maps wire n l m)
  unfolding handle_read
  handle_read-IsRegistry n l m v = elim (Option-cases (maps.get n m.sessions)) [
    | inl e ↦ rw (e, handle_read) (wire-IsRegistry maps wire on_pong m _ v)
    | inr (p, e) ↦
        rw (e, handle_read)
          (update-IsRegistry maps wire on_pong m p _ m.wire_state v refl refl (v.one p))
  ]

  pub handle_migrate-IsRegistry :
      (n : ℕ) (m : Mux maps W) → IsRegistry m → IsRegistry (handle_migrate maps wire n m)
  unfolding handle_migrate
  handle_migrate-IsRegistry n m v = elim (Option-cases (maps.get n m.sessions)) [
    | inl e ↦ rw (e, handle_migrate) v
    | inr (p, e) ↦ elim (Bool-cases (same_state (m.store p).state state_migrating)) [
      | inl on ↦ elim (Option-cases (m.store p).reader) [
        | inl none' ↦ rw (e, handle_migrate, on, none') v
        | inr (r, some') ↦
            rw (e, handle_migrate, on, some')
              (update-IsRegistry maps wire on_pong m p _ m.wire_state v refl refl (v.one p))
      ]
      | inr off ↦ rw (e, handle_migrate, off) v
    ]
  ]

  pub handle_reset-IsRegistry :
      (n : ℕ) (m : Mux maps W) → IsRegistry m → IsRegistry (handle_reset maps wire n m)
  unfolding handle_reset
  handle_reset-IsRegistry n m v = elim (Option-cases (maps.get n m.sessions)) [
    | inl e ↦ rw (e, handle_reset) v
    | inr (p, e) ↦
        rw (e, handle_reset)
          (close_session-IsRegistry maps wire on_pong p _
            (update-IsRegistry maps wire on_pong m p _ m.wire_state v refl refl (v.one p)))
  ]

  data_for-IsRegistry :
      (p : ℕ) (pl : List ℕ) (m : Mux maps W) → IsRegistry m → IsRegistry (data_for maps wire p pl m)
  unfolding data_for
  data_for-IsRegistry p pl m v = elim (Option-cases (m.store p).reader) [
    | inl e ↦ rw (e, data_for) v
    | inr (r, e) ↦
        let stored =
          update-IsRegistry maps wire on_pong m p
            (record (m.store p) { reader = some (Reader.push pl r).0 }) m.wire_state v refl refl
            (v.one p) in
        elim (PushResult-cases (Reader.push pl r).1) [
          | inl ok ↦ rw (e, data_for, ok) stored
          | inr (inl shut) ↦
              rw (e, data_for, shut) (close_session-IsRegistry maps wire on_pong p _ stored)
          | inr (inr full) ↦
              rw (e, data_for, full) (close_session-IsRegistry maps wire on_pong p _ stored)
        ]
  ]

  pub handle_data-IsRegistry :
      (n : ℕ) (pl : List ℕ) (m : Mux maps W)
      → IsRegistry m
      → IsRegistry (handle_data maps wire n pl m)
  unfolding handle_data
  handle_data-IsRegistry n pl m v = elim (Option-cases (maps.get n m.sessions)) [
    | inl e ↦ rw (e, handle_data) (wire-IsRegistry maps wire on_pong m _ v)
    | inr (p, e) ↦ elim (Bool-cases (takes_data (m.store p).state)) [
      | inl t ↦
          rw (e, handle_data, t)
            (data_for-IsRegistry p pl _ (wire-IsRegistry maps wire on_pong m _ v))
      | inr t ↦ rw (e, handle_data, t) (wire-IsRegistry maps wire on_pong m _ v)
    ]
  ]

  HasOneVerdict-snoc :
      (s : Session) (next : SessionState) (code : ℕ)
      → HasOneVerdict s
      → same_state s.state state_routing ≡ true
      → same_state next state_routing ≡ false
      → (same_state next state_routing ≡ true → length (s.routing_result ++ (code ∷ [])) ≡ 0)
        × (length (s.routing_result ++ (code ∷ [])) ≤ 1)
  HasOneVerdict-snoc s next code one routing moved =
      (λ e. cc, omega (arith, length-append s.routing_result (code ∷ []), one.0 routing))

  response_for-IsRegistry :
      (p e b : ℕ) (m : Mux maps W) → IsRegistry m → IsRegistry (response_for maps wire p e b m)
  unfolding response_for swap_state open_session
  response_for-IsRegistry p e b m v =
      elim (Bool-cases (is_answered_by m.remote_identity (m.store p))) [
        | inr other ↦ rw (other, response_for) v
        | inl ours ↦ elim (Bool-cases (same_state (m.store p).state state_routing)) [
          | inr late ↦ elim (Bool-cases (e == 0)) [
            | inl ok ↦ rw (ours, response_for, ok, late) v
            | inr bad ↦ rw (ours, response_for, bad, late) v
          ]
          | inl routing ↦ elim (Bool-cases (e == 0)) [
            | inl ok ↦
                rw (ours, response_for, ok, routing)
                  (update-IsRegistry maps wire on_pong m p _ m.wire_state v refl refl
                    (HasOneVerdict-snoc (m.store p) state_open 0 (v.one p) routing refl))
            | inr bad ↦
                rw (ours, response_for, bad, routing)
                  (update-IsRegistry maps wire on_pong m p _ m.wire_state v refl refl
                    (HasOneVerdict-snoc (m.store p) state_closed e (v.one p) routing refl))
          ]
        ]
      ]

  pub handle_response-IsRegistry :
      (n e b : ℕ) (m : Mux maps W) → IsRegistry m → IsRegistry (handle_response maps wire n e b m)
  unfolding handle_response
  handle_response-IsRegistry n e b m v = elim (Option-cases (maps.get n m.sessions)) [
    | inl none' ↦ rw (none', handle_response) v
    | inr (p, some') ↦ rw (some', handle_response) (response_for-IsRegistry p e b m v)
  ]
