-- ===== src/Nodes/Mux/Registry.antt =====
-- What holds of the sessions map in every history: it holds open sessions only, each under the key
-- that its close callback deletes, and a session gets one routing result at most.
pub mod FrameHandlers
pub mod Later
pub mod Settling
pub mod Histories
use astrald.Prelude.{
  ℕ, ◌≤◌, ◌<◌, ◌≡◌, refl, ◌⊎◌, inl, inr, arith, Bool, true, false, Option, none, some, List, [],
  ◌∷◌, ◌++◌, length, ◌==◌, Option-cases, Bool-cases, length-append, ltb,
}
use astrald.Nodes.Frames.{
  Query, Frame, ping, query, relay_query, response, data_frame, migrate, reset,
}
use astrald.Nodes.Callbacks.{Wire}
use astrald.Nodes.Buffers.Input.{PushResult, pushed, buffer_closed, buffer_overflow}
use astrald.Nodes.Session.{
  Session, SessionState, state_routing, state_open, state_migrating, state_closed, new_session,
  setup, open_session, swap_state, set_state, same_state,
}
use astrald.Nodes.Session.Reader
use astrald.Nodes.Mux.{SigMap, Mux, update}
use astrald.Nodes.Mux.Sessions.{close_session, create_session, close_list, close_all_sessions}
use astrald.Nodes.Mux.Handlers.{
  handle_response, response_for, data_for, takes_data, is_answered_by, handle_data, handle_read,
  handle_reset, handle_ping, handle_migrate,
}
use astrald.Nodes.Mux.Queries.{
  InFlightQuery, Verdict, no_router, refused, routed, query_source, query_frame, max_uint16,
  send_query, take_verdict, route_query, route_verdict, route_cancel, answer_inbound,
  handle_inbound_query, handle_query, handle_relay_query,
}
use astrald.Nodes.Mux.Steps.{
  Decision, Event, frame_arrives, routes, verdict_arrives, context_ends, closes, link_ends,
  no_session, new_mux, handle, step, run,
}

-- A routing session has no result yet, and no session has two.
abbrev pub HasOneVerdict : Session → Type 0
HasOneVerdict s =
    (same_state s.state state_routing ≡ true → length s.routing_result ≡ 0)
    × (length s.routing_result ≤ 1)

pub record IsRegistry {maps : SigMap} {W : Type 0} (m : Mux maps W) : Type 0 where
  pub live :
      (k p : ℕ)
      → maps.get k m.sessions ≡ some p
      → (p < m.made) × ((m.store p).closed ≡ false) × ((m.store p).on_close ≡ some k)
  pub one : (p : ℕ) → HasOneVerdict (m.store p)
  pub blank : (p : ℕ) → m.made ≤ p → (m.store p).closed ≡ true

pub List-cases : (xs : List ℕ) → (xs ≡ []) ⊎ ((y : ℕ) × (ys : List ℕ) × (xs ≡ y ∷ ys))
List-cases [] = inl refl
List-cases (y ∷ ys) = inr (y, ys, refl)

pub PushResult-cases : (r : PushResult) → (r ≡ pushed) ⊎ (r ≡ buffer_closed) ⊎ (r ≡ buffer_overflow)
PushResult-cases r = ground arith

module _ (maps : SigMap) {W : Type 0} (wire : Wire W) (on_pong : ℕ → W → W) where
  pub new_mux-IsRegistry : (local remote : ℕ) (w : W) → IsRegistry (new_mux maps local remote w)
  unfolding new_mux
  new_mux-IsRegistry local remote w = record {
    live = λ k p e. cc (e, maps.get-empty k);
    one = λ p. unfold no_session in (λ e. refl, omega arith);
    blank = λ p h. unfold no_session in refl;
  }

  -- A change of one session that leaves its flag and callback alone.
  pub update-IsRegistry :
      (m : Mux maps W) (p : ℕ) (s : Session) (w : W)
      → IsRegistry m
      → s.closed ≡ (m.store p).closed
      → s.on_close ≡ (m.store p).on_close
      → HasOneVerdict s
      → IsRegistry (record m { store = update m.store p s; wire_state = w })
  update-IsRegistry m p s w v hc ho hr = record {
    live = λ k q e. ground (arith, v.live k q e);
    one = λ q. elim (Bool-cases (p == q)) [ inl e ↦ rw e hr | inr e ↦ rw e (v.one q) ];
    blank = λ q h. ground (arith, v.blank q h);
  }

  pub wire-IsRegistry :
      (m : Mux maps W) (w : W) → IsRegistry m → IsRegistry (record m { wire_state = w })
  wire-IsRegistry m w v = record { live = v.live; one = v.one; blank = v.blank }

  pub close_session-IsRegistry :
      (p : ℕ) (m : Mux maps W) → IsRegistry m → IsRegistry (close_session maps wire p m)
  unfolding close_session
  close_session-IsRegistry p m v = elim (Bool-cases (m.store p).closed) [
    | inl done ↦ rw (done, close_session) v
    | inr still ↦ elim (Option-cases (m.store p).on_close) [
      | inl e ↦ record {
        live = λ k q g. ground (arith, v.live k q);
        one = λ q. ground (arith, v.one q, v.one p);
        blank = λ q h. ground (arith, v.blank q, v.blank p);
      }
      | inr (j, e) ↦ record {
        live = λ k q g. ground (arith, v.live k q, maps.get-delete j m.sessions k);
        one = λ q. ground (arith, v.one q, v.one p);
        blank = λ q h. ground (arith, v.blank q, v.blank p);
      }
    ]
  ]

  pub create_session-IsRegistry :
      (fresh nonce remote : ℕ) (source : Option ℕ) (q : List ℕ) (outbound : Bool) (n : ℕ)
      (m : Mux maps W)
      → IsRegistry m
      → IsRegistry (create_session maps wire fresh nonce remote source q outbound n m).0
  unfolding create_session setup new_session
  create_session-IsRegistry fresh nonce remote source q outbound n m v =
      elim (Option-cases (maps.get nonce m.sessions)) [
        | inl free ↦ record {
          live = λ k p g. ground (
            arith,
            v.live k p,
            maps.set_ok nonce m.made m.sessions,
            maps.get-set nonce m.made m.sessions k,
          );
          one = λ p. ground (arith, v.one p, maps.set_ok nonce m.made m.sessions);
          blank = λ p h. ground (arith, v.blank p, maps.set_ok nonce m.made m.sessions);
        }
        | inr (j, e) ↦ record {
          live = λ k p g. ground (arith, v.live k p, maps.set_ok nonce m.made m.sessions);
          one = λ p. ground (arith, v.one p, maps.set_ok nonce m.made m.sessions);
          blank = λ p h. ground (arith, v.blank p, maps.set_ok nonce m.made m.sessions);
        }
      ]
