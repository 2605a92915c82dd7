-- ===== src/Nodes/Mux/Registry/Settling.antt =====
-- A session that has left routing never goes back to it and gets no further routing result: the
-- queries and whole histories.
use astrald.Prelude.{
  ℕ, ◌≡◌, refl, inl, inr, arith, Bool, true, false, none, some, List, [], ◌∷◌, length, ◌==◌,
  Option-cases, Bool-cases, ltb,
}
use astrald.Nodes.Frames.{
  Query, Frame, ping, query, relay_query, response, data_frame, migrate, reset,
}
use astrald.Nodes.Callbacks.{Wire}
use astrald.Nodes.Session.{open_session, set_state}
use astrald.Nodes.Mux.{SigMap, Mux}
use astrald.Nodes.Mux.Sessions.{close_session, create_session, close_list, close_all_sessions}
use astrald.Nodes.Mux.Handlers.{handle_ping}
use astrald.Nodes.Mux.Queries.{
  InFlightQuery, query_source, query_frame, max_uint16, send_query, take_verdict, route_query,
  route_verdict, route_cancel, admit, reply, unpause, handle_inbound_query, handle_query,
  handle_relay_query,
}
use astrald.Nodes.Mux.Steps.{
  Decision, Event, frame_arrives, admits, replies, unpauses, routes, verdict_arrives, context_ends,
  closes, link_ends, handle, step, run,
}
use astrald.Nodes.Mux.Registry.{List-cases}
use astrald.Nodes.Mux.Registry.Later.{
  IsLater, close_session-IsLater, then_close, create_session-IsLater, handle_read-IsLater,
  handle_migrate-IsLater, handle_reset-IsLater, handle_data-IsLater, handle_response-IsLater,
  IsLater-refl, IsLater-trans, update-IsLater,
}

module _ (maps : SigMap) {W : Type 0} (wire : Wire W) (on_pong : ℕ → W → W) where
  send_query-IsLater :
      (f : Frame) (p : ℕ) (m : Mux maps W) → IsLater m (send_query maps wire f p m).0
  unfolding send_query
  send_query-IsLater f p m = elim (Bool-cases (wire.send f m.wire_state).1) [
    | inl fine ↦ rw (fine, send_query) (IsLater-refl m)
    | inr failed ↦
        rw (failed, send_query)
          (close_session-IsLater maps wire p
            (record m { wire_state = (wire.send f m.wire_state).0 }))
  ]

  route_query-IsLater :
      (fresh self : ℕ) (q : InFlightQuery) (m : Mux maps W)
      → IsLater m (route_query maps wire fresh self q m).0
  unfolding route_query
  route_query-IsLater fresh self q m =
      let source = query_source self m.remote_identity q in
      let m' = create_session maps wire fresh q.nonce q.target source q.query_string true 0 m in
      let l =
        create_session-IsLater maps wire fresh q.nonce q.target source q.query_string true 0 m in
      elim (Bool-cases (ltb max_uint16 (length q.query_string))) [
        | inl long ↦ rw (long, route_query) (IsLater-refl m)
        | inr short ↦ elim (Option-cases m'.1) [
          | inl e ↦ rw (short, route_query, e) l
          | inr (p, e) ↦
              rw (short, route_query, e)
                (IsLater-trans m m'.0 (send_query maps wire (query_frame self q) p m'.0).0 l
                  (send_query-IsLater (query_frame self q) p m'.0))
        ]
      ]

  take_verdict-IsLater :
      (p code : ℕ) (rest : List ℕ) (m : Mux maps W)
      → (m.store p).routing_result ≡ code ∷ rest
      → IsLater m (take_verdict maps wire p code rest m).0
  unfolding take_verdict
  take_verdict-IsLater p code rest m h = elim (Bool-cases (code == 0)) [
    | inl ok ↦
        rw (ok, take_verdict) (update-IsLater m p _ m.wire_state (λ e. (e, ground (arith, h))))
    | inr bad ↦
        rw (bad, take_verdict)
          (then_close maps wire p m _
            (update-IsLater m p _ m.wire_state (λ e. (e, ground (arith, h)))))
  ]

  route_verdict-IsLater : (p : ℕ) (m : Mux maps W) → IsLater m (route_verdict maps wire p m).0
  unfolding route_verdict
  route_verdict-IsLater p m = elim (List-cases (m.store p).routing_result) [
    | inl e ↦ rw (e, route_verdict) (IsLater-refl m)
    | inr (code, rest, e) ↦ rw (e, route_verdict) (take_verdict-IsLater p code rest m e)
  ]

  handle_relay_query-IsLater :
      (c : ℕ) (q : Query) (ok : Bool) (fresh : ℕ) (m : Mux maps W)
      → IsLater m (handle_relay_query maps wire c q ok fresh m)
  unfolding handle_relay_query handle_inbound_query reply
  handle_relay_query-IsLater c q ok fresh m =
      let l =
        create_session-IsLater maps wire fresh q.nonce c (some m.remote_identity) q.query false
          q.buffer m in
      elim (Bool-cases (c == m.remote_identity)) [
        | inl own ↦ rw (own, handle_relay_query) l
        | inr other ↦ elim (Bool-cases ok) [
          | inl yes' ↦ rw (other, handle_relay_query, yes') l
          | inr no' ↦ rw (other, handle_relay_query, no') (IsLater-refl m)
        ]
      ]

  handle-IsLater :
      (f : Frame) (d : Decision) (m : Mux maps W) → IsLater m (handle maps wire on_pong f d m)
  unfolding handle handle_query handle_inbound_query handle_ping
  handle-IsLater (query q) d m =
      create_session-IsLater maps wire d.fresh q.nonce m.remote_identity none q.query false q.buffer
        m
  handle-IsLater (relay_query c t q) d m = handle_relay_query-IsLater _ q d.authorized d.fresh m
  handle-IsLater (response n e b) d m = handle_response-IsLater maps wire n e b m
  handle-IsLater (ping n true) d m = IsLater-refl m
  handle-IsLater (ping n false) d m = IsLater-refl m
  handle-IsLater (data_frame n p) d m = handle_data-IsLater maps wire n p m
  handle-IsLater (reset n) d m = handle_reset-IsLater maps wire n m
  handle-IsLater (Frame.read n l) d m = handle_read-IsLater maps wire n l m
  handle-IsLater (migrate n) d m = handle_migrate-IsLater maps wire n m

  close_list-IsLater : (ps : List ℕ) (m : Mux maps W) → IsLater m (close_list maps wire ps m)
  unfolding close_list
  close_list-IsLater [] m = IsLater-refl m
  close_list-IsLater (p ∷ ps) m =
      let n = close_session maps wire p m in
      IsLater-trans m n (close_list maps wire ps n) (close_session-IsLater maps wire p m)
        (close_list-IsLater ps n)

  step-IsLater : (e : Event) (m : Mux maps W) → IsLater m (step maps wire on_pong e m)
  unfolding step route_cancel close_all_sessions admit reply unpause set_state open_session
  step-IsLater (frame_arrives f d) m = handle-IsLater f d m
  step-IsLater (admits p) m = update-IsLater m p _ m.wire_state (λ e. (refl, omega arith))
  step-IsLater (replies f) m = IsLater-refl m
  step-IsLater (unpauses p) m = update-IsLater m p _ m.wire_state (λ e. (e, omega arith))
  step-IsLater (routes fresh self q) m = route_query-IsLater fresh self q m
  step-IsLater (verdict_arrives p) m = route_verdict-IsLater p m
  step-IsLater (context_ends p) m = close_session-IsLater maps wire p m
  step-IsLater (closes p) m = close_session-IsLater maps wire p m
  step-IsLater link_ends m = close_list-IsLater _ m

  pub run-IsLater : (es : List Event) (m : Mux maps W) → IsLater m (run maps wire on_pong es m)
  unfolding run
  run-IsLater [] m = IsLater-refl m
  run-IsLater (e ∷ es) m =
      let n = step maps wire on_pong e m in
      IsLater-trans m n (run maps wire on_pong es n) (step-IsLater e m) (run-IsLater es n)
