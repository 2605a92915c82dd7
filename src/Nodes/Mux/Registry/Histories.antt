-- ===== src/Nodes/Mux/Registry/Histories.antt =====
-- The queries, the closes and whole histories keep the map of a mux.
use astrald.Prelude.{
  ℕ, ◌≤◌, ◌<◌, ◌++◌, ◌≡◌, refl, inl, inr, arith, Bool, true, false, none, some, List, [], ◌∷◌,
  length, ◌==◌, Option-cases, Bool-cases, ltb,
}
use astrald.Nodes.Frames.{
  Query, Frame, ping, query, relay_query, response, data_frame, migrate, reset,
}
use astrald.Nodes.Callbacks.{Wire}
use astrald.Nodes.Session.{open_session, set_state, same_state, state_routing}
use astrald.Nodes.Mux.{SigMap, Mux}
use astrald.Nodes.Mux.Sessions.{create_session, close_list, close_all_sessions}
use astrald.Nodes.Mux.Handlers.{handle_ping}
use astrald.Nodes.Mux.Queries.{
  InFlightQuery, Verdict, no_router, refused, routed, query_source, query_frame, max_uint16,
  send_query, take_verdict, route_query, route_verdict, route_cancel, admit, reply, unpause,
  answer_inbound, handle_inbound_query, handle_query, handle_relay_query,
}
use astrald.Nodes.Mux.Steps.{
  Decision, Event, frame_arrives, admits, replies, unpauses, answer_events, routes, verdict_arrives,
  context_ends, closes, link_ends, new_mux, handle, step, run,
}
use astrald.Nodes.Mux.Registry.{
  IsRegistry, List-cases, new_mux-IsRegistry, update-IsRegistry, wire-IsRegistry,
  close_session-IsRegistry, create_session-IsRegistry,
}
use astrald.Nodes.Mux.Registry.Settling.{run-IsLater}
use astrald.Nodes.Mux.Registry.FrameHandlers.{
  handle_read-IsRegistry, handle_migrate-IsRegistry, handle_reset-IsRegistry,
  handle_data-IsRegistry, handle_response-IsRegistry,
}

module _ (maps : SigMap) {W : Type 0} (wire : Wire W) (on_pong : ℕ → W → W) where
  send_query-IsRegistry :
      (f : Frame) (p : ℕ) (m : Mux maps W)
      → IsRegistry m
      → IsRegistry (send_query maps wire f p m).0
  unfolding send_query
  send_query-IsRegistry f p m v = elim (Bool-cases (wire.send f m.wire_state).1) [
    | inl fine ↦ rw (fine, send_query) (wire-IsRegistry maps wire on_pong m _ v)
    | inr failed ↦
        rw (failed, send_query)
          (close_session-IsRegistry maps wire on_pong p _ (wire-IsRegistry maps wire on_pong m _ v))
  ]

  route_query-IsRegistry :
      (fresh self : ℕ) (q : InFlightQuery) (m : Mux maps W)
      → IsRegistry m
      → IsRegistry (route_query maps wire fresh self q m).0
  unfolding route_query
  route_query-IsRegistry fresh self q m v =
      let source = query_source self m.remote_identity q in
      let m' = create_session maps wire fresh q.nonce q.target source q.query_string true 0 m in
      let v' =
        create_session-IsRegistry maps wire on_pong fresh q.nonce q.target source q.query_string
          true 0 m v in
      elim (Bool-cases (ltb max_uint16 (length q.query_string))) [
        | inl long ↦ rw (long, route_query) v
        | inr short ↦ elim (Option-cases m'.1) [
          | inl e ↦ rw (short, route_query, e) v'
          | inr (p, e) ↦
              rw (short, route_query, e) (send_query-IsRegistry (query_frame self q) p m'.0 v')
        ]
      ]

  take_verdict-IsRegistry :
      (p code : ℕ) (rest : List ℕ) (m : Mux maps W)
      → IsRegistry m
      → length rest ≡ 0
      → IsRegistry (take_verdict maps wire p code rest m).0
  unfolding take_verdict
  take_verdict-IsRegistry p code rest m v h = elim (Bool-cases (code == 0)) [
    | inl ok ↦
        rw (ok, take_verdict)
          (update-IsRegistry maps wire on_pong m p _ m.wire_state v refl refl (λ e. h, omega arith))
    | inr bad ↦
        rw (bad, take_verdict)
          (close_session-IsRegistry maps wire on_pong p _ (
            update-IsRegistry maps wire on_pong m p _ m.wire_state v refl refl
              (λ e. h, omega arith)))
  ]

  route_verdict-IsRegistry :
      (p : ℕ) (m : Mux maps W) → IsRegistry m → IsRegistry (route_verdict maps wire p m).0
  unfolding route_verdict
  route_verdict-IsRegistry p m v = elim (List-cases (m.store p).routing_result) [
    | inl e ↦ rw (e, route_verdict) v
    | inr (code, rest, e) ↦
        rw (e, route_verdict) (take_verdict-IsRegistry p code rest m v (ground (arith, v.one p)))
  ]

  -- A change of one session in its state or its pause that does not put it back to routing.
  admit-IsRegistry : (p : ℕ) (m : Mux maps W) → IsRegistry m → IsRegistry (admit maps wire p m)
  unfolding admit set_state
  admit-IsRegistry p m v =
      update-IsRegistry maps wire on_pong m p _ m.wire_state v refl refl (λ e. cc, (v.one p).1)

  unpause-IsRegistry : (p : ℕ) (m : Mux maps W) → IsRegistry m → IsRegistry (unpause maps wire p m)
  unfolding unpause open_session
  unpause-IsRegistry p m v =
      update-IsRegistry maps wire on_pong m p _ m.wire_state v refl refl (v.one p)

  reply-IsRegistry : (f : Frame) (m : Mux maps W) → IsRegistry m → IsRegistry (reply maps wire f m)
  unfolding reply
  reply-IsRegistry f m v = wire-IsRegistry maps wire on_pong m _ v

  handle_query-IsRegistry :
      (q : Query) (fresh : ℕ) (m : Mux maps W)
      → IsRegistry m
      → IsRegistry (handle_query maps wire q fresh m)
  unfolding handle_query handle_inbound_query
  handle_query-IsRegistry q fresh m v =
      create_session-IsRegistry maps wire on_pong fresh q.nonce m.remote_identity none q.query false
        q.buffer m v

  handle_relay_query-IsRegistry :
      (c : ℕ) (q : Query) (ok : Bool) (fresh : ℕ) (m : Mux maps W)
      → IsRegistry m
      → IsRegistry (handle_relay_query maps wire c q ok fresh m)
  unfolding handle_relay_query handle_inbound_query
  handle_relay_query-IsRegistry c q ok fresh m v =
      let admitted =
        create_session-IsRegistry maps wire on_pong fresh q.nonce c (some m.remote_identity) q.query
          false q.buffer m v in
      elim (Bool-cases (c == m.remote_identity)) [
        | inl own ↦ rw (own, handle_relay_query) admitted
        | inr other ↦ elim (Bool-cases ok) [
          | inl yes' ↦ rw (other, handle_relay_query, yes') admitted
          | inr no' ↦ rw (other, handle_relay_query, no') (reply-IsRegistry _ m v)
        ]
      ]

  handle_ping-IsRegistry :
      (n : ℕ) (pong : Bool) (m : Mux maps W)
      → IsRegistry m
      → IsRegistry (handle_ping maps wire on_pong n pong m)
  unfolding handle_ping
  handle_ping-IsRegistry n true m v = wire-IsRegistry maps wire on_pong m _ v
  handle_ping-IsRegistry n false m v = wire-IsRegistry maps wire on_pong m _ v

  close_list-IsRegistry :
      (ps : List ℕ) (m : Mux maps W) → IsRegistry m → IsRegistry (close_list maps wire ps m)
  unfolding close_list
  close_list-IsRegistry [] m v = v
  close_list-IsRegistry (p ∷ ps) m v =
      close_list-IsRegistry ps _ (close_session-IsRegistry maps wire on_pong p m v)

  handle-IsRegistry :
      (f : Frame) (d : Decision) (m : Mux maps W)
      → IsRegistry m
      → IsRegistry (handle maps wire on_pong f d m)
  unfolding handle
  handle-IsRegistry (query q) d m v = handle_query-IsRegistry q d.fresh m v
  handle-IsRegistry (relay_query c t q) d m v =
      handle_relay_query-IsRegistry _ q d.authorized d.fresh m v
  handle-IsRegistry (response n e b) d m v = handle_response-IsRegistry maps wire on_pong n e b m v
  handle-IsRegistry (ping n pong) d m v = handle_ping-IsRegistry n pong m v
  handle-IsRegistry (data_frame n p) d m v = handle_data-IsRegistry maps wire on_pong n p m v
  handle-IsRegistry (reset n) d m v = handle_reset-IsRegistry maps wire on_pong n m v
  handle-IsRegistry (Frame.read n l) d m v = handle_read-IsRegistry maps wire on_pong n l m v
  handle-IsRegistry (migrate n) d m v = handle_migrate-IsRegistry maps wire on_pong n m v

  step-IsRegistry :
      (e : Event) (m : Mux maps W) → IsRegistry m → IsRegistry (step maps wire on_pong e m)
  unfolding step route_cancel close_all_sessions
  step-IsRegistry (frame_arrives f d) m v = handle-IsRegistry f d m v
  step-IsRegistry (admits p) m v = admit-IsRegistry p m v
  step-IsRegistry (replies f) m v = reply-IsRegistry f m v
  step-IsRegistry (unpauses p) m v = unpause-IsRegistry p m v
  step-IsRegistry (routes fresh self q) m v = route_query-IsRegistry fresh self q m v
  step-IsRegistry (verdict_arrives p) m v = route_verdict-IsRegistry p m v
  step-IsRegistry (context_ends p) m v = close_session-IsRegistry maps wire on_pong p m v
  step-IsRegistry (closes p) m v = close_session-IsRegistry maps wire on_pong p m v
  step-IsRegistry link_ends m v = close_list-IsRegistry _ m v

  run-IsRegistry :
      (es : List Event) (m : Mux maps W) → IsRegistry m → IsRegistry (run maps wire on_pong es m)
  unfolding run
  run-IsRegistry [] m v = v
  run-IsRegistry (e ∷ es) m v = run-IsRegistry es _ (step-IsRegistry e m v)

  run-append :
      (es fs : List Event) (m : Mux maps W)
      → run maps wire on_pong (es ++ fs) m ≡ run maps wire on_pong fs (run maps wire on_pong es m)
  unfolding run
  run-append [] fs m = refl
  run-append (e ∷ es) fs m = run-append es fs (step maps wire on_pong e m)

  -- The steps that answer an inbound query, with nothing in between, are what handleInboundQuery
  -- does once the router has answered.
  answer_events-answer_inbound :
      (n p : ℕ) (a : Verdict) (m : Mux maps W)
      → run maps wire on_pong (answer_events n p a) m ≡ answer_inbound maps wire n p a m
  unfolding run step answer_inbound
  answer_events-answer_inbound n p no_router m = refl
  answer_events-answer_inbound n p (refused c) m = refl
  answer_events-answer_inbound n p routed m = refl

  -- In every history of a new mux (frames of any kind in any order, queries routed out, verdicts,
  -- cancelled contexts, closes, and the steps of the goroutines that wait for the router, at any
  -- time after an inbound query's session is made), whatever the link and the router do: each
  -- session in the map is open and stands under the key that its own close callback deletes, and a
  -- routing session has no result in its channel and no session two. Whatever comes after, a session
  -- that has left routing never goes back to it and no result is added to its channel, so a session
  -- gets one routing result at most.
  pub run-new_mux-IsRegistry :
      (local remote : ℕ) (w : W) (es fs : List Event)
      → let m = run maps wire on_pong es (new_mux maps local remote w) in
        let later = run maps wire on_pong (es ++ fs) (new_mux maps local remote w) in
        IsRegistry m
        × ((p : ℕ)
            → p < m.made
            → same_state (m.store p).state state_routing ≡ false
            → (same_state (later.store p).state state_routing ≡ false)
              × (length (later.store p).routing_result ≤ length (m.store p).routing_result))
  run-new_mux-IsRegistry local remote w es fs =
      let m = new_mux maps local remote w in
      (
        run-IsRegistry es m (new_mux-IsRegistry maps wire on_pong local remote w),
        rw (run-append es fs m) (run-IsLater maps wire on_pong fs (run maps wire on_pong es m)).1,
      )
