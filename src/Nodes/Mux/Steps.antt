-- ===== src/Nodes/Mux/Steps.antt =====
-- mod/nodes/src/mux.go: Handle, and the histories of a mux: frames from the peer, the router's
-- answers step by step, queries and closes of local callers, in any order.
use astrald.Prelude.{ℕ, Bool, true, false, none, List, [], ◌∷◌}
use astrald.Nodes.Frames.{
  Frame, ping, query, relay_query, response, data_frame, migrate, reset, code_accepted,
  code_rejected,
}
use astrald.Nodes.Frames.Writing.{or_zero}
use astrald.Nodes.Callbacks.{Wire, default_buffer_size}
use astrald.Nodes.Session.{Session, state_closed, new_session}
use astrald.Nodes.Mux.{SigMap, Mux}
use astrald.Nodes.Mux.Sessions.{close_session, close_all_sessions}
use astrald.Nodes.Mux.Handlers.{
  handle_response, handle_data, handle_read, handle_reset, handle_ping, handle_migrate,
}
use astrald.Nodes.Mux.Queries.{
  InFlightQuery, Verdict, no_router, refused, routed, refusal_code, admit, reply, unpause,
  route_query, route_verdict, route_cancel, handle_query, handle_relay_query,
}

-- What the node decides about an inbound query as it comes in: whether its relay is authorized, and
-- the nonce that NewNonce would give.
pub record Decision : Type 0 where
  pub authorized : Bool
  pub fresh : ℕ

-- `admits`, `replies` and `unpauses` are the steps of the goroutines that wait for the router; they
-- come at any time, and so do the rest.
pub data Event : Type 0 where
  frame_arrives : Frame → Decision → Event
  admits : ℕ → Event
  replies : Frame → Event
  unpauses : ℕ → Event
  routes : ℕ → ℕ → InFlightQuery → Event
  verdict_arrives : ℕ → Event
  context_ends : ℕ → Event
  closes : ℕ → Event
  link_ends : Event

-- The steps that answer an inbound query whose session is at `p`.
abbrev pub answer_events : ℕ → ℕ → Verdict → List Event
answer_events n p no_router = replies (response n code_rejected 0) ∷ closes p ∷ []
answer_events n p (refused code) = replies (response n (refusal_code code) 0) ∷ closes p ∷ []
answer_events n p routed =
    admits p ∷ replies (response n code_accepted default_buffer_size) ∷ unpauses p ∷ []

-- A reference that no session has been made for.
unfoldable pub no_session : Session
unfolding new_session
no_session = record (new_session 0 0 0 none [] false) { closed = true; state = state_closed }

-- newMux
unfoldable pub new_mux : {W : Type 0} (maps : SigMap) → ℕ → ℕ → W → Mux maps W
new_mux maps local remote w = record {
  local_identity = local;
  remote_identity = remote;
  sessions = maps.empty;
  store = λ p. no_session;
  made = 0;
  router_set = false;
  wire_state = w;
}

-- SetRouter: the first call counts.
unfoldable set_router : {maps : SigMap} {W : Type 0} → Mux maps W → Mux maps W
set_router m = record m { router_set = true }

module _ (maps : SigMap) {W : Type 0} (wire : Wire W) (on_pong : ℕ → W → W) where
  -- Handle
  unfoldable pub handle : Frame → Decision → Mux maps W → Mux maps W
  handle (query q) d m = handle_query maps wire q d.fresh m
  handle (relay_query c t q) d m = handle_relay_query maps wire (or_zero c) q d.authorized d.fresh m
  handle (response n e b) d m = handle_response maps wire n e b m
  handle (ping n pong) d m = handle_ping maps wire on_pong n pong m
  handle (data_frame n p) d m = handle_data maps wire n p m
  handle (reset n) d m = handle_reset maps wire n m
  handle (Frame.read n l) d m = handle_read maps wire n l m
  handle (migrate n) d m = handle_migrate maps wire n m

  unfoldable pub step : Event → Mux maps W → Mux maps W
  step (frame_arrives f d) m = handle f d m
  step (admits p) m = admit maps wire p m
  step (replies f) m = reply maps wire f m
  step (unpauses p) m = unpause maps wire p m
  step (routes fresh self q) m = (route_query maps wire fresh self q m).0
  step (verdict_arrives p) m = (route_verdict maps wire p m).0
  step (context_ends p) m = (route_cancel maps wire p m).0
  step (closes p) m = close_session maps wire p m
  step link_ends m = close_all_sessions maps wire m

  unfoldable pub run : List Event → Mux maps W → Mux maps W
  run [] m = m
  run (e ∷ es) m = run es (step e m)
