-- ===== src/Nodes/Mux/Queries.antt =====
-- mod/nodes/src/mux.go: RouteQuery, the inbound queries, and the dispatch of frames.
use astrald.Prelude.{
  ℕ, ◌==◌, ltb, Bool, true, false, Option, none, some, List, [], ◌∷◌, length, if◌then◌else◌,
}
use astrald.Nodes.Frames.{Query, Frame, query, relay_query, response, code_accepted, code_rejected}
use astrald.Nodes.Callbacks.{Wire, default_buffer_size}
use astrald.Nodes.Session.{Session, state_open, open_session, set_state}
use astrald.Nodes.Mux.{SigMap, Mux, update}
use astrald.Nodes.Mux.Sessions.{close_session, create_session, peer_close_writer}

-- A query on its way out, as RouteQuery gets it.
pub record InFlightQuery : Type 0 where
  pub nonce : ℕ
  pub caller : ℕ
  pub target : ℕ
  pub query_string : List ℕ

-- What RouteQuery returns at once, or that it waits on the session at a reference.
pub data RouteStep : Type 0 where
  invalid_query route_not_found send_error : RouteStep
  awaits : ℕ → RouteStep

-- What it returns once the peer's verdict is there or the context ends.
pub data RouteResult : Type 0 where
  accepted : ℕ → RouteResult
  rejected : ℕ → RouteResult
  not_found still_waiting : RouteResult

-- The answer to an inbound query: no router, a refusal with its code if it has one, or a target.
pub data Verdict : Type 0 where
  no_router routed : Verdict
  refused : Option ℕ → Verdict

abbrev pub max_uint16 : ℕ
max_uint16 = 65535

abbrev pub refusal_code : Option ℕ → ℕ
refusal_code none = code_rejected
refusal_code (some c) = c

-- The transport source of a query's session, and its frame: a relay query if the caller is not the
-- context's identity `self`.
abbrev pub query_source : ℕ → ℕ → InFlightQuery → Option ℕ
query_source self remote q = if q.caller == self then none else some remote

unfoldable pub query_frame : ℕ → InFlightQuery → Frame
query_frame self q =
    let body : Query = record {
      nonce = q.nonce;
      buffer = default_buffer_size;
      query = q.query_string;
    } in
    if q.caller == self then query body else relay_query (some q.caller) (some q.target) body

module _ (maps : SigMap) {W : Type 0} (wire : Wire W) where
  -- RouteQuery from its Send to its select, for the session at `p`.
  unfoldable pub send_query : Frame → ℕ → Mux maps W → Mux maps W × RouteStep
  send_query frame p m =
      let (w', fine) = wire.send frame m.wire_state in
      let sent : Mux maps W = record m { wire_state = w' } in
      if fine then (sent, awaits p) else (close_session maps wire p sent, send_error)

  -- RouteQuery down to its select.
  unfoldable pub route_query : ℕ → ℕ → InFlightQuery → Mux maps W → Mux maps W × RouteStep
  route_query fresh self q m =
      let (m', conn) =
        create_session maps wire fresh q.nonce q.target (query_source self m.remote_identity q)
          q.query_string true 0 m in
      if ltb max_uint16 (length q.query_string) then (m, invalid_query) else elim conn [
        | none ↦ (m', route_not_found)
        | some p ↦ send_query (query_frame self q) p m'
      ]

  -- The rest of RouteQuery once it has taken `code` out of the channel, which holds `rest` then.
  unfoldable pub take_verdict : ℕ → ℕ → List ℕ → Mux maps W → Mux maps W × RouteResult
  take_verdict p code rest m =
      let s = m.store p in
      let taken : Session = record s { routing_result = rest } in
      let refused_one : Session = record taken { writer = peer_close_writer s.writer } in
      if code == 0 then (record m { store = update m.store p taken }, accepted p) else (
        close_session maps wire p (record m { store = update m.store p refused_one }),
        rejected code,
      )

  -- The rest of RouteQuery when the session at `p` may have a routing result.
  unfoldable pub route_verdict : ℕ → Mux maps W → Mux maps W × RouteResult
  route_verdict p m = elim (m.store p).routing_result [
    | [] ↦ (m, still_waiting)
    | code ∷ rest ↦ take_verdict p code rest m
  ]

  -- The rest of RouteQuery when the context ends first.
  unfoldable pub route_cancel : ℕ → Mux maps W → Mux maps W × RouteResult
  route_cancel p m = (close_session maps wire p m, not_found)

  -- What handleInboundQuery does with the session it made at `p`, once the router has answered, is a
  -- row of steps, between which frames and closes may fall: the state is set to open, a frame goes
  -- out, the session is unpaused.
  unfoldable pub admit : ℕ → Mux maps W → Mux maps W
  admit p m = record m { store = update m.store p (set_state state_open (m.store p)) }

  unfoldable pub reply : Frame → Mux maps W → Mux maps W
  reply f m = record m { wire_state = (wire.send f m.wire_state).0 }

  unfoldable pub unpause : ℕ → Mux maps W → Mux maps W
  unpause p m = record m { store = update m.store p (open_session (m.store p)) }

  -- The row when nothing falls in between.
  unfoldable pub answer_inbound : ℕ → ℕ → Verdict → Mux maps W → Mux maps W
  answer_inbound link_nonce p no_router m =
      close_session maps wire p (reply (response link_nonce code_rejected 0) m)
  answer_inbound link_nonce p (refused code) m =
      close_session maps wire p (reply (response link_nonce (refusal_code code) 0) m)
  answer_inbound link_nonce p routed m =
      unpause p (reply (response link_nonce code_accepted default_buffer_size) (admit p m))

  -- handleInboundQuery down to its wait for the router; `fresh` is the nonce that NewNonce would
  -- give.
  unfoldable pub handle_inbound_query :
      ℕ → ℕ → Option ℕ → List ℕ → ℕ → ℕ → Mux maps W → Mux maps W × Option ℕ
  handle_inbound_query link_nonce caller relay query_str init_buffer fresh m =
      create_session maps wire fresh link_nonce caller relay query_str false init_buffer m

  -- handleQuery, down to that wait
  unfoldable pub handle_query : Query → ℕ → Mux maps W → Mux maps W
  handle_query q fresh m =
      (handle_inbound_query q.nonce m.remote_identity none q.query q.buffer fresh m).0

  -- handleRelayQuery, down to that wait; `authorized` is the answer to RelayForAction. A frame that
  -- was read always has both identities.
  unfoldable pub handle_relay_query : ℕ → Query → Bool → ℕ → Mux maps W → Mux maps W
  handle_relay_query caller q authorized fresh m =
      let admitted =
        handle_inbound_query q.nonce caller (some m.remote_identity) q.query q.buffer fresh m in
      if caller == m.remote_identity
      then admitted.0
      else if authorized
      then admitted.0
      else reply (response q.nonce code_rejected 0) m
