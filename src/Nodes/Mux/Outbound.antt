-- ===== src/Nodes/Mux/Outbound.antt =====
-- mod/nodes/src/mux.go: RouteQuery up to its wait.
use astrald.Prelude.{
  ℕ, ◌^◌, ◌<◌, ◌≤◌, ◌≡◌, ◌≢◌, ◌⊎◌, inl, inr, arith, true, false, none, some, length, ltb, ◌==◌,
  if◌then◌else◌, Bool-cases, Option-cases,
}
use astrald.Nodes.Frames.{Frame, Query, query, relay_query}
use astrald.Nodes.Frames.RoundTrip.{Fits}
use astrald.Nodes.Callbacks.{Wire}
use astrald.Nodes.Session.{state_routing, new_session, setup}
use astrald.Nodes.Mux.{SigMap, Mux}
use astrald.Nodes.Mux.Sessions.{close_session, create_session}
use astrald.Nodes.Mux.Queries.{
  InFlightQuery, RouteStep, invalid_query, route_not_found, send_error, awaits, query_frame,
  max_uint16, send_query, route_query,
}

module _ (maps : SigMap) {W : Type 0} (wire : Wire W) where
  -- The frame that a query goes out in: as it is if the context's identity is the caller, in a
  -- relay query otherwise.
  abbrev pub IsFrameOf : ℕ → InFlightQuery → Frame → Type 0
  IsFrameOf self q f =
      let body : Query = record { nonce = q.nonce; buffer = 4194304; query = q.query_string } in
      ((q.caller ≡ self) × (f ≡ query body))
      ⊎ ((q.caller ≢ self) × (f ≡ relay_query (some q.caller) (some q.target) body))

  frame_of : (self : ℕ) (q : InFlightQuery) → IsFrameOf self q (query_frame self q)
  unfolding query_frame
  frame_of self q = ground arith

  query_frame-Fits :
      (self : ℕ) (q : InFlightQuery)
      → q.nonce < 256 ^ 8
      → q.caller < 256 ^ 33
      → q.target < 256 ^ 33
      → length q.query_string ≤ 65535
      → Fits (query_frame self q)
  unfolding query_frame
  query_frame-Fits self q hn hc ht short = elim (Bool-cases (q.caller == self)) [
    | inl own ↦ rw own (hn, omega arith, ground arith)
    | inr relayed ↦ rw relayed (hc, ht, (hn, omega arith, ground arith))
  ]

  -- What RouteQuery leaves of a query whose nonce is free and whose string is short, with `f` the
  -- frame: a session in the map that waits for the verdict and the frame on the link, or, if the
  -- send failed, neither the session nor another change of the map.
  abbrev pub Sent : Frame → InFlightQuery → Mux maps W → Mux maps W × RouteStep → Type 0
  Sent f q m (m', r) =
      (((wire.send f m.wire_state).1 ≡ true)
        × (r ≡ awaits m.made)
        × (m'.wire_state ≡ (wire.send f m.wire_state).0)
        × ((j : ℕ)
            → maps.get j m'.sessions
              ≡ (if q.nonce == j then some m.made else maps.get j m.sessions))
        × ((m'.store m.made).state ≡ state_routing)
        × ((m'.store m.made).remote_identity ≡ q.target))
      ⊎ (((wire.send f m.wire_state).1 ≡ false)
          × (r ≡ send_error)
          × ((j : ℕ)
              → maps.get j m'.sessions ≡ (if q.nonce == j then none else maps.get j m.sessions))
          × ((m'.store m.made).closed ≡ true))

  nonce_taken :
      (fresh self : ℕ) (q : InFlightQuery) (m : Mux maps W) (p : ℕ)
      → ltb max_uint16 (length q.query_string) ≡ false
      → maps.get q.nonce m.sessions ≡ some p
      → route_query maps wire fresh self q m ≡ (m, route_not_found)
  unfolding route_query create_session
  nonce_taken fresh self q m p short e =
      ground (arith, short, e, maps.set_ok q.nonce m.made m.sessions)

  route_query-Sent :
      (fresh self : ℕ) (q : InFlightQuery) (m : Mux maps W)
      → ltb max_uint16 (length q.query_string) ≡ false
      → maps.get q.nonce m.sessions ≡ none
      → Sent (query_frame self q) q m (route_query maps wire fresh self q m)
  unfolding route_query create_session setup new_session send_query close_session
  route_query-Sent fresh self q m short e =
      let free = maps.set_ok q.nonce m.made m.sessions in
      let added = maps.get-set q.nonce m.made m.sessions in
      let sent = (maps.set q.nonce m.made m.sessions).0 in
      elim (Bool-cases (wire.send (query_frame self q) m.wire_state).1) [
        | inl fine ↦ inl (
          fine,
          ground (arith, short, e, free, fine),
          ground (arith, short, e, free, fine),
          λ j. ground (arith, short, e, free, fine, added j),
          ground (arith, short, e, free, fine),
          ground (arith, short, e, free, fine),
        )
        | inr failed ↦ inr (
          failed,
          ground (arith, short, e, free, failed),
          λ j. ground (arith, short, e, free, failed, added j, maps.get-delete q.nonce sent j),
          ground (arith, short, e, free, failed),
        )
      ]

  -- RouteQuery up to its wait. A query string longer than 65535 bytes is refused, and a nonce that
  -- is taken is not found, with nothing changed. Any other query whose nonce and identities fit
  -- goes out in one frame that fits, which carries its nonce, string and, for a relayed query,
  -- caller and target: it then waits on a new routing session in the map; if the link fails to
  -- send, the error is returned and the session is closed and out of the map again.
  pub query_guard :
      (fresh self : ℕ) (q : InFlightQuery) (m : Mux maps W)
      → q.nonce < 256 ^ 8
      → q.caller < 256 ^ 33
      → q.target < 256 ^ 33
      → let out = route_query maps wire fresh self q m in
        ((65535 < length q.query_string) × (out ≡ (m, invalid_query)))
        ⊎ ((length q.query_string ≤ 65535)
            × (maps.get q.nonce m.sessions ≢ none)
            × (out ≡ (m, route_not_found)))
        ⊎ ((length q.query_string ≤ 65535)
            × (maps.get q.nonce m.sessions ≡ none)
            × ((f : Frame) × IsFrameOf self q f × Fits f × Sent f q m out))
  query_guard fresh self q m hn hc ht = elim (Bool-cases (ltb max_uint16 (length q.query_string))) [
    | inl long ↦ inl (ground arith, unfold route_query in rw (long, route_query))
    | inr short ↦ elim (Option-cases (maps.get q.nonce m.sessions)) [
      | inr (p, e) ↦
          inr (inl (ground arith, ground (arith, e), nonce_taken fresh self q m p short e))
      | inl e ↦ inr (
          inr (
            ground arith,
            e,
            (
              query_frame self q,
              frame_of self q,
              query_frame-Fits self q hn hc ht (ground arith),
              route_query-Sent fresh self q m short e,
            ),
          ))
    ]
  ]
