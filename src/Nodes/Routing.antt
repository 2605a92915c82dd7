-- ===== src/Nodes/Routing.antt =====
-- mod/nodes/src/query_router.go: how a node routes a query to another node, over a link of its own or
-- over relays. The pool of links, the routes behind a link and the pushing of an object run in a world.
pub mod Relays
use astrald.Prelude.{
  ℕ, zero, suc, ◌≡◌, ◌==◌, not, ◌&&◌, Bool, true, false, Option, none, some, is_some, List, [], ◌∷◌,
  if◌then◌else◌,
}

-- What RouteQuery answers: the target's writer, ErrRejected with its code, ErrRouteNotFound, and
-- another error.
pub data Answer (T : Type 0) : Type 0 where
  accepted : T → Answer T
  rejected : ℕ → Answer T
  route_not_found failed : Answer T

-- What a wait for a link ends with: the query's context, an error, a link.
pub data Retrieved (L : Type 0) : Type 0 where
  ctx_done retrieve_failed : Retrieved L
  retrieved : L → Retrieved L

-- The part of a query that routing reads. The relays are none when they are missing or of another
-- type, the proof is none when it is missing; one of another type makes the source panic.
pub record InFlightQuery : Type 0 where
  pub caller : ℕ
  pub target : ℕ
  pub relay_via : Option (List ℕ)
  pub caller_proof : Option ℕ

-- The node, with links of type L in a world of type W: its identity, SelectLinkWith and RetrieveLink of
-- the pool, RouteQuery of a link, Push of the objects module, whose result is true for no error, and
-- astral.DefaultRejectCode.
pub record Node (W L T : Type 0) : Type 0 where
  pub identity : ℕ
  pub select_link_with : ℕ → W → Option L
  pub retrieve_link : ℕ → W → W × Retrieved L
  pub link_route : L → InFlightQuery → W → W × Answer T
  pub push : ℕ → ℕ → W → W × Bool
  pub default_reject_code : ℕ

-- The rejection that the loop of route keeps; `generic` is astral.DefaultRejectCode.
unfoldable pub keep : {T : Type 0} → ℕ → Option ℕ → Answer T → Option ℕ
keep generic (some code) a = some code
keep generic none (rejected code) = if code == generic then none else some code
keep generic none _ = none

module _ {W L T : Type 0} where
  -- sendCallerProof; true for no error.
  unfoldable pub send_caller_proof : Node W L T → InFlightQuery → ℕ → W → W × Bool
  send_caller_proof node q target w = elim q.caller_proof [
    | none ↦ (w, false)
    | some proof ↦ node.push target proof w
  ]

  -- The end of reachRelay, with a link; ctx_id is the context's identity.
  unfoldable pub prove_caller : Node W L T → ℕ → InFlightQuery → ℕ → L → W → W × Option L
  prove_caller node ctx_id q relay link w =
      if ctx_id == q.caller
      then (w, some link)
      else (let (w', sent) = send_caller_proof node q relay w in
          (w', if sent then some link else none))

  -- reachRelay; none is an error.
  unfoldable pub reach_relay : Node W L T → ℕ → InFlightQuery → ℕ → W → W × Option L
  reach_relay node ctx_id q relay w =
      if relay == q.target then (w, none) else elim (node.select_link_with relay w) [
        | some link ↦ prove_caller node ctx_id q relay link w
        | none ↦
            let (w', r) = node.retrieve_link relay w in
            elim r [ retrieved link ↦ prove_caller node ctx_id q relay link w' | _ ↦ (w', none) ]
      ]

  -- relayedQuery.ask
  unfoldable pub ask : Node W L T → ℕ → InFlightQuery → ℕ → W → W × Answer T
  ask node ctx_id q relay w =
      let (w', reached) = reach_relay node ctx_id q relay w in
      elim reached [ none ↦ (w', route_not_found) | some link ↦ node.link_route link q w' ]

  -- relayedQuery.route, with the rejection kept so far.
  unfoldable pub route_relays :
      Node W L T → ℕ → InFlightQuery → Option ℕ → List ℕ → W → W × Answer T
  route_relays node ctx_id q kept [] w =
      (w, elim kept [ some code ↦ rejected code | none ↦ route_not_found ])
  route_relays node ctx_id q kept (relay ∷ relays) w =
      let (w', a) = ask node ctx_id q relay w in
      let rest = route_relays node ctx_id q (keep node.default_reject_code kept a) relays w' in
      elim a [ accepted t ↦ (w', accepted t) | _ ↦ rest ]

  -- RouteQuery; `network` says whether the context's zone has the network.
  unfoldable pub route_query : Node W L T → Bool → ℕ → InFlightQuery → W → W × Answer T
  route_query node network ctx_id q w =
      if not network
      then (w, route_not_found)
      else if q.target == node.identity
      then (w, route_not_found)
      else elim (node.select_link_with q.target w) [
        | some link ↦ node.link_route link q w
        | none ↦
            let (w', r) = node.retrieve_link q.target w in
            elim r [
              | ctx_done ↦ (w', route_not_found)
              | retrieved link ↦ node.link_route link q w'
              | retrieve_failed ↦ elim q.relay_via [
                | none ↦ (w', route_not_found)
                | some relays ↦ route_relays node ctx_id q none relays w'
              ]
            ]
      ]
