-- ===== src/Nodes/Routing/Relays.antt =====
-- Which answer a relayed query gets, and which relays are asked.
use astrald.Prelude.{
  ℕ, ◌≡◌, refl, ◌⊎◌, inl, inr, arith, ◌==◌, not, Bool, true, false, Option, none, some, List, [],
  ◌∷◌, length, if◌then◌else◌, Bool-cases, Option-cases,
}
use astrald.Nodes.Routing.{
  Answer, accepted, rejected, route_not_found, failed, Retrieved, retrieved, ctx_done,
  retrieve_failed, InFlightQuery, Node, send_caller_proof, prove_caller, reach_relay, ask, keep,
  route_relays,
}

module _ {T : Type 0} where
  abbrev pub is_accepted : Answer T → Bool
  is_accepted (accepted t) = true
  is_accepted (rejected code) = false
  is_accepted route_not_found = false
  is_accepted failed = false

  -- A rejection that tells a refusal from an absence.
  abbrev is_refusal : ℕ → Answer T → Bool
  is_refusal generic (accepted t) = false
  is_refusal generic (rejected code) = not (code == generic)
  is_refusal generic route_not_found = false
  is_refusal generic failed = false

  abbrev pub first : (Answer T → Bool) → List (Answer T) → Option (Answer T)
  first hit [] = none
  first hit (a ∷ as') = if hit a then some a else first hit as'

  -- The first acceptance, else the first refusal, else a missing route.
  unfoldable pub best : ℕ → List (Answer T) → Answer T
  best generic as' = elim (first is_accepted as') [
    | some a ↦ a
    | none ↦ elim (first (is_refusal generic) as') [ some a ↦ a | none ↦ route_not_found ]
  ]

abbrev is_retrieved : {L : Type 0} → Retrieved L → Bool
is_retrieved (retrieved link) = true
is_retrieved ctx_done = false
is_retrieved retrieve_failed = false

Retrieved-cases :
    {L : Type 0} (r : Retrieved L) → (is_retrieved r ≡ false) ⊎ ((link : L) × (r ≡ retrieved link))
Retrieved-cases ctx_done = inl refl
Retrieved-cases retrieve_failed = inl refl
Retrieved-cases (retrieved link) = inr (link, refl)

module _ {W L T : Type 0} (node : Node W L T) (ctx_id : ℕ) (q : InFlightQuery) where
  -- The answers of the relays that are asked in order, up to the first acceptance.
  unfoldable pub asked : List ℕ → W → W × List (Answer T)
  asked [] w = (w, [])
  asked (relay ∷ relays) w =
      let (w', a) = ask node ctx_id q relay w in
      let (w'', as') = asked relays w' in if is_accepted a then (w', a ∷ []) else (w'', a ∷ as')

  unfoldable kept_or : Option ℕ → List (Answer T) → Answer T
  kept_or none as' = best node.default_reject_code as'
  kept_or (some code) as' = elim (first is_accepted as') [ some a ↦ a | none ↦ rejected code ]

  route_relays-asked :
      (kept : Option ℕ) (relays : List ℕ) (w : W)
      → route_relays node ctx_id q kept relays w
        ≡ ((asked relays w).0, kept_or kept (asked relays w).1)
  unfolding route_relays asked kept_or best keep
  route_relays-asked none [] w = refl
  route_relays-asked (some code) [] w = refl
  route_relays-asked kept (relay ∷ relays) w =
      let (w', a) = ask node ctx_id q relay w in
      ground (arith, route_relays-asked (keep node.default_reject_code kept a) relays w')

  asked_all :
      (relays : List ℕ) (w : W)
      → first is_accepted (asked relays w).1 ≡ none
      → length (asked relays w).1 ≡ length relays
  unfolding asked
  asked_all [] w f = refl
  asked_all (relay ∷ relays) w f =
      let (w', a) = ask node ctx_id q relay w in ground (arith, f, asked_all relays w')

  -- A relayed query is asked of the relays in order up to the first that accepts, and of all of them
  -- when none does; it gets the first acceptance, else the first rejection whose code is not the
  -- generic one, else a missing route.
  pub route_relays_answer :
      (relays : List ℕ) (w : W)
      → let (w', as') = asked relays w in
        (route_relays node ctx_id q none relays w ≡ (w', best node.default_reject_code as'))
        × (first is_accepted as' ≡ none → length as' ≡ length relays)
  unfolding kept_or
  route_relays_answer relays w = (route_relays-asked none relays w, asked_all relays w)

  -- A world in which the proof of the caller was pushed to a relay, unless none is due.
  abbrev pub IsProven : ℕ → W → W → Type 0
  IsProven relay w1 w' =
      ((ctx_id ≡ q.caller) × (w' ≡ w1))
      ⊎ ((proof : ℕ) × (q.caller_proof ≡ some proof) × (node.push relay proof w1 ≡ (w', true)))

  -- The link to a relay is the pool's or a retrieved one.
  abbrev pub IsLinked : ℕ → W → L → W → Type 0
  IsLinked relay w link w1 =
      ((node.select_link_with relay w ≡ some link) × (w1 ≡ w))
      ⊎ (node.retrieve_link relay w ≡ (w1, retrieved link))

  prove_caller-cases :
      (relay : ℕ) (link : L) (w1 : W)
      → let (w', r) = prove_caller node ctx_id q relay link w1 in
        (r ≡ none) ⊎ ((r ≡ some link) × IsProven relay w1 w')
  unfolding prove_caller send_caller_proof
  prove_caller-cases relay link w1 = elim (Bool-cases (ctx_id == q.caller)) [
    | inl e ↦ inr (ground (arith, e), inl (ground (arith, e), ground (arith, e)))
    | inr e ↦ elim (Option-cases q.caller_proof) [
      | inl n ↦ inl (ground (arith, e, n))
      | inr (proof, n) ↦ elim (Bool-cases (node.push relay proof w1).1) [
        | inl b ↦ inr (ground (arith, e, n, b), inr (proof, n, ground (arith, e, n, b)))
        | inr b ↦ inl (ground (arith, e, n, b))
      ]
    ]
  ]

  reach_relay-cases :
      (relay : ℕ) (w : W)
      → ((reach_relay node ctx_id q relay w).1 ≡ none)
        ⊎ (((relay == q.target) ≡ false)
            × ((link : L) × (w1 : W) × IsLinked relay w link w1
                × (reach_relay node ctx_id q relay w ≡ prove_caller node ctx_id q relay link w1)))
  unfolding reach_relay
  reach_relay-cases relay w = elim (Bool-cases (relay == q.target)) [
    | inl e ↦ inl (ground (arith, e))
    | inr e ↦ elim (Option-cases (node.select_link_with relay w)) [
      | inr (link, n) ↦ inr (e, (link, w, inl (n, refl), ground (arith, e, n)))
      | inl n ↦ elim (Retrieved-cases (node.retrieve_link relay w).1) [
        | inl r ↦ inl (ground (arith, e, n, r))
        | inr (link, r) ↦ inr (
          e,
          (link, (node.retrieve_link relay w).0, inr (ground (arith, r)), ground (arith, e, n, r)),
        )
      ]
    ]
  ]

  -- A relay that is reached, and so is asked the query, is not the target itself, the link to it is
  -- the pool's or a retrieved one, and before, unless the caller is the context's identity, the
  -- query's proof of its caller was pushed to it with success. A relay that is not reached is not
  -- asked, and counts as a missing route.
  pub ask_outcomes :
      (relay : ℕ) (w : W)
      → let (w', reached) = reach_relay node ctx_id q relay w in
        ((reached ≡ none) × (ask node ctx_id q relay w ≡ (w', route_not_found)))
        ⊎ ((link : L) × (reached ≡ some link)
            × (ask node ctx_id q relay w ≡ node.link_route link q w')
            × ((relay == q.target) ≡ false)
            × ((w1 : W) × IsLinked relay w link w1 × IsProven relay w1 w'))
  unfolding ask
  ask_outcomes relay w = elim (reach_relay-cases relay w) [
    | inl n ↦ inl (n, ground (arith, n))
    | inr (e, (link, w1, l, r)) ↦ elim (prove_caller-cases relay link w1) [
      | inl n ↦ inl (ground (arith, r, n), ground (arith, r, n))
      | inr (n, v) ↦ inr (link, ground (arith, r, n), ground (arith, r, n), e, (w1, l, rw r v))
    ]
  ]
