-- ===== src/Nodes/Mux/Replies.antt =====
-- What the handlers answer: verdicts on outbound queries, refusals of inbound ones, and frames for
-- sessions that are not there.
use astrald.Prelude.{
  ℕ, ◌+◌, ◌≡◌, ◌≢◌, refl, ◌⊎◌, inl, inr, arith, true, false, Option, none, some, List, [], ◌∷◌,
  ◌++◌, append_assoc, length, ◌==◌, Bool-cases, Option-cases,
}
use astrald.Nodes.Frames.{Frame, response, reset}
use astrald.Nodes.Callbacks.{Wire, on_reset}
use astrald.Nodes.Flow.{recording}
use astrald.Nodes.Session.{
  Session, state_routing, state_open, state_closed, same_state, swap_state, open_session,
}
use astrald.Nodes.Session.Writer
use astrald.Nodes.Session.Writer.{SessionWriter}
use astrald.Nodes.Buffers.Output
use astrald.Nodes.Mux.{SigMap, Mux, update}
use astrald.Nodes.Mux.Sessions.{close_session, grow_writer}
use astrald.Nodes.Mux.Handlers.{
  is_answered_by, response_for, handle_response, handle_data, handle_read, handle_reset,
  handle_migrate,
}
use astrald.Nodes.Mux.Queries.{
  accepted, rejected, refused, refusal_code, reply, answer_inbound, take_verdict, route_verdict,
}
use astrald.Nodes.Mux.Registry.{IsRegistry}

-- The session's transport source, or its remote identity where it has none, is the link's peer.
abbrev pub IsFromPeer : ℕ → Session → Type 0
IsFromPeer remote s =
    (s.source_identity ≡ some remote) ⊎ ((s.source_identity ≡ none) × (s.remote_identity ≡ remote))

abbrev pub HasCredit : ℕ → Session → Type 0
HasCredit n s = (w : SessionWriter) × (s.writer ≡ some w) × (w.buf.wsize ≡ n)

is_answered_by-IsFromPeer :
    (remote : ℕ) (s : Session) → is_answered_by remote s ≡ true → IsFromPeer remote s
is_answered_by-IsFromPeer remote s e = elim (Option-cases s.source_identity) [
  | inl n ↦ inr (n, ground (arith, n, e))
  | inr (x, n) ↦ inl (ground (arith, n, e))
]

unanswered : (remote : ℕ) (s : Session) → is_answered_by remote s ≡ false → ¬ IsFromPeer remote s
unanswered remote s e (inl n) = ground (arith, n, e)
unanswered remote s e (inr (n, same)) = ground (arith, n, e, same)

routing : (s : Session) → same_state s.state state_routing ≡ true → s.state ≡ state_routing
routing s e = ground (arith, e)

not_routing : (s : Session) → same_state s.state state_routing ≡ false → s.state ≢ state_routing
not_routing s e n = ground (arith, e, n)

module _ (maps : SigMap) {W : Type 0} (wire : Wire W) where
  -- Everything but the session at `p` is as it was.
  abbrev pub OnlyAt : ℕ → Mux maps W → Mux maps W → Type 0
  OnlyAt p m m' =
      ((q : ℕ) → p ≢ q → m'.store q ≡ m.store q)
      × (m'.sessions ≡ m.sessions)
      × (m'.wire_state ≡ m.wire_state)
      × (m'.made ≡ m.made)

  only_store :
      (m : Mux maps W) (p : ℕ) (s : Session) → OnlyAt p m (record m { store = update m.store p s })
  only_store m p s = (λ q ne. ground (arith, ne), refl, refl, refl)

  late_or_other :
      (m : Mux maps W) (p code buffer : ℕ)
      → (is_answered_by m.remote_identity (m.store p) ≡ false)
        ⊎ (same_state (m.store p).state state_routing ≡ false)
      → response_for maps wire p code buffer m ≡ m
  unfolding response_for swap_state
  late_or_other m p code buffer h = ground (arith, h)

  refuses :
      (m : Mux maps W) (p code buffer : ℕ)
      → is_answered_by m.remote_identity (m.store p) ≡ true
      → same_state (m.store p).state state_routing ≡ true
      → code ≢ 0
      → response_for maps wire p code buffer m ≡ record m {
        store = update m.store p (record (m.store p) {
          state = state_closed;
          routing_result = (m.store p).routing_result ++ (code ∷ []);
        });
      }
  unfolding response_for swap_state
  refuses m p code buffer e f n = ground (arith, e, f, n)

  accepts :
      (m : Mux maps W) (p buffer : ℕ)
      → is_answered_by m.remote_identity (m.store p) ≡ true
      → same_state (m.store p).state state_routing ≡ true
      → response_for maps wire p 0 buffer m ≡ record m {
        store = update m.store p (record (m.store p) {
          state = state_open;
          paused = false;
          writer = grow_writer buffer (m.store p).writer;
          routing_result = (m.store p).routing_result ++ (0 ∷ []);
        });
      }
  unfolding response_for swap_state open_session
  accepts m p buffer e f = ground (arith, e, f)

  -- RouteQuery takes the one result that stands in the channel.
  verdict_accepts :
      (m : Mux maps W) (p : ℕ)
      → (m.store p).routing_result ≡ 0 ∷ []
      → (route_verdict maps wire p m).1 ≡ accepted p
  unfolding route_verdict take_verdict
  verdict_accepts m p e = ground (arith, e)

  verdict_rejects :
      (m : Mux maps W) (p code : ℕ)
      → code ≢ 0
      → (m.store p).routing_result ≡ code ∷ []
      → (route_verdict maps wire p m).1 ≡ rejected code
  unfolding route_verdict take_verdict
  verdict_rejects m p code n e = ground (arith, e, n)

  first_result :
      (m : Mux maps W) (p code : ℕ)
      → IsRegistry m
      → same_state (m.store p).state state_routing ≡ true
      → (m.store p).routing_result ++ (code ∷ []) ≡ code ∷ []
  first_result m p code v e = rw (nothing_in (m.store p).routing_result ((v.one p).0 e)) refl
    where
      nothing_in : (xs : List ℕ) → length xs ≡ 0 → xs ≡ []
      nothing_in [] h = refl
      nothing_in (x ∷ xs) h = absurd (omega arith)

  -- What a Response does to a session that is routing, from its transport source.
  abbrev pub Answered : ℕ → ℕ → ℕ → ℕ → Mux maps W → Type 0
  Answered p code buffer credit m' =
      ((code ≢ 0)
        × ((m'.store p).state ≡ state_closed)
        × ((route_verdict maps wire p m').1 ≡ rejected code))
      ⊎ ((code ≡ 0)
          × ((m'.store p).state ≡ state_open)
          × ((m'.store p).paused ≡ false)
          × HasCredit (credit + buffer) (m'.store p)
          × ((route_verdict maps wire p m').1 ≡ accepted p))

  answered :
      (m : Mux maps W) (p code buffer : ℕ) (w : SessionWriter)
      → IsRegistry m
      → (m.store p).writer ≡ some w
      → is_answered_by m.remote_identity (m.store p) ≡ true
      → same_state (m.store p).state state_routing ≡ true
      → let m' = response_for maps wire p code buffer m in
        Answered p code buffer w.buf.wsize m' × OnlyAt p m m'
  unfolding Writer.grow Output.grow
  answered m p code buffer w v h e f = elim (Bool-cases (code == 0)) [
    | inl good ↦
        let zero : code ≡ 0 = ground (arith, good) in
        rw (zero, accepts m p buffer e f)
          (
            inr (
              refl,
              ground arith,
              ground arith,
              (Writer.grow buffer w, ground (arith, h), refl),
              verdict_accepts _ p (ground (arith, first_result m p 0 v f)),
            ),
            only_store m p _,
          )
    | inr bad ↦
        let nonzero : code ≢ 0 = ground (arith, bad) in
        rw (refuses m p code buffer e f nonzero) (
          inl (
            nonzero,
            ground arith,
            verdict_rejects _ p code nonzero (ground (arith, first_result m p code v f)),
          ),
          only_store m p _,
        )
  ]

  -- A Response for a session in the map, on a mux that has kept its invariant. If it comes from
  -- another peer than the session's transport source, or the session is no longer routing, it
  -- changes nothing. Otherwise a refusal moves the session to closed, and the RouteQuery that waits
  -- on it returns the Response's code; an acceptance opens and unpauses the session, adds the peer's
  -- buffer to its writer's credit, and RouteQuery returns the session; other sessions, the map and
  -- the link are left alone.
  pub response_outcomes :
      (m : Mux maps W) (nonce p code buffer : ℕ) (w : SessionWriter)
      → IsRegistry m
      → maps.get nonce m.sessions ≡ some p
      → (m.store p).writer ≡ some w
      → let s = m.store p in
        let m' = handle_response maps wire nonce code buffer m in
        ((¬ IsFromPeer m.remote_identity s ⊎ (s.state ≢ state_routing)) × (m' ≡ m))
        ⊎ (IsFromPeer m.remote_identity s
            × (s.state ≡ state_routing)
            × Answered p code buffer w.buf.wsize m'
            × OnlyAt p m m')
  unfolding handle_response
  response_outcomes m nonce p code buffer w v e h =
      let s = m.store p in
      rw (e, handle_response)
        (elim (Bool-cases (is_answered_by m.remote_identity s)) [
          | inr other ↦ inl (
            inl (unanswered m.remote_identity s other),
            late_or_other m p code buffer (inl other),
          )
          | inl ours ↦ elim (Bool-cases (same_state s.state state_routing)) [
            | inr late ↦ inl (inr (not_routing s late), late_or_other m p code buffer (inr late))
            | inl early ↦ inr (
              is_answered_by-IsFromPeer m.remote_identity s ours,
              routing s early,
              (answered m p code buffer w v h ours early).0,
              (answered m p code buffer w v h ours early).1,
            )
          ]
        ])

  -- Frames for a nonce that names no session change no session: Data and Read are answered with one
  -- Reset for the nonce, Response, Reset and Migrate with nothing.
  unknown_session :
      (m : Mux maps W) (nonce code n : ℕ) (payload : List ℕ)
      → maps.get nonce m.sessions ≡ none
      → let answered = record m { wire_state = (wire.send (reset nonce) m.wire_state).0 } in
        (handle_data maps wire nonce payload m ≡ answered)
        × (handle_read maps wire nonce n m ≡ answered)
        × (handle_response maps wire nonce code n m ≡ m)
        × (handle_reset maps wire nonce m ≡ m)
        × (handle_migrate maps wire nonce m ≡ m)
  unfolding handle_data handle_read handle_response handle_reset handle_migrate
  unknown_session m nonce code n payload e = (
    rw (e, handle_data),
    rw (e, handle_read),
    rw (e, handle_response),
    rw (e, handle_reset),
    rw (e, handle_migrate),
  )

module _ (maps : SigMap) where
  -- A refused inbound query is answered with the Response first and the Reset of its session after
  -- it, so the peer gets the verdict while it still has the session; the code is the router's, or
  -- the general refusal.
  refusal_order :
      (m : Mux maps (List Frame)) (nonce p : ℕ) (code : Option ℕ) (w : SessionWriter)
      → (m.store p).closed ≡ false
      → (m.store p).writer ≡ some w
      → w.closed ≡ false
      → let m' = answer_inbound maps recording nonce p (refused code) m in
        (m'.wire_state
          ≡ m.wire_state ++ (response nonce (refusal_code code) 0 ∷ reset w.nonce ∷ []))
        × ((m'.store p).closed ≡ true)
  unfolding answer_inbound reply close_session Writer.close on_reset
  refusal_order m nonce p code w live has still =
      let first = response nonce (refusal_code code) 0 in
      ground (arith, append_assoc m.wire_state (first ∷ []) (reset w.nonce ∷ []))
