-- ===== src/Nodes/Mux/Closing.antt =====
-- How sessions end: Close, a Reset from the peer, a refusal, and the end of the link.
use astrald.Prelude.{
  ℕ, ◌≡◌, refl, inl, inr, arith, true, Option, none, some, List, [], ◌∷◌, if◌then◌else◌, ◌==◌,
  contains, Option-cases,
}
use astrald.Nodes.Callbacks.{Wire, on_reset}
use astrald.Nodes.Session.{Session, state_closed}
use astrald.Nodes.Session.Writer
use astrald.Nodes.Session.Writer.{SessionWriter}
use astrald.Nodes.Mux.{SigMap, Mux, update}
use astrald.Nodes.Mux.Sessions.{
  close_session, close_list, close_all_sessions, peer_close_writer, close_writer,
}
use astrald.Nodes.Mux.Handlers.{handle_reset}
use astrald.Nodes.Mux.Queries.{take_verdict, route_verdict}
use astrald.Nodes.Mux.Registry.{IsRegistry, close_session-IsRegistry}

-- The link after Close of a session's writer: a Reset if the writer was open.
abbrev pub after_close : {W : Type 0} → Wire W → Option SessionWriter → W → W
after_close wire none w = w
after_close wire (some sw) w = if sw.closed then w else on_reset wire sw.nonce w

module _ (maps : SigMap) {W : Type 0} (wire : Wire W) where
  close_writer_sends :
      (o : Option SessionWriter) (w : W) → (close_writer maps wire o w).1 ≡ after_close wire o w
  close_writer_sends none w = refl
  close_writer_sends (some sw) w = unfold Writer.close in ground arith

  -- Close of a registered session takes it out of the map and leaves every other key alone, marks it
  -- closed, sends one Reset with the nonce of its callbacks if its writer was open and nothing
  -- otherwise, and a second Close changes nothing.
  pub close_session_effects :
      (m : Mux maps W) (k p : ℕ)
      → IsRegistry m
      → maps.get k m.sessions ≡ some p
      → let m' = close_session maps wire p m in
        ((j : ℕ) → maps.get j m'.sessions ≡ (if k == j then none else maps.get j m.sessions))
        × ((m'.store p).closed ≡ true)
        × ((m'.store p).state ≡ state_closed)
        × (m'.wire_state ≡ after_close wire (m.store p).writer m.wire_state)
        × (close_session maps wire p m' ≡ m')
  unfolding close_session
  close_session_effects m k p v e =
      let l = v.live k p e in
      (
        λ j. ground (arith, l, maps.get-delete k m.sessions j),
        ground (arith, l),
        ground (arith, l),
        ground (arith, l, close_writer_sends (m.store p).writer m.wire_state),
        ground (arith, l),
      )

  peer_closed_sends :
      (o : Option SessionWriter) (w : W) → (close_writer maps wire (peer_close_writer o) w).1 ≡ w
  peer_closed_sends none w = refl
  peer_closed_sends (some sw) w = unfold Writer.close Writer.peer_close in ground arith

  quiet :
      (m : Mux maps W) (p : ℕ) (s : Session)
      → s.writer ≡ peer_close_writer (m.store p).writer
      → (close_session maps wire p (record m { store = update m.store p s })).wire_state
        ≡ m.wire_state
  unfolding close_session
  quiet m p s e = ground (arith, peer_closed_sends (m.store p).writer m.wire_state)

  take_verdict_quiet :
      (p code : ℕ) (rest : List ℕ) (m : Mux maps W)
      → (take_verdict maps wire p code rest m).0.wire_state ≡ m.wire_state
  unfolding take_verdict
  take_verdict_quiet p code rest m =
      let s = m.store p in
      let gone : Session = record s {
        routing_result = rest;
        writer = peer_close_writer s.writer;
      } in
      ground (arith, quiet m p gone refl)

  -- A session that the peer ends is ended without an answer: neither a Reset frame, whatever session
  -- it names, nor the verdict that a query was refused or accepted makes the mux send anything, so
  -- two muxes never answer Resets with Resets.
  peer_end_quiet :
      (nonce p : ℕ) (m : Mux maps W)
      → ((handle_reset maps wire nonce m).wire_state ≡ m.wire_state)
        × ((route_verdict maps wire p m).0.wire_state ≡ m.wire_state)
  unfolding handle_reset route_verdict
  peer_end_quiet nonce p m =
      (reset_quiet (maps.get nonce m.sessions) refl, verdict_quiet (m.store p).routing_result refl)
    where
      reset_quiet :
          (o : Option ℕ)
          → maps.get nonce m.sessions ≡ o
          → (handle_reset maps wire nonce m).wire_state ≡ m.wire_state
      reset_quiet none e = rw (e, handle_reset)
      reset_quiet (some q) e =
          rw (e, handle_reset)
            (quiet m q (record (m.store q) { writer = peer_close_writer (m.store q).writer }) refl)

      verdict_quiet :
          (xs : List ℕ)
          → (m.store p).routing_result ≡ xs
          → (route_verdict maps wire p m).0.wire_state ≡ m.wire_state
      verdict_quiet [] e = rw (e, route_verdict)
      verdict_quiet (code ∷ rest) e = rw (e, route_verdict) (take_verdict_quiet p code rest m)

  close_session_shrinks :
      (q k p : ℕ) (m : Mux maps W)
      → maps.get k (close_session maps wire q m).sessions ≡ some p
      → maps.get k m.sessions ≡ some p
  unfolding close_session
  close_session_shrinks q k p m e = elim (Option-cases (m.store q).on_close) [
    | inl o ↦ ground arith
    | inr (j, o) ↦ ground (arith, maps.get-delete j m.sessions k)
  ]

  close_session-closed :
      (q : ℕ) (m : Mux maps W) → ((close_session maps wire q m).store q).closed ≡ true
  unfolding close_session
  close_session-closed q m = ground arith

  close_list_empties :
      (ps : List ℕ) (k : ℕ) (m : Mux maps W)
      → IsRegistry m
      → ((p : ℕ) → maps.get k m.sessions ≡ some p → contains ps p ≡ true)
      → maps.get k (close_list maps wire ps m).sessions ≡ none
  unfolding close_list
  close_list_empties [] k m v h = elim (Option-cases (maps.get k m.sessions)) [
    | inl e ↦ e
    | inr (p, e) ↦ cc (h p e)
  ]
  close_list_empties (q ∷ ps) k m v h =
      let m' = close_session maps wire q m in
      let v' = close_session-IsRegistry maps wire (λ n w. w) q m v in
      close_list_empties ps k m' v' (λ p e.
        ground
          (arith, h p (close_session_shrinks q k p m e), v'.live k p e, close_session-closed q m))

  -- When the link ends no session is left in the map.
  pub close_all_empties :
      (m : Mux maps W) (k : ℕ)
      → IsRegistry m
      → maps.get k (close_all_sessions maps wire m).sessions ≡ none
  unfolding close_all_sessions
  close_all_empties m k v =
      close_list_empties (maps.values m.sessions) k m v (λ p e. maps.values_all k p m.sessions e)
