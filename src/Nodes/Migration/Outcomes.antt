-- ===== src/Nodes/Migration/Outcomes.antt =====
-- The outcomes of Complete, and of its second half when a Close has come in between.
use astrald.Prelude.{
  ℕ, true, false, ◌≡◌, ◌≢◌, refl, ◌⊎◌, inl, inr, arith, Option, none, some, if◌then◌else◌, ◌==◌,
  Option-cases,
}
use astrald.Nodes.Session.{state_open, set_state}
use astrald.Nodes.Session.Writer
use astrald.Nodes.Session.Writer.{SessionWriter}
use astrald.Nodes.Mux.{SigMap, Mux}
use astrald.Nodes.Mux.Sessions.{add_session, close_session}
use astrald.Nodes.Mux.Registry.{IsRegistry, HasOneVerdict}
use astrald.Nodes.Migration.{
  reopen, reopen_at, links_differ, takes, put_in, complete, MigrateError, invalid_state,
  session_not_found,
}
use astrald.Nodes.Callbacks.{Wire}
use astrald.Nodes.Migration.Moving.{
  SharesStore, moved, Links-cases, complete_moves, complete_taken, complete_missing, complete_skips,
  old-IsRegistry, new-IsRegistry, left-IsRegistry, share-IsRegistry, reopened-IsRegistry,
  moved-HasOneVerdict,
}

module _ (maps : SigMap) {W : Type 0} where
  -- What Complete leaves: both maps sound, over one store, and one of four outcomes.
  abbrev pub Completed :
      Option ℕ
      → Option ℕ
      → ℕ
      → ℕ
      → ℕ
      → SessionWriter
      → Mux maps W
      → Mux maps W
      → Mux maps W × Mux maps W × Option MigrateError
      → Type 0
  Completed a b k p peer_buffer w old new (old', new', err) =
      let differ = (a ≢ none) × (b ≢ none) × (a ≢ b) in
      let gone =
        (j : ℕ) → maps.get j old'.sessions ≡ (if k == j then none else maps.get j old.sessions) in
      IsRegistry old'
      × IsRegistry new'
      × SharesStore old' new'
      × ((((a ≡ none) ⊎ (b ≡ none) ⊎ (a ≡ b))
            × (err ≡ none)
            × (old'.sessions ≡ old.sessions)
            × (new'.sessions ≡ new.sessions)
            × (new'.store p ≡ record (old.store p) {
              state = state_open;
              writer = some (Writer.resume (Writer.grow peer_buffer w));
            }))
          ⊎ (differ
              × (maps.get k old.sessions ≡ none)
              × (err ≡ some session_not_found)
              × gone
              × (new'.sessions ≡ new.sessions)
              × (new'.store p ≡ old.store p))
          ⊎ (differ
              × (maps.get k old.sessions ≡ some p)
              × (maps.get k new.sessions ≡ none)
              × (err ≡ none)
              × gone
              × ((j : ℕ)
                  → maps.get j new'.sessions ≡ (if k == j then some p else maps.get j new.sessions))
              × (new'.store p ≡ moved k peer_buffer w (old.store p)))
          ⊎ (differ
              × (maps.get k old.sessions ≡ some p)
              × (maps.get k new.sessions ≢ none)
              × (err ≡ some invalid_state)
              × gone
              × (new'.sessions ≡ new.sessions)
              × (new'.store p ≡ old.store p)))

  complete_same :
      (a b : Option ℕ) (old new : Mux maps W) (k p peer_buffer : ℕ) (w : SessionWriter)
      → IsRegistry old
      → IsRegistry new
      → SharesStore old new
      → (old.store p).writer ≡ some w
      → links_differ a b ≡ false
      → (a ≡ none) ⊎ (b ≡ none) ⊎ (a ≡ b)
      → Completed a b k p peer_buffer w old new (complete a b p peer_buffer old new)
  unfolding reopen set_state
  complete_same a b old new k p peer_buffer w v u sh h d same =
      let s' = reopen peer_buffer w (old.store p) in
      let one : HasOneVerdict s' = (λ e. cc, (v.one p).1) in
      rw (complete_skips maps a b old new p peer_buffer w d h) (
        reopened-IsRegistry maps old p old.store old.made s' v refl refl refl refl one,
        reopened-IsRegistry maps new p old.store old.made s' u sh.stores sh.counts refl refl one,
        record { stores = refl; counts = refl },
        inl (same, refl, refl, refl, ground arith),
      )

  complete_lost :
      (a b : Option ℕ) (old new : Mux maps W) (k p peer_buffer : ℕ) (w : SessionWriter)
      → IsRegistry old
      → IsRegistry new
      → SharesStore old new
      → (old.store p).nonce ≡ k
      → links_differ a b ≡ true
      → (a ≢ none) × (b ≢ none) × (a ≢ b)
      → maps.get k old.sessions ≡ none
      → Completed a b k p peer_buffer w old new (complete a b p peer_buffer old new)
  complete_lost a b old new k p peer_buffer w v u sh n d differ e =
      rw (complete_missing maps a b old new k p peer_buffer d e n) (
        left-IsRegistry maps old k v,
        u,
        record { stores = sh.stores; counts = sh.counts },
        inr (
            inl (
              differ,
              e,
              refl,
              λ j. maps.get-delete k old.sessions j,
              refl,
              ground (arith, sh.stores),
            )),
      )

  complete_found :
      (a b : Option ℕ) (old new : Mux maps W) (k p peer_buffer : ℕ) (w : SessionWriter)
      → IsRegistry old
      → IsRegistry new
      → SharesStore old new
      → (old.store p).nonce ≡ k
      → (old.store p).writer ≡ some w
      → links_differ a b ≡ true
      → (a ≢ none) × (b ≢ none) × (a ≢ b)
      → maps.get k old.sessions ≡ some p
      → Completed a b k p peer_buffer w old new (complete a b p peer_buffer old new)
  complete_found a b old new k p peer_buffer w v u sh n h d differ e =
      elim (Option-cases (maps.get k new.sessions)) [
        | inl f ↦
            let s' = moved k peer_buffer w (old.store p) in
            let one = moved-HasOneVerdict k peer_buffer w (old.store p) (v.one p) in
            rw (complete_moves maps a b old new k p peer_buffer w d e n h f) (
              old-IsRegistry maps old k p s' v e refl one,
              new-IsRegistry maps old new k p s' v u sh e f refl refl one,
              record { stores = refl; counts = refl },
              inr (
                  inr (
                    inl (
                      differ,
                      e,
                      f,
                      refl,
                      λ j. maps.get-delete k old.sessions j,
                      λ j. ground (arith, f, maps.get-set k p new.sessions j),
                      ground arith,
                    ))),
            )
        | inr (q, f) ↦ rw (complete_taken maps a b old new k p q peer_buffer d e n f) (
          left-IsRegistry maps old k v,
          share-IsRegistry maps old new u sh,
          record { stores = refl; counts = refl },
          inr (
              inr (
                inr (
                  differ,
                  e,
                  λ z. cc (f, z),
                  refl,
                  λ j. maps.get-delete k old.sessions j,
                  refl,
                  refl,
                ))),
        )
      ]

  -- Complete of a session that has a writer, where the old map holds no other session under its
  -- nonce, and nothing comes between its steps. With a nil link or one link only, the maps stay and
  -- the session is open, resumed and granted the peer's buffer. Otherwise, if it is gone from the
  -- old map, Complete reports that and changes nothing; if its nonce is free on the new link it
  -- leaves the old map and stands in the new one under it, open, resumed, granted the peer's buffer,
  -- and its close callback deletes it there; if the nonce is taken there, Complete fails, and the
  -- session, otherwise as it was, is out of the old map. Every other entry of both maps stays, and
  -- both maps hold what every mux history keeps.
  pub complete_outcomes :
      (a b : Option ℕ) (old new : Mux maps W) (k p peer_buffer : ℕ) (w : SessionWriter)
      → IsRegistry old
      → IsRegistry new
      → SharesStore old new
      → ((q : ℕ) → maps.get k old.sessions ≡ some q → q ≡ p)
      → (old.store p).nonce ≡ k
      → (old.store p).writer ≡ some w
      → Completed a b k p peer_buffer w old new (complete a b p peer_buffer old new)
  complete_outcomes a b old new k p peer_buffer w v u sh only n h = elim (Links-cases a b) [
    | inl (d, same) ↦ complete_same a b old new k p peer_buffer w v u sh h d same
    | inr (d, differ) ↦ elim (Option-cases (maps.get k old.sessions)) [
      | inl e ↦ complete_lost a b old new k p peer_buffer w v u sh n d differ e
      | inr (q, e) ↦
          complete_found a b old new k p peer_buffer w v u sh n h d differ (cc (e, only q e))
    ]
  ]

  -- If the session is closed between removeSession and addSession and its nonce is free on the new
  -- link, the rest of Complete succeeds: the new map holds the closed session under its nonce, in
  -- state open, and closing it again does not take it out.
  pub put_in_closed :
      (wire : Wire W) (old new : Mux maps W) (k p peer_buffer : ℕ) (w : SessionWriter)
      → (old.store p).nonce ≡ k
      → (old.store p).closed ≡ true
      → (old.store p).writer ≡ some w
      → maps.get k new.sessions ≡ none
      → let (old', new', err) = put_in (takes p) p peer_buffer old new in
        (err ≡ none)
        × (maps.get k new'.sessions ≡ some p)
        × ((new'.store p).state ≡ state_open)
        × ((new'.store p).closed ≡ true)
        × (maps.get k (close_session maps wire p new').sessions ≡ some p)
  unfolding put_in add_session reopen_at reopen set_state close_session
  put_in_closed wire old new k p peer_buffer w n c h f =
      ground (arith, n, c, h, f, maps.set_ok k p new.sessions, maps.get-set k p new.sessions k)
