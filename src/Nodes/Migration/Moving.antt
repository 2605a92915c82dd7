-- ===== src/Nodes/Migration/Moving.antt =====
-- What Complete does with the two maps on each branch, and that both stay sound.
use astrald.Prelude.{
  ℕ, true, false, ◌≡◌, ◌≢◌, ◌⊎◌, inl, inr, arith, Option, none, some, ◌==◌, Option-cases,
  Bool-cases,
}
use mathlib.Core.Path.{fun_ext}
use astrald.Nodes.Session.{Session, state_open, set_state}
use astrald.Nodes.Session.Writer
use astrald.Nodes.Session.Writer.{SessionWriter}
use astrald.Nodes.Mux.{SigMap, Mux, update}
use astrald.Nodes.Mux.Sessions.{remove_session, add_session}
use astrald.Nodes.Mux.Registry.{IsRegistry, HasOneVerdict}
use astrald.Nodes.Migration.{
  share, reopen, reopen_at, links_differ, take_out, put_in, complete, invalid_state,
  session_not_found,
}

-- Two muxes of one node: they share the store of sessions.
pub record SharesStore {maps : SigMap} {W : Type 0} (a b : Mux maps W) : Type 0 where
  pub stores : b.store ≡ a.store
  pub counts : b.made ≡ a.made

update_twice :
    (st : ℕ → Session) (p : ℕ) (s t : Session) → update (update st p s) p t ≡ update st p t
update_twice st p s t = fun_ext λ q. ground arith

-- A session that Complete has moved: open, resumed with the peer's buffer as its credit besides what
-- it has, and deleted from the new map when it closes.
abbrev pub moved : ℕ → ℕ → SessionWriter → Session → Session
moved k peer_buffer w s = record s {
  state = state_open;
  on_close = some k;
  writer = some (Writer.resume (Writer.grow peer_buffer w));
}

pub moved-HasOneVerdict :
    (k n : ℕ) (w : SessionWriter) (s : Session) → HasOneVerdict s → HasOneVerdict (moved k n w s)
moved-HasOneVerdict k n w s h = (λ e. cc, h.1)

-- The two ways past the guard on the links.
pub Links-cases :
    (a b : Option ℕ)
    → ((links_differ a b ≡ false) × ((a ≡ none) ⊎ (b ≡ none) ⊎ (a ≡ b)))
      ⊎ ((links_differ a b ≡ true) × ((a ≢ none) × (b ≢ none) × (a ≢ b)))
Links-cases a b = elim (Option-cases a) [
  | inl e ↦ inl (ground (arith, e), inl e)
  | inr (x, e) ↦ elim (Option-cases b) [
    | inl f ↦ inl (ground (arith, e, f), inr (inl f))
    | inr (y, f) ↦ elim (Bool-cases (x == y)) [
      | inl same ↦ inl (ground (arith, e, f, same), inr (inr (ground (arith, e, f, same))))
      | inr other ↦ inr (
        ground (arith, e, f, other),
        (ground (arith, e), ground (arith, f), ground (arith, e, f, other)),
      )
    ]
  ]
]

module _ (maps : SigMap) {W : Type 0} where
  pub complete_moves :
      (a b : Option ℕ) (old new : Mux maps W) (k p peer_buffer : ℕ) (w : SessionWriter)
      → links_differ a b ≡ true
      → maps.get k old.sessions ≡ some p
      → (old.store p).nonce ≡ k
      → (old.store p).writer ≡ some w
      → maps.get k new.sessions ≡ none
      → complete a b p peer_buffer old new ≡ (
        record old {
          sessions = (maps.delete k old.sessions).0;
          store = update old.store p (moved k peer_buffer w (old.store p));
        },
        record new {
          sessions = (maps.set k p new.sessions).0;
          store = update old.store p (moved k peer_buffer w (old.store p));
          made = old.made;
        },
        none,
      )
  unfolding complete take_out put_in remove_session add_session reopen_at reopen set_state
  complete_moves a b old new k p peer_buffer w d e n h f =
      let s = old.store p in
      ground (
        arith,
        d,
        e,
        n,
        h,
        f,
        maps.delete_value k old.sessions,
        maps.set_ok k p new.sessions,
        update_twice old.store p (record s { on_close = some k }) (moved k peer_buffer w s),
      )

  pub complete_taken :
      (a b : Option ℕ) (old new : Mux maps W) (k p q peer_buffer : ℕ)
      → links_differ a b ≡ true
      → maps.get k old.sessions ≡ some p
      → (old.store p).nonce ≡ k
      → maps.get k new.sessions ≡ some q
      → complete a b p peer_buffer old new ≡ (
        record old { sessions = (maps.delete k old.sessions).0 },
        share old new,
        some invalid_state,
      )
  unfolding complete take_out put_in remove_session add_session
  complete_taken a b old new k p q peer_buffer d e n f =
      ground (arith, d, e, n, f, maps.delete_value k old.sessions, maps.set_ok k p new.sessions)

  pub complete_missing :
      (a b : Option ℕ) (old new : Mux maps W) (k p peer_buffer : ℕ)
      → links_differ a b ≡ true
      → maps.get k old.sessions ≡ none
      → (old.store p).nonce ≡ k
      → complete a b p peer_buffer old new
        ≡ (record old { sessions = (maps.delete k old.sessions).0 }, new, some session_not_found)
  unfolding complete take_out put_in remove_session
  complete_missing a b old new k p peer_buffer d e n =
      ground (arith, d, e, n, maps.delete_value k old.sessions)

  -- Without a move the session is reopened where it stands.
  pub complete_skips :
      (a b : Option ℕ) (old new : Mux maps W) (p peer_buffer : ℕ) (w : SessionWriter)
      → links_differ a b ≡ false
      → (old.store p).writer ≡ some w
      → let st = update old.store p (reopen peer_buffer w (old.store p)) in
        complete a b p peer_buffer old new
        ≡ (record old { store = st }, record new { store = st; made = old.made }, none)
  unfolding complete take_out put_in reopen_at
  complete_skips a b old new p peer_buffer w d h = ground (arith, d, h)

  -- One session stands in one map only, so taking it out leaves the other entries their sessions.
  apart :
      (m : Mux maps W) (k p j q : ℕ)
      → IsRegistry m
      → maps.get k m.sessions ≡ some p
      → k ≢ j
      → maps.get j m.sessions ≡ some q
      → p ≢ q
  apart m k p j q v e ne g same = ground (arith, v.live k p e, v.live j q g, same, ne)

  absent :
      (old new : Mux maps W) (k p j q : ℕ)
      → IsRegistry old
      → IsRegistry new
      → new.store ≡ old.store
      → maps.get k old.sessions ≡ some p
      → maps.get k new.sessions ≡ none
      → maps.get j new.sessions ≡ some q
      → p ≢ q
  absent old new k p j q v u st e f g same =
      let key : (new.store p).on_close ≡ some k = rw st (v.live k p e).2 in
      ground (arith, key, u.live j q g, same, f)

  pub old-IsRegistry :
      (old : Mux maps W) (k p : ℕ) (s : Session)
      → IsRegistry old
      → maps.get k old.sessions ≡ some p
      → s.closed ≡ (old.store p).closed
      → HasOneVerdict s
      → IsRegistry
          (record old { sessions = (maps.delete k old.sessions).0; store = update old.store p s })
  old-IsRegistry old k p s v e c h = record {
    live = λ j q g.
        ground (arith, v.live j q, apart old k p j q v e, g, maps.get-delete k old.sessions j);
    one = λ q. elim (Bool-cases (p == q)) [ inl t ↦ rw t h | inr t ↦ rw t (v.one q) ];
    blank = λ q l. ground (arith, v.blank q l, v.live k p e, c);
  }

  pub new-IsRegistry :
      (old new : Mux maps W) (k p : ℕ) (s : Session)
      → IsRegistry old
      → IsRegistry new
      → SharesStore old new
      → maps.get k old.sessions ≡ some p
      → maps.get k new.sessions ≡ none
      → s.closed ≡ (old.store p).closed
      → s.on_close ≡ some k
      → HasOneVerdict s
      → IsRegistry (record new {
        sessions = (maps.set k p new.sessions).0;
        store = update old.store p s;
        made = old.made;
      })
  new-IsRegistry old new k p s v u sh e f c o h = record {
    live = λ j q g. ground (
      arith,
      v.live k p e,
      f,
      g,
      c,
      o,
      sh.stores,
      sh.counts,
      maps.get-set k p new.sessions j,
      absent old new k p j q v u sh.stores e f,
      u.live j q,
    );
    one = λ q. elim (Bool-cases (p == q)) [ inl t ↦ rw t h | inr t ↦ rw t (v.one q) ];
    blank = λ q l. ground (arith, v.blank q l, v.live k p e, c);
  }

  pub left-IsRegistry :
      (old : Mux maps W) (k : ℕ)
      → IsRegistry old
      → IsRegistry (record old { sessions = (maps.delete k old.sessions).0 })
  left-IsRegistry old k v = record {
    live = λ j q g. ground (arith, v.live j q, g, maps.get-delete k old.sessions j);
    one = v.one;
    blank = v.blank;
  }

  pub share-IsRegistry :
      (old new : Mux maps W) → IsRegistry new → SharesStore old new → IsRegistry (share old new)
  share-IsRegistry old new u sh = record {
    live = λ j q g. ground (arith, u.live j q g, sh.stores, sh.counts);
    one = λ q. ground (arith, u.one q, sh.stores);
    blank = λ q l. ground (arith, u.blank q, l, sh.stores, sh.counts);
  }

  pub reopened-IsRegistry :
      (m : Mux maps W) (p : ℕ) (st : ℕ → Session) (made : ℕ) (s : Session)
      → IsRegistry m
      → m.store ≡ st
      → m.made ≡ made
      → s.closed ≡ (st p).closed
      → s.on_close ≡ (st p).on_close
      → HasOneVerdict s
      → IsRegistry (record m { store = update st p s; made = made })
  reopened-IsRegistry m p st made s v e n c o h = record {
    live = λ j q g. ground (arith, v.live j q g, e, n, c, o);
    one = λ q. elim (Bool-cases (p == q)) [ inl t ↦ rw t h | inr t ↦ rw (t, ← e) (v.one q) ];
    blank = λ q l. ground (arith, v.blank q, l, e, n, c);
  }
