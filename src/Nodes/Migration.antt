-- ===== src/Nodes/Migration.antt =====
-- mod/nodes/src/session_migrator.go: SessionMigrator, which moves a session to another link. The
-- session and its store are shared by the muxes of both links: `share` hands the store of one mux to
-- another one after a step.
pub mod Moving
pub mod Outcomes
pub mod Credit
use astrald.Prelude.{
  ℕ, ◌==◌, not, Bool, true, false, Option, none, some, List, [], ◌∷◌, if◌then◌else◌,
}
use astrald.Nodes.Frames.{migrate}
use astrald.Nodes.Callbacks.{Wire, default_buffer_size}
use astrald.Nodes.Buffers.Input
use astrald.Nodes.Buffers.Output
use astrald.Nodes.Session.{Session, state_open, state_migrating, swap_state, set_state}
use astrald.Nodes.Session.Reader
use astrald.Nodes.Session.Reader.{SessionReader}
use astrald.Nodes.Session.Writer
use astrald.Nodes.Session.Writer.{SessionWriter}
use astrald.Nodes.Mux.{SigMap, Mux, update}
use astrald.Nodes.Mux.Sessions.{remove_session, add_session}

-- newSessionMigrator: none is ErrMigrationNotSupported.
unfoldable pub new_session_migrator : Session → Option (SessionReader × SessionWriter)
new_session_migrator s = elim s.reader [
  | none ↦ none
  | some r ↦ elim s.writer [ none ↦ none | some w ↦ some (r, w) ]
]

-- Begin, for a session whose reader and writer are `r` and `w`: none is ErrInvalidSessionState. The
-- callbacks of the new buffers capture the session's nonce, on the new link's mux.
unfoldable pub begin : SessionReader → SessionWriter → Session → Option Session
begin r w s = elim (swap_state state_open state_migrating s) [
  | none ↦ none
  | some s' ↦
      let w' = Writer.swap_buf s'.nonce Output.new (Writer.pause w) in
      let r' = Reader.set_next_buffer (Input.new default_buffer_size true) r in
      some (record s' { reader = some r'; writer = some w' })
]

-- Complete, once the session stands in the map of the new link's mux.
unfoldable pub reopen : ℕ → SessionWriter → Session → Session
reopen peer_buffer w s = record (set_state state_open s) {
  writer = some (Writer.resume (Writer.grow peer_buffer w));
}

pub data MigrateError : Type 0 where
  not_supported invalid_state session_not_found : MigrateError

-- What the first half of Complete comes to.
pub data Removal : Type 0 where
  skips fails : Removal
  takes : ℕ → Removal

abbrev pub links_differ : Option ℕ → Option ℕ → Bool
links_differ (some a) (some b) = not (a == b)
links_differ _ _ = false

module _ {maps : SigMap} {W : Type 0} where
  -- The second mux, with the store of sessions as the first one left it.
  abbrev pub share : Mux maps W → Mux maps W → Mux maps W
  share from m = record m { store = from.store; made = from.made }

  -- newSessionMigrator and Begin of the session at `p`.
  unfoldable pub begin_at : ℕ → Mux maps W → Mux maps W × Option MigrateError
  begin_at p m = elim (new_session_migrator (m.store p)) [
    | none ↦ (m, some not_supported)
    | some (r, w) ↦ elim (begin r w (m.store p)) [
      | none ↦ (m, some invalid_state)
      | some s ↦ (record m { store = update m.store p s }, none)
    ]
  ]

  -- The end of Complete, for a session whose writer is there: Begin has seen it.
  unfoldable pub reopen_at : ℕ → ℕ → Mux maps W → Mux maps W
  reopen_at p peer_buffer m = elim (m.store p).writer [
    | none ↦ m
    | some w ↦ record m { store = update m.store p (reopen peer_buffer w (m.store p)) }
  ]

  -- The first half of Complete of the session at `p`: the guard on the links, which are none where
  -- they are nil, and removeSession.
  unfoldable pub take_out : Option ℕ → Option ℕ → ℕ → Mux maps W → Mux maps W × Removal
  take_out old_link new_link p old =
      let (old', found) = remove_session maps (old.store p).nonce old in
      if links_differ old_link new_link
      then (old', elim found [ none ↦ fails | some q ↦ takes q ])
      else (old, skips)

  -- The rest of Complete: addSession, the state, the writer. Other goroutines may have come in
  -- between.
  unfoldable pub put_in :
      Removal → ℕ → ℕ → Mux maps W → Mux maps W → Mux maps W × Mux maps W × Option MigrateError
  put_in skips p peer_buffer old new =
      let reopened = reopen_at p peer_buffer old in (reopened, share reopened new, none)
  put_in fails p peer_buffer old new = (old, new, some session_not_found)
  put_in (takes q) p peer_buffer old new =
      let (new', added) = add_session maps q (share old new) in
      let reopened = reopen_at p peer_buffer new' in
      if added
      then (share reopened old, reopened, none)
      else (share new' old, new', some invalid_state)

  -- Complete when nothing comes in between.
  unfoldable pub complete :
      Option ℕ
      → Option ℕ
      → ℕ
      → ℕ
      → Mux maps W
      → Mux maps W
      → Mux maps W × Mux maps W × Option MigrateError
  complete old_link new_link p peer_buffer old new =
      let (old', removal) = take_out old_link new_link p old in
      put_in removal p peer_buffer old' new

  -- SendMigrateFrame on the old link; false is its error.
  unfoldable pub send_migrate_frame : Wire W → ℕ → Mux maps W → Mux maps W × Bool
  send_migrate_frame wire p m =
      let (w', fine) = wire.send (migrate (m.store p).nonce) m.wire_state in
      (record m { wire_state = w' }, fine)
