-- ===== src/Nodes/Mux/Sessions.antt =====
-- mod/nodes/src/mux_sessions.go, and Session.Close, which reaches into the mux and the link.
use astrald.Prelude.{ℕ, suc, Bool, true, false, Option, none, some, List, [], ◌∷◌, if◌then◌else◌}
use astrald.Nodes.Callbacks.{Wire, default_buffer_size}
use astrald.Nodes.Buffers.Input
use astrald.Nodes.Buffers.Output
use astrald.Nodes.Session.{Session, state_closed, new_session, setup}
use astrald.Nodes.Session.Reader
use astrald.Nodes.Session.Reader.{SessionReader}
use astrald.Nodes.Session.Writer
use astrald.Nodes.Session.Writer.{SessionWriter}
use astrald.Nodes.Mux.{SigMap, Mux, update}

abbrev pub close_reader : Option SessionReader → Option SessionReader
close_reader none = none
close_reader (some r) = some (Reader.close r)

abbrev pub peer_close_writer : Option SessionWriter → Option SessionWriter
peer_close_writer none = none
peer_close_writer (some w) = some (Writer.peer_close w)

abbrev pub grow_writer : ℕ → Option SessionWriter → Option SessionWriter
grow_writer n none = none
grow_writer n (some w) = some (Writer.grow n w)

abbrev pub delete_key : (maps : SigMap) → Option ℕ → maps.Map → maps.Map
delete_key maps none m = m
delete_key maps (some k) m = (maps.delete k m).0

-- What createSession makes of a new session before Setup.
abbrev fresh_session : ℕ → ℕ → ℕ → Option ℕ → List ℕ → Bool → Session
fresh_session fresh nonce remote source query outbound =
    record (new_session fresh nonce remote source query outbound) { on_close = some nonce }

module _ (maps : SigMap) {W : Type 0} where
  -- removeSession; none is ErrSessionNotFound.
  unfoldable pub remove_session : ℕ → Mux maps W → Mux maps W × Option ℕ
  remove_session nonce m =
      let (sessions', found) = maps.delete nonce m.sessions in
      (record m { sessions = sessions' }, found)

  -- addSession of the session at `p`; false is ErrInvalidSessionState.
  unfoldable pub add_session : ℕ → Mux maps W → Mux maps W × Bool
  add_session p m =
      let s = m.store p in
      let (sessions', set) = maps.set s.nonce p m.sessions in
      if set
      then (
        record m {
          sessions = sessions';
          store = update m.store p (record s { on_close = some s.nonce });
        },
        true,
      )
      else (m, false)

module _ (maps : SigMap) {W : Type 0} (wire : Wire W) where
  abbrev pub close_writer : Option SessionWriter → W → Option SessionWriter × W
  close_writer none s = (none, s)
  close_writer (some w) s = let (w', s') = Writer.close wire w s in (some w', s')

  -- Session.Close on the session at `p`: the callback deletes its key, then the writer closes, which
  -- sends a Reset, then the reader.
  unfoldable pub close_session : ℕ → Mux maps W → Mux maps W
  close_session p m =
      let s = m.store p in
      let (w', sent) = close_writer s.writer m.wire_state in
      if s.closed then m else record m {
        sessions = delete_key maps s.on_close m.sessions;
        wire_state = sent;
        store = update m.store p (record s {
          state = state_closed;
          closed = true;
          writer = w';
          reader = close_reader s.reader;
        });
      }

  -- createSession; none is the failure.
  unfoldable pub create_session :
      ℕ → ℕ → ℕ → Option ℕ → List ℕ → Bool → ℕ → Mux maps W → Mux maps W × Option ℕ
  create_session fresh nonce remote source query outbound peer_buffer m =
      let p = m.made in
      let (sessions', set) = maps.set nonce p m.sessions in
      let s = fresh_session fresh nonce remote source query outbound in
      let r = Reader.new (Input.new default_buffer_size true) in
      let w = Writer.grow peer_buffer (Writer.new nonce Output.new) in
      if set
      then elim (setup r w s) [
        | none ↦ (
          record m {
            sessions = (maps.delete nonce sessions').0;
            store = update m.store p s;
            made = suc p;
          },
          none,
        )
        | some s' ↦
            (record m { sessions = sessions'; store = update m.store p s'; made = suc p }, some p)
      ]
      else (m, none)

  unfoldable pub close_list : List ℕ → Mux maps W → Mux maps W
  close_list [] m = m
  close_list (p ∷ ps) m = close_list ps (close_session p m)

  -- closeAllSessions
  unfoldable pub close_all_sessions : Mux maps W → Mux maps W
  close_all_sessions m = close_list (maps.values m.sessions) m
