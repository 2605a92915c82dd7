-- ===== src/Nodes/Mux/Handlers.antt =====
-- mod/nodes/src/mux.go: the handlers of Response, Data, Read, Reset, Ping and Migrate frames.
use astrald.Prelude.{
  ℕ, ◌==◌, not, Bool, true, false, none, some, List, [], ◌∷◌, ◌++◌, length, if◌then◌else◌,
}
use astrald.Nodes.Frames.{Frame, ping, reset}
use astrald.Nodes.Callbacks.{Wire}
use astrald.Nodes.Buffers.Input.{pushed}
use astrald.Nodes.Session.{
  Session, SessionState, state_routing, state_open, state_migrating, state_closed, open_session,
  swap_state, same_state,
}
use astrald.Nodes.Session.Reader
use astrald.Nodes.Mux.{SigMap, Mux, update}
use astrald.Nodes.Mux.Sessions.{close_session, grow_writer, peer_close_writer}

-- Whether a Response from this link answers the session: its transport source is the link's peer.
abbrev pub is_answered_by : ℕ → Session → Bool
is_answered_by remote s = elim s.source_identity [
  | some source ↦ source == remote
  | none ↦ s.remote_identity == remote
]

-- The session states in which data is taken.
abbrev pub takes_data : SessionState → Bool
takes_data state_open = true
takes_data state_migrating = true
takes_data state_routing = false
takes_data state_closed = false

module _ (maps : SigMap) {W : Type 0} (wire : Wire W) where
  send : Frame → Mux maps W → Mux maps W
  send f m = record m { wire_state = (wire.send f m.wire_state).0 }

  -- handleResponse, once the session is found.
  unfoldable pub response_for : ℕ → ℕ → ℕ → Mux maps W → Mux maps W
  response_for p err_code buffer m =
      let s = m.store p in
      if not (is_answered_by m.remote_identity s)
      then m
      else if not (err_code == 0)
      then elim (swap_state state_routing state_closed s) [
        | none ↦ m
        | some s' ↦ record m {
          store =
              update m.store p
                (record s' { routing_result = s'.routing_result ++ (err_code ∷ []) });
        }
      ]
      else elim (swap_state state_routing state_open s) [
        | none ↦ m
        | some s' ↦
            let grown : Session = record s' { writer = grow_writer buffer s'.writer } in
            let opened = open_session grown in
            record m {
              store =
                  update m.store p
                    (record opened { routing_result = opened.routing_result ++ (0 ∷ []) });
            }
      ]

  -- handleResponse
  unfoldable pub handle_response : ℕ → ℕ → ℕ → Mux maps W → Mux maps W
  handle_response nonce err_code buffer m = elim (maps.get nonce m.sessions) [
    | none ↦ m
    | some p ↦ response_for p err_code buffer m
  ]

  -- handleData, once the session is found and takes data: push, or close the session.
  unfoldable pub data_for : ℕ → List ℕ → Mux maps W → Mux maps W
  data_for p payload m =
      let s = m.store p in
      elim s.reader [
        | none ↦ m
        | some r ↦
            let (r', res) = Reader.push payload r in
            let stored : Mux maps W = record m {
              store = update m.store p (record s { reader = some r' });
            } in
            elim res [ pushed ↦ stored | _ ↦ close_session maps wire p stored ]
      ]

  -- handleData
  unfoldable pub handle_data : ℕ → List ℕ → Mux maps W → Mux maps W
  unfolding send
  handle_data nonce payload m = elim (maps.get nonce m.sessions) [
    | none ↦ send (reset nonce) m
    | some p ↦
        if takes_data (m.store p).state
        then data_for p payload
            (record m { wire_state = wire.on_bytes (length payload) m.wire_state })
        else send (reset nonce) m
  ]

  -- handleRead
  unfoldable pub handle_read : ℕ → ℕ → Mux maps W → Mux maps W
  unfolding send
  handle_read nonce len m = elim (maps.get nonce m.sessions) [
    | none ↦ send (reset nonce) m
    | some p ↦
        let s = m.store p in
        record m { store = update m.store p (record s { writer = grow_writer len s.writer }) }
  ]

  -- handleReset
  unfoldable pub handle_reset : ℕ → Mux maps W → Mux maps W
  handle_reset nonce m = elim (maps.get nonce m.sessions) [
    | none ↦ m
    | some p ↦
        let s = m.store p in
        close_session maps wire p
          (record m { store = update m.store p (record s { writer = peer_close_writer s.writer }) })
  ]

  -- handlePing; `on_pong` is what the link does with the nonce of a pong.
  unfoldable pub handle_ping : (ℕ → W → W) → ℕ → Bool → Mux maps W → Mux maps W
  unfolding send
  handle_ping on_pong nonce pong m =
      if pong
      then record m { wire_state = on_pong nonce m.wire_state }
      else send (ping nonce true) m

  -- handleMigrate
  unfoldable pub handle_migrate : ℕ → Mux maps W → Mux maps W
  handle_migrate nonce m = elim (maps.get nonce m.sessions) [
    | none ↦ m
    | some p ↦
        let s = m.store p in
        if not (same_state s.state state_migrating) then m else elim s.reader [
          | none ↦ m
          | some r ↦ record m {
            store = update m.store p (record s { reader = some (Reader.advance r) });
          }
        ]
  ]
