-- ===== src/Nodes/Session.antt =====
-- mod/nodes/src/session.go, mux_session_reader.go and mux_session_writer.go: one query session over
-- a link. A call that would block returns at the point where it waits, and is made again later.
pub mod Reader
pub mod Writer
pub mod ReaderSteps
pub mod ReaderStream
use astrald.Prelude.{
  ℕ, ◌+◌, ◌==◌, if◌then◌else◌, Bool, true, false, not, ◌&&◌, Option, none, some, List, [], length,
}
use astrald.Nodes.Callbacks.{Wire}
use Reader.{SessionReader, ReadStep}
use Writer.{SessionWriter, WriteStep}

pub data SessionState : Type 0 where
  state_routing state_open state_migrating state_closed : SessionState

-- `on_close` is the key that the callback deletes from the sessions map of its mux.
pub record Session : Type 0 where
  pub nonce : ℕ
  pub remote_identity : ℕ
  pub source_identity : Option ℕ
  pub outbound : Bool
  pub query : List ℕ
  pub routing_result : List ℕ
  pub paused : Bool
  pub closed : Bool
  pub state : SessionState
  pub transferred : ℕ
  pub on_close : Option ℕ
  pub reader : Option SessionReader
  pub writer : Option SessionWriter

-- newSession; `fresh` is what astral.NewNonce returns.
unfoldable pub new_session : ℕ → ℕ → ℕ → Option ℕ → List ℕ → Bool → Session
new_session fresh nonce remote source query outbound = record {
  nonce = if nonce == 0 then fresh else nonce;
  remote_identity = remote;
  source_identity = source;
  outbound = outbound;
  query = query;
  routing_result = [];
  paused = true;
  closed = false;
  state = state_routing;
  transferred = 0;
  on_close = none;
  reader = none;
  writer = none;
}

-- Setup: none is ErrSessionClosed.
unfoldable pub setup : SessionReader → SessionWriter → Session → Option Session
setup r w s = if s.closed then none else some (record s { reader = some r; writer = some w })

-- Open
unfoldable pub open_session : Session → Session
open_session s = record s { paused = false }

SessionState-discrete : Discrete SessionState
SessionState-discrete = hlevel

abbrev pub same_state : SessionState → SessionState → Bool
same_state state_routing state_routing = true
same_state state_open state_open = true
same_state state_migrating state_migrating = true
same_state state_closed state_closed = true
same_state _ _ = false

-- swapState: none if the state is not `old`.
unfoldable pub swap_state : SessionState → SessionState → Session → Option Session
swap_state old next s = if same_state s.state old then some (record s { state = next }) else none

-- setState
unfoldable pub set_state : SessionState → Session → Session
set_state next s = record s { state = next }

-- IsOpen
unfoldable is_open : Session → Bool
is_open s = same_state s.state state_open

-- What Session.Read and Session.Write return, or where they wait. `session_closed` is
-- ErrSessionClosed, `nil_writer` the panic of a session that was never set up.
pub data Step (A : Type 0) : Type 0 where
  waits_paused session_closed nil_writer : Step A
  finished : A → Step A

-- Read: with no reader it reports EOF.
unfoldable pub read : ℕ → Session → Session × Step ReadStep
read k s = if s.paused && not s.closed then (s, waits_paused) else elim s.reader [
  | none ↦ (s, finished ReadStep.end)
  | some r ↦
      let (r', out) = Reader.read k r in
      (
        record s { reader = some r'; transferred = s.transferred + length (Reader.read_data out) },
        finished out,
      )
]

-- The count that a Write adds to `bytes` when it returns.
abbrev write_count : WriteStep → ℕ
write_count (WriteStep.wrote_all n) = n
write_count (WriteStep.closed_pipe n) = n
write_count (WriteStep.send_failed n) = n
write_count (WriteStep.closed_buffer n) = n
write_count (WriteStep.waits_resume n p) = 0
write_count (WriteStep.waits_credit c n p) = 0
write_count WriteStep.out_of_fuel = 0

-- Write
unfoldable pub write : {W : Type 0} → Wire W → List ℕ → Session → W → Session × W × Step WriteStep
write wire p s w =
    if s.paused && not s.closed
    then (s, w, waits_paused)
    else if s.closed
    then (s, w, session_closed)
    else elim s.writer [
      | none ↦ (s, w, nil_writer)
      | some sw ↦
          let (sw', w', out) = Writer.write wire p sw w in
          (
            record s { writer = some sw'; transferred = s.transferred + write_count out },
            w',
            finished out,
          )
    ]
