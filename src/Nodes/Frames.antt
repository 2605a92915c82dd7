-- ===== src/Nodes/Frames.antt =====
-- mod/nodes/frames: the frames of a node link and their WriteTo and ReadFrom methods.
-- The byte order (astral.ByteOrder) and the identity encoding (astral.Identity) come from a
-- package outside the repository and are parameters. An identity is the number that its bytes
-- spell, with 0 the zero identity; a nil *astral.Identity is `none`.
pub mod Codec
pub mod Writing
pub mod RoundTrip
pub mod Partial
use astrald.Prelude.{ℕ, Bool, List, Option}

pub record Query : Type 0 where
  pub nonce : ℕ
  pub buffer : ℕ
  pub query : List ℕ

pub data Frame : Type 0 where
  ping : ℕ → Bool → Frame
  query : Query → Frame
  relay_query : Option ℕ → Option ℕ → Query → Frame
  read : ℕ → ℕ → Frame
  response : ℕ → ℕ → ℕ → Frame
  data_frame : ℕ → List ℕ → Frame
  migrate : ℕ → Frame
  reset : ℕ → Frame

-- The object types of FrameTypes, in the order of their opcodes.
pub data FrameType : Type 0 where
  ping_type query_type relay_query_type read_type response_type data_type migrate_type reset_type :
      FrameType

abbrev pub type_of : Frame → FrameType
type_of (ping n p) = ping_type
type_of (query q) = query_type
type_of (relay_query c t q) = relay_query_type
type_of (read n l) = read_type
type_of (response n e b) = response_type
type_of (data_frame n p) = data_type
type_of (migrate n) = migrate_type
type_of (reset n) = reset_type

abbrev pub code_accepted : ℕ
code_accepted = 0

abbrev pub code_rejected : ℕ
code_rejected = 1
