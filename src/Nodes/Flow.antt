-- ===== src/Nodes/Flow.antt =====
-- One direction of a session over a link that delivers frames in order: the sender's OutputBuffer,
-- the frames on their way, the receiver's InputBuffer and the Read frames on their way back.
-- A schedule is a list of moves, each made by the side or the link that can make it.
pub mod Conservation
pub mod WriterCredit
use astrald.Prelude.{
  ℕ, ◌+◌, Bool, true, false, ◌||◌, Option, none, some, List, [], ◌∷◌, ◌++◌, take, length,
}
use astrald.Nodes.Frames.{Frame, ping, query, relay_query, response, data_frame, migrate, reset}
use astrald.Nodes.Callbacks.{Wire, default_buffer_size, on_write, on_read}
use astrald.Nodes.Buffers.Input
use astrald.Nodes.Buffers.Input.{
  InputBuffer, PushResult, ReadResult, pushed, buffer_closed, buffer_overflow, bytes, eof,
}
use astrald.Nodes.Buffers.Output
use astrald.Nodes.Buffers.Output.{OutputBuffer, WriteResult, wrote}
use astrald.Nodes.Buffers.Input.Fifo.{data_of}

-- A link that is up: every send succeeds and puts the frame behind those on their way.
abbrev pub recording : Wire (List Frame)
recording = record { send = λ f w. (w ++ (f ∷ []), true); on_bytes = λ n w. w }

-- `written`, `received` and `dropped` are the bytes that Write took, that Read handed out and that
-- arrived after the receiver closed; `overflowed` says whether a Push was refused for lack of room.
pub record Flow : Type 0 where
  pub out : OutputBuffer
  pub to_peer : List Frame
  pub inp : InputBuffer
  pub to_sender : List Frame
  pub written : List ℕ
  pub received : List ℕ
  pub dropped : List ℕ
  pub overflowed : Bool

pub data Move : Type 0 where
  writes : List ℕ → Move
  reads : ℕ → Move
  data_arrives credit_arrives reader_closes writer_closes : Move

abbrev pub taken : WriteResult → List ℕ → List ℕ
taken (wrote n fine) p = take n p
taken Output.buffer_closed p = []
taken (Output.buffer_empty c) p = []

abbrev pub refused : PushResult → List ℕ → List ℕ
refused pushed p = []
refused buffer_closed p = p
refused buffer_overflow p = p

abbrev is_overflow : PushResult → Bool
is_overflow pushed = false
is_overflow buffer_closed = false
is_overflow buffer_overflow = true

abbrev pub credit_of : ReadResult → Option ℕ
credit_of (bytes d c) = c
credit_of eof = none
credit_of (Input.buffer_empty c) = none

-- What handleData does to the session's reader, by the first frame on its way.
pub deliver : List Frame → Flow → Flow
deliver [] f = f
deliver (data_frame n p ∷ rest) f =
    let (b, r) = Input.push p f.inp in
    record f {
      to_peer = rest;
      inp = b;
      dropped = f.dropped ++ refused r p;
      overflowed = f.overflowed || is_overflow r;
    }
deliver (ping n p ∷ rest) f = record f { to_peer = rest }
deliver (query q ∷ rest) f = record f { to_peer = rest }
deliver (relay_query c t q ∷ rest) f = record f { to_peer = rest }
deliver (Frame.read n l ∷ rest) f = record f { to_peer = rest }
deliver (response n e b ∷ rest) f = record f { to_peer = rest }
deliver (migrate n ∷ rest) f = record f { to_peer = rest }
deliver (reset n ∷ rest) f = record f { to_peer = rest }

-- What handleRead does to the session's writer.
pub grant : List Frame → Flow → Flow
grant [] f = f
grant (Frame.read n l ∷ rest) f = record f { to_sender = rest; out = Output.grow l f.out }
grant (data_frame n p ∷ rest) f = record f { to_sender = rest }
grant (ping n p ∷ rest) f = record f { to_sender = rest }
grant (query q ∷ rest) f = record f { to_sender = rest }
grant (relay_query c t q ∷ rest) f = record f { to_sender = rest }
grant (response n e b ∷ rest) f = record f { to_sender = rest }
grant (migrate n ∷ rest) f = record f { to_sender = rest }
grant (reset n ∷ rest) f = record f { to_sender = rest }

abbrev pub give_back : ℕ → Option ℕ → List Frame → List Frame
give_back nonce none w = w
give_back nonce (some n) w = on_read recording nonce n w

unfoldable pub move : ℕ → Flow → Move → Flow
move nonce f (writes p) =
    let (o, w, r) = Output.write (on_write recording nonce) p f.out f.to_peer in
    record f { out = o; to_peer = w; written = f.written ++ taken r p }
move nonce f (reads k) =
    let (b, r) = Input.read k f.inp in
    record f {
      inp = b;
      received = f.received ++ data_of r;
      to_sender = give_back nonce (credit_of r) f.to_sender;
    }
move nonce f data_arrives = deliver f.to_peer f
move nonce f credit_arrives = grant f.to_sender f
move nonce f reader_closes = record f { inp = Input.close f.inp }
move nonce f writer_closes = record f { out = Output.close f.out }

pub moves : ℕ → Flow → List Move → Flow
moves nonce f [] = f
moves nonce f (m ∷ ms) = moves nonce (move nonce f m) ms

-- The session as the Query frame's or the Response frame's Buffer opens it.
pub open_flow : Flow
open_flow = record {
  out = Output.grow default_buffer_size Output.new;
  to_peer = [];
  inp = Input.new default_buffer_size true;
  to_sender = [];
  written = [];
  received = [];
  dropped = [];
  overflowed = false;
}
