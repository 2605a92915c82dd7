-- ===== src/Nodes/Session/ReaderStream.antt =====
-- The byte stream of a session's reader runs on across changes of its buffers.
use astrald.Prelude.{
  ℕ, ◌+◌, length-append, ◌≡◌, refl, arith, append-nil, append_assoc, true, false, List, [], ◌∷◌,
  ◌++◌, length,
}
use astrald.Nodes.Callbacks.{default_buffer_size}
use astrald.Nodes.Buffers.Input
use astrald.Nodes.Buffers.Input.{
  InputBuffer, contents, PushResult, pushed, buffer_closed, buffer_overflow, bytes, eof,
  buffer_empty,
}
use astrald.Nodes.Buffers.Input.Invariant.{new-IsValid}
use astrald.Nodes.Buffers.Input.Fifo.{accepted}
use astrald.Nodes.Session.Reader
use astrald.Nodes.Session.Reader.{
  SessionReader, ReadStep, got, end, waits_resume, waits_data, read_data, push, pause, resume,
  advance, set_next_buffer, read_once, read,
}
use astrald.Nodes.Session.ReaderSteps.{
  queued, stream, IsOrdered, push_step, read_step, advance_step,
}

pub data Call : Type 0 where
  pushes : List ℕ → Call
  reads : ℕ → Call
  queues advances pauses resumes : Call

-- `lost` counts the bytes that stood in a queued buffer when SetNextBuffer put another in its place.
pub record Trace : Type 0 where
  pub reader : SessionReader
  pub given : List ℕ
  pub got_bytes : List ℕ
  pub lost : ℕ

-- SetNextBuffer with a new buffer, as a migration's Begin calls it.
unfoldable pub queue : SessionReader → SessionReader
queue r = set_next_buffer (Input.new default_buffer_size true) r

unfoldable pub call : Trace → Call → Trace
call t (pushes p) =
    let (r, res) = push p t.reader in record t { reader = r; given = t.given ++ accepted res p }
call t (reads k) =
    let (r, res) = read k t.reader in
    record t { reader = r; got_bytes = t.got_bytes ++ read_data res }
call t queues = record t {
  reader = queue t.reader;
  lost = t.lost + length (queued t.reader.next_buffer);
}
call t advances = record t { reader = advance t.reader }
call t pauses = record t { reader = pause t.reader }
call t resumes = record t { reader = resume t.reader }

unfoldable pub calls : Trace → List Call → Trace
calls t [] = t
calls t (c ∷ cs) = calls (call t c) cs

abbrev pub start : Trace
start = record {
  reader = Reader.new (Input.new default_buffer_size true);
  given = [];
  got_bytes = [];
  lost = 0;
}

queue_step :
    (r : SessionReader)
    → IsOrdered r
    → (stream r ≡ stream (queue r) ++ queued r.next_buffer) × IsOrdered (queue r)
unfolding queue set_next_buffer
queue_step r o =
    let v = new-IsValid default_buffer_size true in
    unfold Input.new in ground (arith, v, append-nil (contents r.buf))

no_bytes : (xs : List ℕ) → length xs ≡ 0 → xs ≡ []
no_bytes [] h = refl
no_bytes (x ∷ xs) h = absurd (omega arith)

abbrev Good : Trace → Type 0
Good t =
    IsOrdered t.reader
    × (length t.given ≡ length t.got_bytes + length (stream t.reader) + t.lost)
    × (t.lost ≡ 0 → t.given ≡ t.got_bytes ++ stream t.reader)

-- A call that takes `a` in, hands `d` out and loses nothing.
moves-Good :
    (t : Trace) (r : SessionReader) (a d : List ℕ)
    → Good t
    → IsOrdered r
    → stream t.reader ++ a ≡ d ++ stream r
    → Good (record t { reader = r; given = t.given ++ a; got_bytes = t.got_bytes ++ d })
moves-Good t r a d (o, n, s) o' e = (
  o',
  omega (
    arith,
    n,
    length-append t.given a,
    length-append t.got_bytes d,
    length-append d (stream r),
    length-append (stream t.reader) a,
    same_length,
  ),
  λ z. ground (
    arith,
    s z,
    e,
    append_assoc t.got_bytes (stream t.reader) a,
    append_assoc t.got_bytes d (stream r),
  ),
)
  where
    same_length : length (stream t.reader ++ a) ≡ length (d ++ stream r)
    same_length = rw e refl

queues-Good : (t : Trace) → Good t → Good (call t queues)
unfolding call
queues-Good t (o, n, s) =
    let (e, o') = queue_step t.reader o in
    let q = queued t.reader.next_buffer in
    (
      o',
      ground (arith, n, e, length-append (stream (queue t.reader)) q),
      λ z. ground (arith, s, z, e, no_bytes q, append-nil (stream (queue t.reader))),
    )

call-Good : (t : Trace) (c : Call) → Good t → Good (call t c)
unfolding call
call-Good t (pushes p) (o, n, s) =
    let (e, o') = push_step p t.reader o in
    let a = accepted (push p t.reader).1 p in
    ground (arith, moves-Good t (push p t.reader).0 a [] (o, n, s) o', e, append-nil t.got_bytes)
call-Good t (reads k) (o, n, s) =
    let (e, o') = read_step k t.reader o in
    let d = read_data (read k t.reader).1 in
    ground (
      arith,
      moves-Good t (read k t.reader).0 [] d (o, n, s) o',
      e,
      append-nil t.given,
      append-nil (stream t.reader),
    )
call-Good t queues g = queues-Good t g
call-Good t advances (o, n, s) =
    let (e, o') = advance_step t.reader o in (o', ground (arith, e, n), ground (arith, e, s))
call-Good t pauses (o, n, s) = unfold pause in (ground arith, n, s)
call-Good t resumes (o, n, s) = unfold resume in (ground arith, n, s)

calls-Good : (t : Trace) (cs : List Call) → Good t → Good (calls t cs)
unfolding calls
calls-Good t [] g = g
calls-Good t (c ∷ cs) g = calls-Good (call t c) cs (call-Good t c g)

-- A session's reader is one byte stream, whatever buffers migrations give it: after any history of
-- Push, Read, SetNextBuffer, Advance, Pause and Resume, the accepted bytes are as many as those
-- handed out, those in the current and the queued buffer, and those that stood in a queued buffer
-- when SetNextBuffer replaced it; if it never replaced a buffer with bytes in it, the accepted bytes
-- are the bytes handed out, then those in the current buffer, then those in the queued one, in
-- order. And bytes stand in the queued buffer only once the current one is closed.
pub reader_stream :
    (cs : List Call)
    → let t = calls start cs in
      (length t.given ≡ length t.got_bytes + length (stream t.reader) + t.lost)
      × (t.lost ≡ 0 → t.given ≡ t.got_bytes ++ stream t.reader)
      × (t.reader.buf.closed ≡ false → queued t.reader.next_buffer ≡ [])
reader_stream cs =
    let v = new-IsValid default_buffer_size true in
    let g = calls-Good start cs (unfold Reader.new Input.new in ground (arith, v)) in
    (g.1, g.2, g.0.ordered)
