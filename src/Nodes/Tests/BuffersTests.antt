-- ===== src/Nodes/Tests/BuffersTests.antt =====
-- Buffers and a flow, run on a few bytes.
use astrald.Prelude.{
  ℕ, ◌+◌, ◌≡◌, refl, true, false, List, [], ◌∷◌, ◌++◌, some, arith, length, concat, All,
}
use astrald.Nodes.Frames.{Frame}
use astrald.Nodes.Callbacks.{default_buffer_size, IsPayload, send_all, on_write, on_write_chunks}
use astrald.Nodes.Buffers.Wake.{signal}
use astrald.Nodes.Buffers.Input
use astrald.Nodes.Buffers.Input.{
  InputBuffer, contents, push, pushed, buffer_closed, buffer_overflow, read, close,
}
use astrald.Nodes.Buffers.Input.Invariant.{IsValid}
use astrald.Nodes.Buffers.Input.Fifo.{
  Call, pushes, reads, closes, calls, start, calls_stream, drain, drain_all,
}
use astrald.Nodes.Flow
use astrald.Nodes.Flow.{Flow, Move, recording, moves, move, open_flow, data_arrives, credit_arrives}
use astrald.Nodes.Flow.Conservation.{payloads, owed, flow_conserved, flow_stream}

abbrev script : List Call
script =
    reads 4
    ∷ pushes (1 ∷ 2 ∷ 3 ∷ [])
    ∷ reads 2
    ∷ pushes (4 ∷ [])
    ∷ pushes (5 ∷ 6 ∷ 7 ∷ 8 ∷ [])
    ∷ closes
    ∷ []

abbrev script_end : InputBuffer
script_end = (calls (start 4 true) script).buffer

-- The last chunk does not fit beside the two bytes that are left.
script_contents : contents script_end ≡ 3 ∷ 4 ∷ []
unfolding calls Input.new push read close signal
script_contents = refl

script_closed : script_end.closed ≡ true
unfolding calls Input.new push read close signal
script_closed = refl

script_size : script_end.used + length script_end.buf ≡ 4
unfolding calls Input.new push read close signal
script_size = refl

calls_stream_example :
    let t = calls (start 4 true) script in IsValid t.buffer × (t.given ≡ t.got ++ contents t.buffer)
calls_stream_example = calls_stream 4 true script

drain_all_example : drain 5 1 script_end ≡ some (contents script_end)
drain_all_example =
    drain_all 5 1 script_end calls_stream_example.0 script_closed (omega arith)
      (omega (arith, script_size))

on_write_chunks_example :
    (cs : List (List ℕ)) × (concat cs ≡ 1 ∷ 2 ∷ [])
    × All (IsPayload recording 3) cs
    × ((w : List Frame) → on_write recording 3 (1 ∷ 2 ∷ []) w ≡ send_all recording 3 cs w)
on_write_chunks_example = on_write_chunks recording 3 (1 ∷ 2 ∷ [])

abbrev schedule : List Move
schedule =
    Flow.writes (1 ∷ 2 ∷ 3 ∷ [])
    ∷ data_arrives
    ∷ Flow.reads 2
    ∷ Flow.writes (4 ∷ [])
    ∷ credit_arrives
    ∷ Flow.reader_closes
    ∷ data_arrives
    ∷ []

flow_conserved_example :
    let f = moves 7 open_flow schedule in
    (f.overflowed ≡ false)
    × (f.inp.closed ≡ false
        → f.out.wsize + length (payloads f.to_peer) + f.inp.used + owed f.to_sender
          ≡ default_buffer_size)
flow_conserved_example = flow_conserved 7 schedule

flow_stream_example :
    let f = moves 7 open_flow schedule in
    (f.written ≡ f.received ++ (contents f.inp ++ (f.dropped ++ payloads f.to_peer)))
    × (f.inp.closed ≡ false → f.dropped ≡ [])
flow_stream_example = flow_stream 7 schedule
