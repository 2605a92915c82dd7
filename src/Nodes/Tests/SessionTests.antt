-- ===== src/Nodes/Tests/SessionTests.antt =====
-- A session's reader and writer, run on a few bytes.
use astrald.Prelude.{
  length, ◌+◌, ◌≤◌, ◌<◌, min, ◌≡◌, ◌≢◌, refl, ◌⊎◌, false, List, [], ◌∷◌, ◌++◌, arith, take, drop,
}
use astrald.Nodes.Buffers.Wake.{ready_ch}
use astrald.Nodes.Buffers.Output
use astrald.Nodes.Flow.{recording}
use astrald.Nodes.Flow.Conservation.{payloads}
use astrald.Nodes.Flow.WriterCredit.{write_settles, write_spends}
use astrald.Nodes.Session.Writer
use astrald.Nodes.Session.Writer.{SessionWriter, write, wrote_all, waits_credit, out_of_fuel}
use astrald.Nodes.Session.ReaderSteps.{stream, queued}
use astrald.Nodes.Session.ReaderStream.{Call, start, calls, reader_stream}

-- Bytes on both sides of a migration.
abbrev script : List Call
script =
    Call.pushes (1 ∷ 2 ∷ [])
    ∷ Call.queues
    ∷ Call.advances
    ∷ Call.pushes (3 ∷ [])
    ∷ Call.reads 1
    ∷ Call.advances
    ∷ Call.reads 8
    ∷ []

reader_stream_example :
    let t = calls start script in
    (length t.given ≡ length t.got_bytes + length (stream t.reader) + t.lost)
    × (t.lost ≡ 0 → t.given ≡ t.got_bytes ++ stream t.reader)
    × (t.reader.buf.closed ≡ false → queued t.reader.next_buffer ≡ [])
reader_stream_example = reader_stream script

-- A writer with credit for two bytes.
abbrev poor_writer : SessionWriter
poor_writer = Writer.grow 2 (Writer.new 7 Output.new)

write_settles_example : (write recording (1 ∷ 2 ∷ 3 ∷ []) poor_writer []).2 ≢ out_of_fuel
write_settles_example = write_settles recording (1 ∷ 2 ∷ 3 ∷ []) poor_writer []

poor_writer-live :
    (poor_writer.closed ≡ false) × (poor_writer.paused ≡ false) × (poor_writer.buf.closed ≡ false)
unfolding Writer.grow Writer.new Output.new Output.grow
poor_writer-live = (refl, refl, refl)

write_spends_example :
    let r = write recording (1 ∷ 2 ∷ 3 ∷ []) poor_writer [] in
    (payloads r.1 ≡ payloads [] ++ take (min poor_writer.buf.wsize 3) (1 ∷ 2 ∷ 3 ∷ []))
    × (r.0.buf.wsize + min poor_writer.buf.wsize 3 ≡ poor_writer.buf.wsize)
    × (((3 ≤ poor_writer.buf.wsize) × (r.2 ≡ wrote_all (0 + 3)))
        ⊎ ((poor_writer.buf.wsize < 3)
            × (r.2
                ≡ waits_credit
                    (ready_ch poor_writer.buf.wake).0
                    (0 + poor_writer.buf.wsize)
                    (drop poor_writer.buf.wsize (1 ∷ 2 ∷ 3 ∷ [])))))
write_spends_example = write_spends (1 ∷ 2 ∷ 3 ∷ []) poor_writer [] poor_writer-live (omega arith)
