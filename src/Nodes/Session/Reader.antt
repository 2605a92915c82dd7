-- ===== src/Nodes/Session/Reader.antt =====
-- mod/nodes/src/mux_session_reader.go
use astrald.Prelude.{ℕ, Bool, true, false, Option, none, some, List, [], if◌then◌else◌}
use astrald.Nodes.Buffers.Input
use astrald.Nodes.Buffers.Input.{
  InputBuffer, PushResult, pushed, buffer_closed, buffer_overflow, bytes, eof, buffer_empty,
}

pub record SessionReader : Type 0 where
  pub paused : Bool
  pub buf : InputBuffer
  pub next_buffer : Option InputBuffer

-- `got d c`: Read returned the bytes d, and the buffer's onRead was called with c. `end` is io.EOF;
-- the last two are where Read waits, on the resume of the reader or on a wake channel.
pub data ReadStep : Type 0 where
  got : List ℕ → Option ℕ → ReadStep
  end waits_resume : ReadStep
  waits_data : ℕ → ReadStep

abbrev pub read_data : ReadStep → List ℕ
read_data (got d c) = d
read_data end = []
read_data waits_resume = []
read_data (waits_data c) = []

abbrev read_credit : ReadStep → Option ℕ
read_credit (got d c) = c
read_credit end = none
read_credit waits_resume = none
read_credit (waits_data c) = none

-- newSessionReader
unfoldable pub new : InputBuffer → SessionReader
new b = record { paused = false; buf = b; next_buffer = none }

-- Close: the queued buffer is closed and forgotten.
unfoldable pub close : SessionReader → SessionReader
close r = record r { buf = Input.close r.buf; next_buffer = none; paused = false }

-- Push
unfoldable pub push : List ℕ → SessionReader → SessionReader × PushResult
push p r =
    let (b, res) = Input.push p r.buf in
    elim res [
      | pushed ↦ (record r { buf = b }, pushed)
      | buffer_overflow ↦ (record r { buf = b }, buffer_overflow)
      | buffer_closed ↦ elim r.next_buffer [
        | none ↦ (record r { buf = b }, buffer_closed)
        | some next ↦
            let (b', res') = Input.push p next in
            (record r { buf = b; next_buffer = some b' }, res')
      ]
    ]

-- SetNextBuffer
unfoldable pub set_next_buffer : InputBuffer → SessionReader → SessionReader
set_next_buffer b r = record r { next_buffer = some b }

-- Pause
unfoldable pub pause : SessionReader → SessionReader
pause r = record r { paused = true }

-- Resume
unfoldable pub resume : SessionReader → SessionReader
resume r = record r { paused = false }

-- Advance
unfoldable pub advance : SessionReader → SessionReader
advance r = elim r.next_buffer [
  | none ↦ r
  | some next ↦
      let old = Input.close r.buf in
      if Input.is_empty old
      then record r { buf = next; next_buffer = none }
      else record r { buf = old }
]

-- One round of the loop of Read; `inr` goes round again.
unfoldable pub read_once : ℕ → SessionReader → SessionReader × Option ReadStep
read_once k r =
    let (b, res) = Input.read k r.buf in
    if r.paused then (r, some waits_resume) else elim res [
      | bytes d c ↦ (record r { buf = b }, some (got d c))
      | eof ↦ elim r.next_buffer [
        | none ↦ (record r { buf = b }, some end)
        | some next ↦ (record r { buf = next; next_buffer = none }, none)
      ]
      | buffer_empty c ↦ (record r { buf = b }, some (waits_data c))
    ]

-- Read: after one switch no buffer is queued, so the second round returns or waits.
unfoldable pub read : ℕ → SessionReader → SessionReader × ReadStep
read k r =
    let (r', out) = read_once k r in
    let (r'', out') = read_once k r' in
    elim out [
      | some step ↦ (r', step)
      | none ↦ elim out' [ some step ↦ (r'', step) | none ↦ (r'', waits_resume) ]
    ]
