-- ===== src/Nodes/Session/Writer.antt =====
-- mod/nodes/src/mux_session_writer.go
use astrald.Prelude.{
  ℕ, zero, suc, ◌+◌, Bool, true, false, List, [], ◌∷◌, if◌then◌else◌, length, drop,
}
use astrald.Nodes.Callbacks.{Wire, on_write, on_reset}
use astrald.Nodes.Buffers.Output
use astrald.Nodes.Buffers.Output.{OutputBuffer, wrote, buffer_closed, buffer_empty}

-- `nonce` is the one that the callbacks of `buf` and `reset` captured when they were made.
pub record SessionWriter : Type 0 where
  pub closed : Bool
  pub paused : Bool
  pub buf : OutputBuffer
  pub nonce : ℕ

-- `wrote_all n`: the call returned n and no error. The failures return the bytes taken so far.
-- The last two wait, with the bytes taken so far and the rest still to be written.
pub data WriteStep : Type 0 where
  wrote_all : ℕ → WriteStep
  closed_pipe : ℕ → WriteStep
  send_failed : ℕ → WriteStep
  closed_buffer : ℕ → WriteStep
  waits_resume : ℕ → List ℕ → WriteStep
  waits_credit : ℕ → ℕ → List ℕ → WriteStep
  out_of_fuel : WriteStep

-- newSessionWriter
unfoldable pub new : ℕ → OutputBuffer → SessionWriter
new nonce b = record { closed = false; paused = false; buf = b; nonce = nonce }

-- PeerClose
unfoldable pub peer_close : SessionWriter → SessionWriter
peer_close w = if w.closed then w else record w { closed = true; buf = Output.close w.buf }

-- SwapBuf: the new buffer and reset callback; the old buffer is closed and forgotten.
unfoldable pub swap_buf : ℕ → OutputBuffer → SessionWriter → SessionWriter
swap_buf nonce b w = record w { buf = b; nonce = nonce }

-- Grow
unfoldable pub grow : ℕ → SessionWriter → SessionWriter
grow n w = record w { buf = Output.grow n w.buf }

-- Pause
unfoldable pub pause : SessionWriter → SessionWriter
pause w = record w { paused = true }

-- Resume
unfoldable pub resume : SessionWriter → SessionWriter
resume w = record w { paused = false }

module _ {W : Type 0} (wire : Wire W) where
  -- Close
  unfoldable pub close : SessionWriter → W → SessionWriter × W
  close w s =
      if w.closed
      then (w, s)
      else (record w { closed = true; buf = Output.close w.buf }, on_reset wire w.nonce s)

  -- The loop of Write, with `total` bytes taken and `p` still to be written.
  unfoldable pub write_loop : ℕ → ℕ → List ℕ → SessionWriter → W → SessionWriter × W × WriteStep
  write_loop zero total p w s = (w, s, out_of_fuel)
  write_loop (suc fuel) total [] w s = (w, s, wrote_all total)
  write_loop (suc fuel) total (x ∷ xs) w s =
      let p : List ℕ = x ∷ xs in
      let (b, s', res) = Output.write (on_write wire w.nonce) p w.buf s in
      let again = λ (n : ℕ). write_loop fuel (total + n) (drop n p) (record w { buf = b }) s' in
      if w.closed
      then (w, s, closed_pipe total)
      else if w.paused
      then (w, s, waits_resume total p)
      else elim res [
        | wrote n fine ↦ elim fine [
          | true ↦ again n
          | false ↦ (record w { buf = b }, s', send_failed total)
        ]
        | buffer_closed ↦ (record w { buf = b }, s', closed_buffer total)
        | buffer_empty c ↦ (record w { buf = b }, s', waits_credit c total p)
      ]

  -- Write: each round takes a byte at least.
  unfoldable pub write : List ℕ → SessionWriter → W → SessionWriter × W × WriteStep
  write p w s = write_loop (suc (length p)) 0 p w s
