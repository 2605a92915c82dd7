-- ===== src/Nodes/Buffers/Input.antt =====
-- mod/nodes/src/input_buffer.go: the bounded receive buffer of a session. A method that mutates
-- `*InputBuffer` returns the new record. The channels `shut` and `done` are counted by how often
-- they have been closed, since Go panics at the second time.
pub mod Invariant
pub mod Fifo
use astrald.Prelude.{ℕ, suc, ◌+◌, ◌-◌, ◌≤◌, ◌<◌, min, ◌≡◌, refl, sym, ap, ◌∙◌, ◌⊎◌, inl, inr, arith}
use astrald.Prelude.{Bool, true, false, not, ◌&&◌, Option, none, some, List, [], ◌∷◌, ◌++◌}
use astrald.Prelude.{if◌then◌else◌, ltb, ◌==◌, length, take, drop, concat, is_nil, contains}
use astrald.Prelude.{
  length-append, concat-append, concat_one, take-append-drop, length-take, length-drop,
}
use astrald.Nodes.Buffers.Wake.{
  Wake, no_wake, ready_ch, signal, IsSound, no_wake-IsSound, ready_ch-IsSound, signal-IsSound,
}

pub record InputBuffer : Type 0 where
  pub size : ℕ
  pub used : ℕ
  pub buf : List (List ℕ)
  pub wake : Wake
  pub shut_closes : ℕ
  pub done_closes : ℕ
  pub drained : Bool
  pub closed : Bool
  pub on_read : Bool  -- whether the callback is set

pub data PushResult : Type 0 where
  pushed buffer_closed buffer_overflow : PushResult

-- `bytes data credit`: the bytes copied out, and the argument of the onRead call, if it was made.
pub data ReadResult : Type 0 where
  bytes : List ℕ → Option ℕ → ReadResult
  eof : ReadResult
  buffer_empty : ℕ → ReadResult

-- NewInputBuffer
unfoldable pub new : ℕ → Bool → InputBuffer
new size on_read = record {
  size = size;
  used = 0;
  buf = [];
  wake = no_wake;
  shut_closes = 0;
  done_closes = 0;
  drained = false;
  closed = false;
  on_read = on_read;
}

-- Push
unfoldable pub push : List ℕ → InputBuffer → InputBuffer × PushResult
push p b =
    if b.closed
    then (b, buffer_closed)
    else if ltb b.size (b.used + length p)
    then (b, buffer_overflow)
    else (
      record b { buf = b.buf ++ (p ∷ []); used = b.used + length p; wake = signal b.wake },
      pushed,
    )

-- checkDone
unfoldable check_done : InputBuffer → InputBuffer
check_done b =
    if not b.drained && (b.closed && is_nil b.buf)
    then record b { drained = true; done_closes = suc b.done_closes }
    else b

-- What stays of the queue when the front chunk is cut down to `chunk`.
unfoldable pub put_back : List ℕ → List (List ℕ) → List (List ℕ)
put_back [] rest = rest
put_back (x ∷ xs) rest = (x ∷ xs) ∷ rest

-- The body of Read, for a destination of `k` bytes, by the queue it finds.
unfoldable pub read_front : List (List ℕ) → ℕ → InputBuffer → InputBuffer × ReadResult
unfolding check_done put_back
read_front [] k b =
    let (c, w) = ready_ch b.wake in
    if b.closed then (b, eof) else (record b { wake = w }, buffer_empty c)
read_front (chunk ∷ rest) k b =
    let n = min k (length chunk) in
    (
      check_done (record b { used = b.used - n; buf = put_back (drop n chunk) rest }),
      bytes (take n chunk) (if b.on_read then some n else none),
    )

-- Read
unfoldable pub read : ℕ → InputBuffer → InputBuffer × ReadResult
unfolding read_front
read k b = read_front b.buf k b

-- Close
unfoldable pub close : InputBuffer → InputBuffer
unfolding check_done
close b =
    if b.closed
    then b
    else check_done (record b {
      closed = true;
      on_read = false;
      shut_closes = suc b.shut_closes;
      wake = signal b.wake;
    })

-- IsEmpty
unfoldable pub is_empty : InputBuffer → Bool
is_empty b = b.used == 0

-- The bytes that a reader has still to get.
abbrev pub contents : InputBuffer → List ℕ
contents b = concat b.buf
