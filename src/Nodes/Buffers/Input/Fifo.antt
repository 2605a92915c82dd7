-- ===== src/Nodes/Buffers/Input/Fifo.antt =====
-- An InputBuffer as a byte stream: what readers get is what was pushed, in order, and a wait ends.
use astrald.Prelude.{
  ℕ, zero, suc, ◌+◌, ◌≤◌, ◌<◌, min, ◌≡◌, refl, sym, ap, ◌∙◌, ◌⊎◌, inl, inr, arith, append-nil,
  append_assoc,
}
use astrald.Prelude.{Bool, true, false, Option, none, some, List, [], ◌∷◌, ◌++◌}
use astrald.Prelude.{Bool-cases, ltb, length, take, drop, concat, contains}
use astrald.Prelude.{length-append, concat-append, concat_one, take-append-drop, length-drop}
use astrald.Nodes.Buffers.Wake.{Wake, signal, IsSound}
use astrald.Nodes.Buffers.Input.{
  InputBuffer, PushResult, pushed, buffer_closed, buffer_overflow, ReadResult, bytes, eof,
  buffer_empty, new, push, put_back, read_front, read, close, contents,
}
use astrald.Nodes.Buffers.Input.Invariant.{
  IsValid, new-IsValid, push-IsValid, read-IsValid, close-IsValid, concat-put_back,
}

abbrev pub data_of : ReadResult → List ℕ
data_of (bytes d c) = d
data_of eof = []
data_of (buffer_empty c) = []

abbrev pub accepted : PushResult → List ℕ → List ℕ
accepted pushed p = p
accepted buffer_closed p = []
accepted buffer_overflow p = []

concat_snoc : (xss : List (List ℕ)) (p : List ℕ) → concat (xss ++ (p ∷ [])) ≡ concat xss ++ p
concat_snoc xss p = rw (concat-append xss (p ∷ []), concat_one p)

-- Push adds the whole chunk at the end of the stream, or nothing.
pub contents-push :
    (p : List ℕ) (b : InputBuffer) → contents (push p b).0 ≡ contents b ++ accepted (push p b).1 p
unfolding push
contents-push p b = ground (arith, concat_snoc b.buf p, append-nil (contents b))

contents-read_front :
    (xss : List (List ℕ)) (k : ℕ) (b : InputBuffer)
    → b.buf ≡ xss
    → contents b ≡ data_of (read_front xss k b).1 ++ contents (read_front xss k b).0
unfolding read_front
contents-read_front [] k b e = ground arith
contents-read_front (chunk ∷ rest) k b e =
    let n = min k (length chunk) in
    ground (
      arith,
      concat-put_back (drop n chunk) rest,
      append_assoc (take n chunk) (drop n chunk) (concat rest),
      take-append-drop n chunk,
    )

-- Read takes its bytes off the front of the stream.
pub contents-read :
    (k : ℕ) (b : InputBuffer) → contents b ≡ data_of (read k b).1 ++ contents (read k b).0
unfolding read
contents-read k b = contents-read_front b.buf k b refl

pub contents-close : (b : InputBuffer) → contents (close b) ≡ contents b
unfolding close
contents-close b = ground arith

-- A history of calls, with the bytes that pushes handed in and reads handed out.
pub data Call : Type 0 where
  pushes : List ℕ → Call
  reads : ℕ → Call
  closes : Call

pub record Trace : Type 0 where
  pub buffer : InputBuffer
  pub given : List ℕ
  pub got : List ℕ

unfoldable pub call : Trace → Call → Trace
call t (pushes p) =
    let (b, r) = push p t.buffer in record t { buffer = b; given = t.given ++ accepted r p }
call t (reads k) = let (b, r) = read k t.buffer in record t { buffer = b; got = t.got ++ data_of r }
call t closes = record t { buffer = close t.buffer }

unfoldable pub calls : Trace → List Call → Trace
unfolding call
calls t [] = t
calls t (c ∷ cs) = calls (call t c) cs

abbrev pub start : ℕ → Bool → Trace
start size on_read = record { buffer = new size on_read; given = []; got = [] }

abbrev IsStream : Trace → Type 0
IsStream t = IsValid t.buffer × (t.given ≡ t.got ++ contents t.buffer)

call-IsStream : (t : Trace) (c : Call) → IsStream t → IsStream (call t c)
unfolding call
call-IsStream t (pushes p) (v, s) = (
  push-IsValid p t.buffer v,
  ap (λ (l : List ℕ). l ++ accepted (push p t.buffer).1 p) s
      ∙ append_assoc t.got (contents t.buffer) (accepted (push p t.buffer).1 p)
      ∙ ap (◌++◌ t.got) (sym (contents-push p t.buffer)),
)
call-IsStream t (reads k) (v, s) = (
  read-IsValid k t.buffer v,
  s
      ∙ ap (◌++◌ t.got) (contents-read k t.buffer)
      ∙ sym (append_assoc t.got (data_of (read k t.buffer).1) (contents (read k t.buffer).0)),
)
call-IsStream t closes (v, s) =
    (close-IsValid t.buffer v, s ∙ ap (◌++◌ t.got) (sym (contents-close t.buffer)))

calls-IsStream : (t : Trace) (cs : List Call) → IsStream t → IsStream (calls t cs)
unfolding calls
calls-IsStream t [] s = s
calls-IsStream t (c ∷ cs) s = calls-IsStream (call t c) cs (call-IsStream t c s)

-- After any history of Push, Read and Close on a new buffer, the invariant holds (`used` counts the
-- stored bytes and is at most `size`, no channel is closed twice, `done` is closed exactly if the
-- buffer is closed and drained, a wait is pending only on an open empty buffer), and the bytes of
-- the accepted pushes are the bytes handed out followed by the bytes still stored, in order.
pub calls_stream :
    (size : ℕ) (on_read : Bool) (cs : List Call)
    → let t = calls (start size on_read) cs in
      IsValid t.buffer × (t.given ≡ t.got ++ contents t.buffer)
unfolding new
calls_stream size on_read cs =
    calls-IsStream (start size on_read) cs (new-IsValid size on_read, refl)

all_woken : (w : Wake) (c : ℕ) → IsSound w → c < w.made → contains (signal w).shut c ≡ true
unfolding signal
all_woken w c s h = ground (arith, s.known c)

-- A chunk is refused exactly if the buffer is closed or the chunk does not fit; a refused push
-- changes nothing, and a push that is accepted, like Close, closes every wake channel that Read
-- has ever handed out, so no reader sleeps on a buffer that has data or is closed.
push_wakes :
    (p : List ℕ) (b : InputBuffer)
    → IsValid b
    → ((b.closed ≡ true) × (push p b ≡ (b, buffer_closed)))
      ⊎ ((b.closed ≡ false) × (b.size < b.used + length p) × (push p b ≡ (b, buffer_overflow)))
      ⊎ ((b.closed ≡ false)
          × (b.used + length p ≤ b.size)
          × ((push p b).1 ≡ pushed)
          × ((c : ℕ) → c < b.wake.made → contains (push p b).0.wake.shut c ≡ true))
unfolding push
push_wakes p b v = elim (Bool-cases b.closed) [
  | inl shut ↦ inl (shut, ground arith)
  | inr live ↦ elim (Bool-cases (ltb b.size (b.used + length p))) [
    | inl big ↦ inr (inl (live, ground arith, ground arith))
    | inr fits ↦ inr (
        inr (live, ground arith, ground arith, λ c h. ground (arith, all_woken b.wake c v.sound h)))
  ]
]

close_wakes :
    (b : InputBuffer) (c : ℕ) → IsValid b → c < b.wake.made → contains (close b).wake.shut c ≡ true
unfolding close
close_wakes b c v h = ground (arith, all_woken b.wake c v.sound h, v.waiting, v.sound.known c)

-- Reads of a closed buffer until it reports the end; none when `fuel` reads did not get there.
unfoldable pub drain : ℕ → ℕ → InputBuffer → Option (List ℕ)
drain zero k b = none
drain (suc fuel) k b =
    let rest = drain fuel k (read k b).0 in
    elim (read k b).1 [
      | bytes d c ↦ elim rest [ none ↦ none | some ds ↦ some (d ++ ds) ]
      | eof ↦ some []
      | buffer_empty c ↦ none
    ]

length-put_back :
    (xs : List ℕ) (rest : List (List ℕ))
    → (length (put_back xs rest) ≤ suc (length rest))
      × (length xs ≡ 0 → length (put_back xs rest) ≡ length rest)
unfolding put_back
length-put_back [] rest = (omega arith, λ e. refl)
length-put_back (x ∷ xs) rest = (omega arith, λ e. absurd (omega arith))

-- One Read of a closed buffer that still holds a chunk: it hands out bytes, stays closed, and either
-- the stored bytes or the chunks get fewer.
read_closed :
    (k : ℕ) (b : InputBuffer) (chunk : List ℕ) (rest : List (List ℕ))
    → IsValid b
    → b.closed ≡ true
    → 0 < k
    → b.buf ≡ chunk ∷ rest
    → ((read k b).1 ≡ bytes (data_of (read k b).1) none)
      × ((read k b).0.closed ≡ true)
      × ((read k b).0.used + length (read k b).0.buf < b.used + length b.buf)
unfolding read read_front
read_closed k b chunk rest v shut pos e =
    let n = min k (length chunk) in
    ground (
      arith,
      length-put_back (drop n chunk) rest,
      length-drop n chunk,
      length-append chunk (concat rest),
      v.counted,
    )

drain_step :
    (fuel k : ℕ) (b : InputBuffer) (d : List ℕ) (c : Option ℕ)
    → (read k b).1 ≡ bytes d c
    → drain fuel k (read k b).0 ≡ some (contents (read k b).0)
    → drain (suc fuel) k b ≡ some (contents b)
unfolding drain
drain_step fuel k b d c e ih = ground (arith, contents-read k b)

drain_end :
    (fuel k : ℕ) (b : InputBuffer)
    → b.closed ≡ true
    → b.buf ≡ []
    → drain (suc fuel) k b ≡ some (contents b)
unfolding drain read read_front
drain_end fuel k b shut e = ground arith

drain_from :
    (fuel k : ℕ) (b : InputBuffer) (xss : List (List ℕ))
    → b.buf ≡ xss
    → IsValid b
    → b.closed ≡ true
    → 0 < k
    → b.used + length b.buf < fuel
    → drain fuel k b ≡ some (contents b)
drain_from zero k b xss e v shut pos enough = absurd (omega arith)
drain_from (suc fuel) k b [] e v shut pos enough = drain_end fuel k b shut e
drain_from (suc fuel) k b (chunk ∷ rest) e v shut pos enough =
    let (out, shut', less) = read_closed k b chunk rest v shut pos e in
    drain_step fuel k b _ none out (
      drain_from fuel k (read k b).0 (read k b).0.buf refl (read-IsValid k b v) shut' pos
        (omega arith))

-- A closed buffer hands out everything it holds before it reports the end: repeated reads into a
-- non-empty destination return exactly the stored bytes and then EOF, within one read more than
-- there are stored bytes and chunks.
pub drain_all :
    (fuel k : ℕ) (b : InputBuffer)
    → IsValid b
    → b.closed ≡ true
    → 0 < k
    → b.used + length b.buf < fuel
    → drain fuel k b ≡ some (contents b)
drain_all fuel k b v shut pos enough = drain_from fuel k b b.buf refl v shut pos enough
