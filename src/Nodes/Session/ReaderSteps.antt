-- ===== src/Nodes/Session/ReaderSteps.antt =====
-- mod/nodes/src/mux_session_reader.go: what each call makes of the bytes that Read has still to hand
-- out.
use astrald.Prelude.{
  ℕ, ◌≢◌, ◌≡◌, refl, ◌⊎◌, inl, inr, arith, append-nil, append_assoc, true, false, Option, none,
  some, List, [], ◌∷◌, ◌++◌, length, Option-cases,
}
use astrald.Nodes.Buffers.Input
use astrald.Nodes.Buffers.Input.{
  InputBuffer, contents, PushResult, pushed, buffer_closed, buffer_overflow, bytes, eof,
  buffer_empty,
}
use astrald.Nodes.Buffers.Input.Invariant.{IsValid, push-IsValid, read-IsValid, close-IsValid}
use astrald.Nodes.Buffers.Input.Fifo.{
  data_of, accepted, contents-push, contents-read, contents-close,
}
use astrald.Nodes.Session.Reader.{SessionReader, end, read_data, push, advance, read_once, read}

abbrev pub queued : Option InputBuffer → List ℕ
queued none = []
queued (some b) = contents b

-- The bytes that Read has still to hand out.
abbrev pub stream : SessionReader → List ℕ
stream r = contents r.buf ++ queued r.next_buffer

abbrev IsValid? : Option InputBuffer → Type 0
IsValid? none = Unit {0}
IsValid? (some b) = IsValid b

-- Bytes go to the queued buffer only after the current one has closed.
pub record IsOrdered (r : SessionReader) : Type 0 where
  pub current : IsValid r.buf
  pub next : IsValid? r.next_buffer
  pub ordered : r.buf.closed ≡ false → queued r.next_buffer ≡ []

push-closed : (p : List ℕ) (b : InputBuffer) → (Input.push p b).0.closed ≡ b.closed
unfolding Input.push
push-closed p b = ground arith

push_result :
    (p : List ℕ) (b : InputBuffer)
    → ((b.closed ≡ true) × ((Input.push p b).1 ≡ buffer_closed))
      ⊎ ((b.closed ≡ false)
          × (((Input.push p b).1 ≡ pushed) ⊎ ((Input.push p b).1 ≡ buffer_overflow)))
unfolding Input.push
push_result p b = ground arith

read_front-closed :
    (xss : List (List ℕ)) (k : ℕ) (b : InputBuffer)
    → b.buf ≡ xss
    → ((Input.read_front xss k b).0.closed ≡ b.closed)
      × ((Input.read_front xss k b).1 ≡ eof → (contents b ≡ []) × (b.closed ≡ true))
unfolding Input.read_front
read_front-closed [] k b e = ground arith
read_front-closed (chunk ∷ rest) k b e = (ground arith, λ x. cc)

-- Read leaves the flag alone, and reports the end only of a closed buffer with nothing in it.
read-closed :
    (k : ℕ) (b : InputBuffer)
    → ((Input.read k b).0.closed ≡ b.closed)
      × ((Input.read k b).1 ≡ eof → (contents b ≡ []) × (b.closed ≡ true))
unfolding Input.read
read-closed k b = read_front-closed b.buf k b refl

pub push_step :
    (p : List ℕ) (r : SessionReader)
    → IsOrdered r
    → (stream (push p r).0 ≡ stream r ++ accepted (push p r).1 p) × IsOrdered (push p r).0
unfolding push
push_step p r o = elim (Option-cases r.next_buffer) [
  | inl e ↦ ground (
    arith,
    push-IsValid p r.buf o.current,
    push_result p r.buf,
    push-closed p r.buf,
    contents-push p r.buf,
    append-nil (contents r.buf),
    append-nil (contents (Input.push p r.buf).0),
  )
  | inr (b, e) ↦ ground (
    arith,
    push-IsValid p r.buf o.current,
    push-IsValid p b,
    push_result p r.buf,
    push-closed p r.buf,
    contents-push p r.buf,
    contents-push p b,
    append-nil (contents r.buf),
    append-nil (contents (Input.push p r.buf).0),
    append_assoc (contents r.buf) (contents b) (accepted (Input.push p b).1 p),
  )
]

read_once_step :
    (k : ℕ) (r : SessionReader)
    → IsOrdered r
    → (stream r
        ≡ read_data (elim (read_once k r).1 [ none ↦ end | some s ↦ s ])
          ++ stream (read_once k r).0)
      × IsOrdered (read_once k r).0
      × ((read_once k r).1 ≡ none → (read_once k r).0.next_buffer ≡ none)
unfolding read_once
read_once_step k r o = elim (Option-cases r.next_buffer) [
  | inl e ↦ ground (
    arith,
    read-IsValid k r.buf o.current,
    read-closed k r.buf,
    contents-read k r.buf,
    append-nil (contents r.buf),
    append-nil (contents (Input.read k r.buf).0),
    append-nil (data_of (Input.read k r.buf).1),
  )
  | inr (b, e) ↦ ground (
    arith,
    read-IsValid k r.buf o.current,
    read-closed k r.buf,
    contents-read k r.buf,
    append-nil (contents b),
    append_assoc (data_of (Input.read k r.buf).1) (contents (Input.read k r.buf).0) (contents b),
  )
]

-- With no buffer queued a round returns or waits, so Read goes round at most twice.
read_once_settles : (k : ℕ) (r : SessionReader) → r.next_buffer ≡ none → (read_once k r).1 ≢ none
unfolding read_once
read_once_settles k r e = ground arith

pub read_step :
    (k : ℕ) (r : SessionReader)
    → IsOrdered r
    → (stream r ≡ read_data (read k r).1 ++ stream (read k r).0) × IsOrdered (read k r).0
unfolding read
read_step k r o = ground (
  arith,
  read_once_step k r o,
  read_once_step k (read_once k r).0,
  read_once_settles k (read_once k r).0,
)

close-closed : (b : InputBuffer) → (Input.close b).closed ≡ true
unfolding Input.close
close-closed b = ground arith

contents-is_empty : (b : InputBuffer) → IsValid b → Input.is_empty b ≡ true → contents b ≡ []
unfolding Input.is_empty
contents-is_empty b v e = nothing (contents b) (ground (arith, v.counted))
  where
    nothing : (xs : List ℕ) → length xs ≡ 0 → xs ≡ []
    nothing [] h = refl
    nothing (x ∷ xs) h = absurd (omega arith)

pub advance_step :
    (r : SessionReader) → IsOrdered r → (stream (advance r) ≡ stream r) × IsOrdered (advance r)
unfolding advance
advance_step r o = elim (Option-cases r.next_buffer) [
  | inl e ↦ ground arith
  | inr (b, e) ↦ ground (
    arith,
    close-IsValid r.buf o.current,
    contents-close r.buf,
    close-closed r.buf,
    contents-is_empty (Input.close r.buf),
    append-nil (contents b),
  )
]
