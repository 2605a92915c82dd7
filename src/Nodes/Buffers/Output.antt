-- ===== src/Nodes/Buffers/Output.antt =====
-- mod/nodes/src/output_buffer.go: the flow-controlled send buffer of a session. The write callback
-- is an argument: it takes the bytes and the state of what it writes to, and reports success.
use astrald.Prelude.{ℕ, ◌+◌, ◌-◌, ◌<◌, min, ◌≡◌, ◌⊎◌, inl, inr, arith}
use astrald.Prelude.{Bool, true, false, none, some, List}
use astrald.Prelude.{if◌then◌else◌, ◌==◌, length, take, contains, is_some, Bool-cases}
use astrald.Nodes.Buffers.Wake.{
  Wake, no_wake, ready_ch, signal, IsSound, no_wake-IsSound, ready_ch-IsSound, signal-IsSound,
}

pub record OutputBuffer : Type 0 where
  pub wsize : ℕ
  pub wake : Wake
  pub closed : Bool

-- `wrote n fine`: n bytes were taken, and `fine` says whether the callback reported no error.
pub data WriteResult : Type 0 where
  wrote : ℕ → Bool → WriteResult
  buffer_closed : WriteResult
  buffer_empty : ℕ → WriteResult

-- NewOutputBuffer
unfoldable pub new : OutputBuffer
new = record { wsize = 0; wake = no_wake; closed = false }

-- Write
unfoldable pub write :
    {W : Type 0}
    → (List ℕ → W → W × Bool)
    → List ℕ
    → OutputBuffer
    → W
    → OutputBuffer × W × WriteResult
write callback p b w =
    let (c, waiting) = ready_ch b.wake in
    let n = min b.wsize (length p) in
    let (w', fine) = callback (take n p) w in
    if b.closed
    then (b, w, buffer_closed)
    else if b.wsize == 0
    then (record b { wake = waiting }, w, buffer_empty c)
    else (record b { wsize = b.wsize - n }, w', wrote n fine)

-- Grow
unfoldable pub grow : ℕ → OutputBuffer → OutputBuffer
grow n b = record b { wsize = b.wsize + n; wake = signal b.wake }

-- Close
unfoldable pub close : OutputBuffer → OutputBuffer
close b = record b { closed = true; wake = signal b.wake }

-- A wait is pending only on an open buffer without credit, and no wake-up is lost.
pub record IsValid (b : OutputBuffer) : Type 0 where
  pub sound : IsSound b.wake
  pub waiting : is_some b.wake.ready ≡ true → (b.wsize ≡ 0) × (b.closed ≡ false)

pub new-IsValid : IsValid new
unfolding new
new-IsValid = record { sound = no_wake-IsSound; waiting = λ e. cc }

write-IsValid :
    {W : Type 0} (callback : List ℕ → W → W × Bool) (p : List ℕ) (b : OutputBuffer) (w : W)
    → IsValid b
    → IsValid (write callback p b w).0
unfolding write
write-IsValid callback p b w v = ground (arith, ready_ch-IsSound b.wake v.sound)

signal-ready : (w : Wake) → (signal w).ready ≡ none
unfolding signal
signal-ready w = ground arith

grow-IsValid : (n : ℕ) (b : OutputBuffer) → IsValid b → IsValid (grow n b)
unfolding grow
grow-IsValid n b v = ground (arith, signal-IsSound b.wake v.sound, signal-ready b.wake)

pub close-IsValid : (b : OutputBuffer) → IsValid b → IsValid (close b)
unfolding close
close-IsValid b v = ground (arith, signal-IsSound b.wake v.sound, signal-ready b.wake)

all_woken : (w : Wake) (c : ℕ) → IsSound w → c < w.made → contains (signal w).shut c ≡ true
unfolding signal
all_woken w c s h = ground (arith, s.known c)

-- Write on a valid buffer: closed, it takes nothing; without credit it hands out a channel that is
-- pending; otherwise it spends n = min(wsize, len p) of the credit on the first n bytes. Grow and
-- Close close every channel that Write has handed out, so no blocked writer misses new credit or
-- the end.
write_cases :
    {W : Type 0} (callback : List ℕ → W → W × Bool) (p : List ℕ) (b : OutputBuffer) (w : W)
    → IsValid b
    → ((b.closed ≡ true) × (write callback p b w ≡ (b, w, buffer_closed)))
      ⊎ ((b.closed ≡ false)
          × (b.wsize ≡ 0)
          × ((c : ℕ) × ((write callback p b w).2 ≡ buffer_empty c)
              × ((write callback p b w).0.wake.ready ≡ some c)
              × ((n : ℕ) → contains (grow n (write callback p b w).0).wake.shut c ≡ true)
              × (contains (close (write callback p b w).0).wake.shut c ≡ true)))
      ⊎ ((b.closed ≡ false)
          × (0 < b.wsize)
          × ((write callback p b w).0.wsize + min b.wsize (length p) ≡ b.wsize)
          × ((write callback p b w).1 ≡ (callback (take (min b.wsize (length p)) p) w).0)
          × ((write callback p b w).2
              ≡ wrote (min b.wsize (length p)) (callback (take (min b.wsize (length p)) p) w).1))
unfolding write grow close ready_ch signal
write_cases callback p b w v = elim (Bool-cases b.closed) [
  | inl shut ↦ inl (shut, ground arith)
  | inr live ↦ elim (Bool-cases (b.wsize == 0)) [
    | inl dry ↦ inr (
        inl (
          live,
          ground arith,
          ((ready_ch b.wake).0, ground arith, ground arith, λ n. ground arith, ground arith),
        ))
    | inr wet ↦ inr (inr (live, ground arith, ground arith, ground arith, ground arith))
  ]
]
