-- ===== src/Nodes/Buffers/Input/Invariant.antt =====
-- What holds of every InputBuffer that NewInputBuffer made, whatever was called on it.
use astrald.Prelude.{ℕ, ◌+◌, ◌≤◌, min, ◌≡◌, refl, arith}
use astrald.Prelude.{Bool, true, false, ◌&&◌, none, List, [], ◌∷◌, ◌++◌}
use astrald.Prelude.{length, drop, concat, is_nil, is_some}
use astrald.Prelude.{length-append, concat-append, concat_one, length-drop}
use astrald.Nodes.Buffers.Wake.{
  Wake, signal, IsSound, no_wake-IsSound, ready_ch-IsSound, signal-IsSound,
}
use astrald.Nodes.Buffers.Input.{
  InputBuffer, new, push, put_back, read_front, read, close, contents,
}

abbrev bit : Bool → ℕ
bit true = 1
bit false = 0

pub record IsValid (b : InputBuffer) : Type 0 where
  pub counted : b.used ≡ length (contents b)
  pub bounded : b.used ≤ b.size
  pub sound : IsSound b.wake
  -- A reader waits only on an open buffer with nothing in it.
  pub waiting : is_some b.wake.ready ≡ true → (is_nil b.buf ≡ true) × (b.closed ≡ false)
  pub silent : b.closed ≡ true → b.on_read ≡ false
  pub finished : b.drained ≡ b.closed && is_nil b.buf
  pub shut_once : b.shut_closes ≡ bit b.closed
  pub done_once : b.done_closes ≡ bit b.drained

pub new-IsValid : (size : ℕ) (on_read : Bool) → IsValid (new size on_read)
unfolding new
new-IsValid size on_read = record {
  counted = refl;
  bounded = omega arith;
  sound = no_wake-IsSound;
  waiting = λ e. cc;
  silent = λ e. cc;
  finished = refl;
  shut_once = refl;
  done_once = refl;
}

length-concat_snoc :
    (xss : List (List ℕ)) (p : List ℕ)
    → length (concat (xss ++ (p ∷ []))) ≡ length (concat xss) + length p
length-concat_snoc xss p =
    rw (concat-append xss (p ∷ []), concat_one p) (length-append (concat xss) p)

is_nil-snoc {ℓ} : {A : Type ℓ} (xs : List A) (x : A) → is_nil (xs ++ (x ∷ [])) ≡ false
is_nil-snoc [] x = refl
is_nil-snoc (y ∷ xs) x = refl

signal-ready : (w : Wake) → (signal w).ready ≡ none
unfolding signal
signal-ready w = ground arith

pub push-IsValid : (p : List ℕ) (b : InputBuffer) → IsValid b → IsValid (push p b).0
unfolding push
push-IsValid p b v = ground (
  arith,
  signal-IsSound b.wake v.sound,
  length-concat_snoc b.buf p,
  is_nil-snoc b.buf p,
  signal-ready b.wake,
)

pub close-IsValid : (b : InputBuffer) → IsValid b → IsValid (close b)
unfolding close
close-IsValid b v = ground (arith, signal-IsSound b.wake v.sound, signal-ready b.wake)

pub concat-put_back :
    (xs : List ℕ) (rest : List (List ℕ)) → concat (put_back xs rest) ≡ xs ++ concat rest
unfolding put_back
concat-put_back [] rest = refl
concat-put_back (x ∷ xs) rest = refl

read_front-IsValid :
    (xss : List (List ℕ)) (k : ℕ) (b : InputBuffer)
    → b.buf ≡ xss
    → IsValid b
    → IsValid (read_front xss k b).0
unfolding read_front
read_front-IsValid [] k b e v = ground (arith, ready_ch-IsSound b.wake v.sound)
read_front-IsValid (chunk ∷ rest) k b e v = ground (
  arith,
  concat-put_back (drop (min k (length chunk)) chunk) rest,
  length-append chunk (concat rest),
  length-append (drop (min k (length chunk)) chunk) (concat rest),
  length-drop (min k (length chunk)) chunk,
)

pub read-IsValid : (k : ℕ) (b : InputBuffer) → IsValid b → IsValid (read k b).0
unfolding read
read-IsValid k b v = read_front-IsValid b.buf k b refl v
