-- ===== src/Nodes/Flow/WriterCredit.antt =====
-- mod/nodes/src/mux_session_writer.go, Write: what one call does with the credit it finds, and that
-- its loop ends.
use astrald.Prelude.{
  ℕ, zero, suc, ◌+◌, ◌-◌, ◌≤◌, ◌<◌, min, ◌≡◌, ◌≢◌, refl, ◌⊎◌, arith, append-nil, false, List, [],
  ◌∷◌, ◌++◌, take, drop, length, length-drop,
}
use astrald.Nodes.Frames.{Frame}
use astrald.Nodes.Callbacks.{Wire, on_write}
use astrald.Nodes.Buffers.Output
use astrald.Nodes.Buffers.Output.{OutputBuffer, wrote, buffer_closed, buffer_empty}
use astrald.Nodes.Session.Writer.{
  SessionWriter, WriteStep, wrote_all, waits_credit, out_of_fuel, write_loop, write,
}
use astrald.Nodes.Flow.{recording}
use astrald.Nodes.Flow.Conservation.{payloads, on_write-payloads, on_write-fine}
use astrald.Nodes.Buffers.Wake.{ready_ch}
use native.Mathlib.Decide.{dec_lt, dec_le}

length-drop_less :
    (n : ℕ) (x : ℕ) (xs : List ℕ) → 0 < n → length (drop n (x ∷ xs)) < suc (length xs)
length-drop_less n x xs h = omega (arith, length-drop n (x ∷ xs))

write_loop-ne-out_of_fuel :
    {W : Type 0} (wire : Wire W) (fuel total : ℕ) (p : List ℕ) (w : SessionWriter) (s : W)
    → length p < fuel
    → (write_loop wire fuel total p w s).2 ≢ out_of_fuel
unfolding write_loop Output.write
write_loop-ne-out_of_fuel wire zero total p w s h = absurd (omega arith)
write_loop-ne-out_of_fuel wire (suc fuel) total [] w s h = λ e. cc
write_loop-ne-out_of_fuel wire (suc fuel) total (x ∷ xs) w s h =
    let n = min w.buf.wsize (suc (length xs)) in
    let s' = (on_write wire w.nonce (take n (x ∷ xs)) s).0 in
    ground (
      arith,
      length-drop n (x ∷ xs),
      write_loop-ne-out_of_fuel wire fuel (total + n) (drop n (x ∷ xs))
          (record w { buf = record w.buf { wsize = w.buf.wsize - n } }) s',
    )

drop_all : (n : ℕ) (xs : List ℕ) → length xs ≤ n → drop n xs ≡ []
drop_all zero [] h = refl
drop_all zero (x ∷ xs) h = absurd (omega arith)
drop_all (suc n) [] h = refl
drop_all (suc n) (x ∷ xs) h = drop_all n xs (omega arith)

drop_more : (n : ℕ) (xs : List ℕ) → n < length xs → (y : ℕ) × (ys : List ℕ) × (drop n xs ≡ y ∷ ys)
drop_more n [] h = absurd (omega arith)
drop_more zero (x ∷ xs) h = (x, xs, refl)
drop_more (suc n) (x ∷ xs) h = drop_more n xs (omega arith)

abbrev IsLive : SessionWriter → Type 0
IsLive w = (w.closed ≡ false) × (w.paused ≡ false) × (w.buf.closed ≡ false)

-- What a Write that found the credit and wake state of `w` and still had `p` to write, after `total`
-- bytes, has done.
abbrev Spent :
    ℕ → List ℕ → SessionWriter → List Frame → SessionWriter × List Frame × WriteStep → Type 0
Spent total p w before (w', s', out) =
    let n = min w.buf.wsize (length p) in
    (payloads s' ≡ payloads before ++ take n p)
    × (w'.buf.wsize + n ≡ w.buf.wsize)
    × (((length p ≤ w.buf.wsize) × (out ≡ wrote_all (total + length p)))
        ⊎ ((w.buf.wsize < length p)
            × (out
                ≡ waits_credit (ready_ch w.buf.wake).0 (total + w.buf.wsize) (drop w.buf.wsize p))))

spend_dry :
    (k total : ℕ) (p : List ℕ) (w : SessionWriter) (s : List Frame)
    → IsLive w
    → 0 < length p
    → w.buf.wsize ≡ 0
    → Spent total p w s (write_loop recording (suc k) total p w s)
unfolding write_loop Output.write
spend_dry k total [] w s live h dry = absurd (omega arith)
spend_dry k total (x ∷ xs) w s live h dry = ground (arith, append-nil (payloads s))

after_round :
    (k total : ℕ) (p : List ℕ) (w : SessionWriter) (s : List Frame)
    → IsLive w
    → 0 < length p
    → 0 < w.buf.wsize
    → let n = min w.buf.wsize (length p) in
      write_loop recording (suc k) total p w s
      ≡ write_loop recording k
          (total + n)
          (drop n p)
          (record w { buf = record w.buf { wsize = w.buf.wsize - n } })
          (on_write recording w.nonce (take n p) s).0
unfolding write_loop Output.write
after_round k total [] w s live h wet = absurd (omega arith)
after_round k total (x ∷ xs) w s live h wet =
    ground (arith, on_write-fine w.nonce (take (min w.buf.wsize (suc (length xs))) (x ∷ xs)) s)

nothing_left :
    (k total : ℕ) (w : SessionWriter) (s : List Frame)
    → write_loop recording (suc k) total [] w s ≡ (w, s, wrote_all total)
unfolding write_loop
nothing_left k total w s = refl

spend :
    (k total : ℕ) (p : List ℕ) (w : SessionWriter) (s : List Frame)
    → IsLive w
    → 0 < length p
    → Spent total p w s (write_loop recording (suc (suc k)) total p w s)
spend k total p w s live h =
    let n = min w.buf.wsize (length p) in
    let w' : SessionWriter = record w { buf = record w.buf { wsize = w.buf.wsize - n } } in
    let s' = (on_write recording w.nonce (take n p) s).0 in
    elim (dec_lt 0 w.buf.wsize) [
      | no dry ↦ spend_dry (suc k) total p w s live h (omega arith)
      | yes wet ↦ elim (dec_le (length p) w.buf.wsize) [
        | yes fits ↦ ground (
          arith,
          after_round (suc k) total p w s live h wet,
          drop_all n p (omega arith),
          nothing_left k (total + n) w' s',
          on_write-payloads w.nonce (take n p) s,
        )
        | no short ↦ ground (
          arith,
          after_round (suc k) total p w s live h wet,
          length-drop n p,
          spend_dry k (total + n) (drop n p) w' s' live (omega (arith, length-drop n p))
              (omega arith),
          on_write-payloads w.nonce (take n p) s,
          append-nil (payloads s'),
        )
      ]
    ]

-- Write returns, fails or waits after at most one round for each byte, whatever its link does: the
-- rounds that the model allows never run out.
pub write_settles :
    {W : Type 0} (wire : Wire W) (p : List ℕ) (w : SessionWriter) (s : W)
    → (write wire p w s).2 ≢ out_of_fuel
unfolding write
write_settles wire p w s = write_loop-ne-out_of_fuel wire (suc (length p)) 0 p w s (omega arith)

-- On an open writer that is not paused, over a link that is up, Write of a non-empty p sends exactly
-- the first n = min(credit, len p) bytes of p and spends n of the credit; if the credit covers p it
-- returns len p, and otherwise it waits for credit with exactly the rest of p still to be written.
pub write_spends :
    (p : List ℕ) (w : SessionWriter) (s : List Frame)
    → IsLive w
    → 0 < length p
    → Spent 0 p w s (write recording p w s)
unfolding write
write_spends [] w s live h = absurd (omega arith)
write_spends (x ∷ xs) w s live h = spend (length xs) 0 (x ∷ xs) w s live h
