-- ===== src/Nodes/Buffers/Wake.antt =====
-- The one-shot wake channel that InputBuffer and OutputBuffer share word for word:
-- the field `ready`, readyCh and signal. Channels are numbered in the order in which they are made.
use astrald.Prelude.{ℕ, suc, ◌<◌, ◌≡◌, ◌⊎◌, arith}
use astrald.Prelude.{true, false, Option, none, some, List, [], ◌∷◌, contains}

pub record Wake : Type 0 where
  pub ready : Option ℕ
  pub made : ℕ
  pub shut : List ℕ

abbrev pub no_wake : Wake
no_wake = record { ready = none; made = 0; shut = [] }

-- readyCh: the pending channel, made if there is none.
unfoldable pub ready_ch : Wake → ℕ × Wake
ready_ch w = elim w.ready [
  | none ↦ (w.made, record w { ready = some w.made; made = suc w.made })
  | some c ↦ (c, w)
]

-- signal: close the pending channel and forget it.
unfoldable pub signal : Wake → Wake
signal w = elim w.ready [ none ↦ w | some c ↦ record w { ready = none; shut = c ∷ w.shut } ]

-- Every channel handed out is closed or still pending, and the pending one is open.
pub record IsSound (w : Wake) : Type 0 where
  pub known : (c : ℕ) → c < w.made → (w.ready ≡ some c) ⊎ (contains w.shut c ≡ true)
  pub pending : (c : ℕ) → w.ready ≡ some c → (c < w.made) × (contains w.shut c ≡ false)
  pub old : (c : ℕ) → contains w.shut c ≡ true → c < w.made

pub no_wake-IsSound : IsSound no_wake
no_wake-IsSound = record {
  known = λ c h. absurd (omega arith);
  pending = λ c e. cc;
  old = λ c e. cc;
}

pub ready_ch-IsSound : (w : Wake) → IsSound w → IsSound (ready_ch w).1
unfolding ready_ch
ready_ch-IsSound w s = record {
  known = λ c h. ground (arith, s.known c);
  pending = λ c e. ground (arith, s.pending c, s.old c);
  old = λ c e. ground (arith, s.old c);
}

pub signal-IsSound : (w : Wake) → IsSound w → IsSound (signal w)
unfolding signal
signal-IsSound w s = record {
  known = λ c h. ground (arith, s.known c);
  pending = λ c e. ground (arith, s.pending c);
  old = λ c e. ground (arith, s.old c, s.pending c);
}
