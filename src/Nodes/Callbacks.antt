-- ===== src/Nodes/Callbacks.antt =====
-- mod/nodes/src/mux_sessions.go: the callbacks that tie a session's buffers to its link.
-- The link's channel (astral/channel.Channel) is not part of the repository: what the mux needs of
-- it is an interface over an abstract state.
use astrald.Prelude.{ℕ, zero, suc, ◌*◌, ◌%◌, ◌^◌, ◌≤◌, ◌<◌, ◌≡◌, refl, ap, ◌∙◌, arith}
use astrald.Prelude.{Bool, true, false, List, [], ◌∷◌, ◌++◌}
use astrald.Prelude.{
  if◌then◌else◌, ltb, length, take, drop, All, concat, take-append-drop, length-take, length-drop,
}
use astrald.Nodes.Frames.{Frame, data_frame, reset}

-- `send`: Channel.Send, which reports whether the error is nil. `on_bytes`: the callback that feeds
-- the pressure detector.
pub record Wire (W : Type 0) : Type 0 where
  pub send : Frame → W → W × Bool
  pub on_bytes : ℕ → W → W

abbrev max_payload_size : ℕ
max_payload_size = 8192

abbrev pub default_buffer_size : ℕ
default_buffer_size = 4 * 1024 * 1024

-- The size of the next payload when `remaining` bytes are left.
chunk_size : ℕ → ℕ
chunk_size remaining = if ltb remaining max_payload_size then remaining else max_payload_size

chunk_size_bounds :
    (n : ℕ) → 0 < n → (1 ≤ chunk_size n) × (chunk_size n ≤ max_payload_size) × (chunk_size n ≤ n)
unfolding chunk_size
chunk_size_bounds n h = ground arith

module _ {W : Type 0} (wire : Wire W) (nonce : ℕ) where
  -- The loop of sessionOnWriteFunc, on fuel.
  pub on_write_loop : ℕ → List ℕ → W → W × Bool
  on_write_loop zero remaining w = (w, true)
  on_write_loop (suc fuel) [] w = (w, true)
  on_write_loop (suc fuel) (x ∷ xs) w =
      let remaining : List ℕ = x ∷ xs in
      let n = chunk_size (length remaining) in
      let (w', fine) = wire.send (data_frame nonce (take n remaining)) w in
      let rest = on_write_loop fuel (drop n remaining) (wire.on_bytes n w') in
      if fine then rest else (w', false)

  -- sessionOnWriteFunc: each round sends a byte at least, so `length p` rounds are enough.
  unfoldable pub on_write : List ℕ → W → W × Bool
  on_write p w = on_write_loop (length p) p w

  -- sessionOnReadFunc: the length is cut to 32 bits, the error is dropped.
  unfoldable pub on_read : ℕ → W → W
  on_read n w = (wire.send (Frame.read nonce (n % 2 ^ 32)) w).0

  -- sessionResetFunc
  unfoldable pub on_reset : W → W
  on_reset w = (wire.send (reset nonce) w).0

  -- The payloads sent one by one, up to the first failure.
  abbrev pub send_all : List (List ℕ) → W → W × Bool
  send_all [] w = (w, true)
  send_all (c ∷ cs) w =
      let (w', fine) = wire.send (data_frame nonce c) w in
      let rest = send_all cs (wire.on_bytes (length c) w') in if fine then rest else (w', false)

  abbrev pub IsPayload : List ℕ → Type 0
  IsPayload c = (1 ≤ length c) × (length c ≤ max_payload_size)

  on_write_loop-chunks :
      (fuel : ℕ) (p : List ℕ)
      → length p ≤ fuel
      → (cs : List (List ℕ)) × (concat cs ≡ p)
        × All IsPayload cs
        × ((w : W) → on_write_loop fuel p w ≡ send_all cs w)
  unfolding on_write_loop
  on_write_loop-chunks zero [] h = ([], refl, tt, λ w. refl)
  on_write_loop-chunks zero (x ∷ xs) h = absurd (omega arith)
  on_write_loop-chunks (suc fuel) [] h = ([], refl, tt, λ w. refl)
  on_write_loop-chunks (suc fuel) (x ∷ xs) h =
      let p : List ℕ = x ∷ xs in
      let n = chunk_size (length p) in
      let b = chunk_size_bounds (length p) (omega arith) in
      let e : length (take n p) ≡ n = omega (arith, length-take n p, b) in
      let (cs, whole, fit, run) =
        on_write_loop-chunks fuel (drop n p) (omega (arith, length-drop n p, b)) in
      (
        take n p ∷ cs,
        ap (◌++◌ (take n p)) whole ∙ take-append-drop n p,
        ((omega (arith, e, b), omega (arith, e, b)), fit),
        λ w. ground (arith, e, run (wire.on_bytes n (wire.send (data_frame nonce (take n p)) w).0)),
      )

  -- The write callback cuts what it is given into payloads of 1 to 8192 bytes that make up the
  -- whole again, and sends them in order, counting each, up to the first send that fails: it
  -- succeeds exactly if all of them do.
  pub on_write_chunks :
      (p : List ℕ)
      → (cs : List (List ℕ)) × (concat cs ≡ p)
        × All IsPayload cs
        × ((w : W) → on_write p w ≡ send_all cs w)
  unfolding on_write
  on_write_chunks p = on_write_loop-chunks (length p) p (omega arith)
