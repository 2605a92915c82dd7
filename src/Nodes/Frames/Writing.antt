-- ===== src/Nodes/Frames/Writing.antt =====
-- The WriteTo methods, over any io.Writer.
use astrald.Prelude.{
  ℕ, ◌+◌, ◌%◌, ◌^◌, ◌≡◌, refl, Bool, true, false, List, [], ◌∷◌, ◌++◌, Option, none, some, arith,
  append_assoc,
}
use astrald.Prelude.{if◌then◌else◌, length, length-append}
use astrald.Nodes.Frames.{
  Query, Frame, ping, query, relay_query, response, data_frame, migrate, reset,
}
use astrald.Nodes.Frames.Codec.{ByteOrder, IdentityCodec}

-- An io.Writer: the number of bytes it took, and whether it reports no error.
abbrev Sink : Type 0 → Type 0
Sink S = List ℕ → S → S × ℕ × Bool

-- The writer's state, the count n and whether the error is nil.
abbrev Wrote : Type 0 → Type 0
Wrote S = S × ℕ × Bool

abbrev bool_byte : Bool → List ℕ
bool_byte true = 1 ∷ []
bool_byte false = 0 ∷ []

abbrev pub or_zero : Option ℕ → ℕ
or_zero none = 0
or_zero (some i) = i

module _ {S : Type 0} (sink : Sink S) where
  -- w.Write: a partial count is added to n.
  unfoldable pub raw : List ℕ → S → Wrote S
  raw bs s = sink bs s

  -- binary.Write: n grows by the whole width, and only on success.
  unfoldable pub binary_write : List ℕ → S → Wrote S
  binary_write bs s = let (s', m, fine) = sink bs s in (s', if fine then length bs else 0, fine)

  -- The next write, unless this one failed.
  infixr 5 ◌then_write◌
  unfoldable pub ◌then_write◌ : (S → Wrote S) → (S → Wrote S) → S → Wrote S
  ◌then_write◌ f g s =
      let (s', n, fine) = f s in
      let (s'', m, fine') = g s' in if fine then (s'', n + m, fine') else (s', n, false)

  module _ (order : ByteOrder) where
    -- Query.WriteTo: the length is cut to 16 bits, the text is not.
    unfoldable pub write_query : Query → S → Wrote S
    write_query q =
        binary_write (order.put 8 q.nonce)
        then_write binary_write (order.put 4 q.buffer)
        then_write binary_write (order.put 2 (length q.query % 2 ^ 16))
        then_write raw q.query

    -- Ping.WriteTo
    unfoldable write_ping : ℕ → Bool → S → Wrote S
    write_ping nonce pong =
        binary_write (order.put 8 nonce) then_write binary_write (bool_byte pong)

    -- Read.WriteTo
    unfoldable write_read : ℕ → ℕ → S → Wrote S
    write_read nonce len =
        binary_write (order.put 8 nonce) then_write binary_write (order.put 4 len)

    -- Response.WriteTo
    unfoldable write_response : ℕ → ℕ → ℕ → S → Wrote S
    write_response nonce err_code buffer =
        binary_write (order.put 8 nonce)
        then_write binary_write (err_code ∷ [])
        then_write binary_write (order.put 4 buffer)

    -- Data.WriteTo: the length is cut to 16 bits, the payload is not.
    unfoldable write_data : ℕ → List ℕ → S → Wrote S
    write_data nonce payload =
        binary_write (order.put 8 nonce)
        then_write binary_write (order.put 2 (length payload % 2 ^ 16))
        then_write raw payload

    -- Migrate.WriteTo
    unfoldable write_migrate : ℕ → S → Wrote S
    write_migrate nonce = binary_write (order.put 8 nonce)

    -- Reset.WriteTo
    unfoldable write_reset : ℕ → S → Wrote S
    write_reset nonce = binary_write (order.put 8 nonce)

    module _ (ids : IdentityCodec) where
      -- RelayQuery.WriteTo: a nil identity is written as the zero identity.
      unfoldable write_relay_query : Option ℕ → Option ℕ → Query → S → Wrote S
      write_relay_query caller target q =
          raw (ids.put (or_zero caller))
          then_write raw (ids.put (or_zero target))
          then_write write_query q

      -- WriteTo of each frame.
      unfoldable pub write_to : Frame → S → Wrote S
      unfolding write_ping write_read write_response write_data write_migrate write_reset
          write_relay_query
      write_to (ping nonce pong) = write_ping nonce pong
      write_to (query q) = write_query q
      write_to (relay_query caller target q) = write_relay_query caller target q
      write_to (Frame.read nonce len) = write_read nonce len
      write_to (response nonce err_code buffer) = write_response nonce err_code buffer
      write_to (data_frame nonce payload) = write_data nonce payload
      write_to (migrate nonce) = write_migrate nonce
      write_to (reset nonce) = write_reset nonce

-- A writer that takes everything.
abbrev pub appending : Sink (List ℕ)
appending bs s = (s ++ bs, length bs, true)

-- The method appends `bs`, counts them all and reports no error.
abbrev Appends : (List ℕ → Wrote (List ℕ)) → List ℕ → Type 0
Appends f bs = (s : List ℕ) → f s ≡ (s ++ bs, length bs, true)

raw-Appends : (bs : List ℕ) → Appends (raw appending bs) bs
unfolding raw
raw-Appends bs s = refl

binary_write-Appends : (bs : List ℕ) → Appends (binary_write appending bs) bs
unfolding binary_write
binary_write-Appends bs s = refl

then_write-Appends :
    (f g : List ℕ → Wrote (List ℕ)) (bs cs : List ℕ)
    → Appends f bs
    → Appends g cs
    → Appends (◌then_write◌ appending f g) (bs ++ cs)
unfolding ◌then_write◌
then_write-Appends f g bs cs hf hg s =
    ground (arith, hf s, hg (s ++ bs), append_assoc s bs cs, length-append bs cs)

module _ (order : ByteOrder) where
  -- The bytes of each frame.
  unfoldable pub encode_query : Query → List ℕ
  encode_query q =
      order.put 8 q.nonce
      ++ (order.put 4 q.buffer ++ (order.put 2 (length q.query % 2 ^ 16) ++ q.query))

  pub write_query-Appends : (q : Query) → Appends (write_query appending order q) (encode_query q)
  unfolding write_query encode_query
  write_query-Appends q = then_write-Appends _ _ _ _ (binary_write-Appends _) (
      then_write-Appends _ _ _ _ (binary_write-Appends _)
        (then_write-Appends _ _ _ _ (binary_write-Appends _) (raw-Appends _)))

  unfoldable pub encode : IdentityCodec → Frame → List ℕ
  encode ids (ping nonce pong) = order.put 8 nonce ++ bool_byte pong
  encode ids (query q) = encode_query q
  encode ids (relay_query caller target q) =
      ids.put (or_zero caller) ++ (ids.put (or_zero target) ++ encode_query q)
  encode ids (Frame.read nonce len) = order.put 8 nonce ++ order.put 4 len
  encode ids (response nonce err_code buffer) =
      order.put 8 nonce ++ ((err_code ∷ []) ++ order.put 4 buffer)
  encode ids (data_frame nonce payload) =
      order.put 8 nonce ++ (order.put 2 (length payload % 2 ^ 16) ++ payload)
  encode ids (migrate nonce) = order.put 8 nonce
  encode ids (reset nonce) = order.put 8 nonce

  pub write_to-Appends :
      (ids : IdentityCodec) (f : Frame) → Appends (write_to appending order ids f) (encode ids f)
  unfolding write_to encode
  write_to-Appends ids (ping nonce pong) =
      then_write-Appends _ _ _ _ (binary_write-Appends _) (binary_write-Appends _)
  write_to-Appends ids (query q) = write_query-Appends q
  write_to-Appends ids (relay_query caller target q) =
      then_write-Appends _ _ _ _ (raw-Appends _)
        (then_write-Appends _ _ _ _ (raw-Appends _) (write_query-Appends q))
  write_to-Appends ids (Frame.read nonce len) =
      then_write-Appends _ _ _ _ (binary_write-Appends _) (binary_write-Appends _)
  write_to-Appends ids (response nonce err_code buffer) =
      then_write-Appends _ _ _ _ (binary_write-Appends _)
        (then_write-Appends _ _ _ _ (binary_write-Appends _) (binary_write-Appends _))
  write_to-Appends ids (data_frame nonce payload) =
      then_write-Appends _ _ _ _ (binary_write-Appends _)
        (then_write-Appends _ _ _ _ (binary_write-Appends _) (raw-Appends _))
  write_to-Appends ids (migrate nonce) = binary_write-Appends _
  write_to-Appends ids (reset nonce) = binary_write-Appends _
