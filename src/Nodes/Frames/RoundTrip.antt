-- ===== src/Nodes/Frames/RoundTrip.antt =====
-- Every frame that fits its fields is read back from the bytes that its WriteTo wrote.
use mathlib.Core.Path.{subst}
use astrald.Prelude.{
  ℕ, ◌+◌, ◌%◌, ◌^◌, ◌<◌, ◌≡◌, refl, sym, true, false, List, [], ◌∷◌, ◌++◌, some, arith,
  append_assoc,
}
use astrald.Prelude.{leb, length, length-append, take, drop, take-append, drop-append, le→leb}
use astrald.Nodes.Frames.{
  Query, Frame, ping, query, relay_query, response, data_frame, migrate, reset, type_of,
}
use astrald.Nodes.Frames.Codec.{
  ByteOrder, IdentityCodec, ok, read_full, read_byte, binary_read, read_query, read_ping, read_read,
  read_response, read_data, read_migrate, read_reset, read_identity, read_relay_query, read_from,
}
use astrald.Nodes.Frames.Writing.{
  or_zero, write_to, appending, encode, encode_query, write_to-Appends,
}

abbrev FitsQuery : Query → Type 0
FitsQuery q = (q.nonce < 256 ^ 8) × (q.buffer < 256 ^ 4) × (length q.query < 256 ^ 2)

abbrev pub Fits : Frame → Type 0
Fits (ping nonce pong) = nonce < 256 ^ 8
Fits (query q) = FitsQuery q
Fits (relay_query caller target q) =
    (or_zero caller < 256 ^ 33) × (or_zero target < 256 ^ 33) × FitsQuery q
Fits (Frame.read nonce len) = (nonce < 256 ^ 8) × (len < 256 ^ 4)
Fits (response nonce err_code buffer) = (nonce < 256 ^ 8) × (err_code < 256) × (buffer < 256 ^ 4)
Fits (data_frame nonce payload) = (nonce < 256 ^ 8) × (length payload < 256 ^ 2)
Fits (migrate nonce) = nonce < 256 ^ 8
Fits (reset nonce) = nonce < 256 ^ 8

-- A nil identity comes back as the zero identity.
abbrev pub normal : Frame → Frame
normal (relay_query caller target q) = relay_query (some (or_zero caller)) (some (or_zero target)) q
normal (ping nonce pong) = ping nonce pong
normal (query q) = query q
normal (Frame.read nonce len) = Frame.read nonce len
normal (response nonce err_code buffer) = response nonce err_code buffer
normal (data_frame nonce payload) = data_frame nonce payload
normal (migrate nonce) = migrate nonce
normal (reset nonce) = reset nonce

-- ReadFull of exactly what stands in front.
read_full-append :
    (bs rest : List ℕ) (m : ℕ) → m ≡ length bs → read_full m (bs ++ rest) ≡ ok bs m rest
unfolding read_full
read_full-append bs rest m e = rw e (
    rw (
      le→leb (length bs) (length (bs ++ rest)) (omega (arith, length-append bs rest)),
      take-append bs rest,
      drop-append bs rest,
    ))

module _ (order : ByteOrder) where
  pub binary_read-put :
      (w v : ℕ) (rest : List ℕ)
      → v < 256 ^ w
      → binary_read order w (order.put w v ++ rest) ≡ ok v w rest
  unfolding binary_read
  binary_read-put w v rest fits =
      let e : take w (order.put w v ++ rest) ≡ order.put w v =
        subst (λ n. take n (order.put w v ++ rest) ≡ order.put w v) (order.length_put w v)
          (take-append (order.put w v) rest) in
      let d : drop w (order.put w v ++ rest) ≡ rest =
        subst (λ n. drop n (order.put w v ++ rest) ≡ rest) (order.length_put w v)
          (drop-append (order.put w v) rest) in
      let h : leb w (length (order.put w v ++ rest)) ≡ true =
        le→leb w _ (omega (arith, length-append (order.put w v) rest, order.length_put w v)) in
      rw (h, e, d, order.get_put w v fits)

  length-encode_query : (q : Query) → length (encode_query order q) ≡ 14 + length q.query
  unfolding encode_query
  length-encode_query q = simp (length-append, order.length_put) (omega arith)

  read_query-encode :
      (q : Query) (rest : List ℕ)
      → FitsQuery q
      → read_query order (encode_query order q ++ rest) ≡ ok q (14 + length q.query) rest
  unfolding read_query encode_query
  read_query-encode q rest (hn, hb, hl) =
      let e : length q.query % 2 ^ 16 ≡ length q.query = omega arith in
      ground (
        arith,
        append_assoc (order.put 8 q.nonce)
            (order.put 4 q.buffer ++ (order.put 2 (length q.query) ++ q.query)) rest,
        append_assoc (order.put 4 q.buffer) (order.put 2 (length q.query) ++ q.query) rest,
        append_assoc (order.put 2 (length q.query)) q.query rest,
        binary_read-put 8 q.nonce
            (order.put 4 q.buffer ++ (order.put 2 (length q.query) ++ (q.query ++ rest))) hn,
        binary_read-put 4 q.buffer (order.put 2 (length q.query) ++ (q.query ++ rest)) hb,
        binary_read-put 2 (length q.query) (q.query ++ rest) hl,
        read_full-append q.query rest (length q.query) refl,
      )

  module _ (ids : IdentityCodec) where
    read_identity-put :
        (i : ℕ) (rest : List ℕ)
        → i < 256 ^ 33
        → read_identity order ids (ids.put i ++ rest) ≡ ok i 33 rest
    unfolding read_identity
    read_identity-put i rest fits =
        ground
          (arith, read_full-append (ids.put i) rest 33 (sym (ids.length_put i)), ids.get_put i fits)

    read_from-encode :
        (f : Frame) (rest : List ℕ)
        → Fits f
        → read_from order ids (type_of f) (encode order ids f ++ rest)
          ≡ ok (normal f) (length (encode order ids f)) rest
    unfolding read_from encode
    read_from-encode (ping nonce true) rest fits =
        unfold read_ping read_byte in
        ground (
          arith,
          append_assoc (order.put 8 nonce) (1 ∷ []) rest,
          binary_read-put 8 nonce (1 ∷ rest) fits,
          length-append (order.put 8 nonce) (1 ∷ []),
          order.length_put 8 nonce,
        )
    read_from-encode (ping nonce false) rest fits =
        unfold read_ping read_byte in
        ground (
          arith,
          append_assoc (order.put 8 nonce) (0 ∷ []) rest,
          binary_read-put 8 nonce (0 ∷ rest) fits,
          length-append (order.put 8 nonce) (0 ∷ []),
          order.length_put 8 nonce,
        )
    read_from-encode (query q) rest fits =
        ground (arith, read_query-encode q rest fits, length-encode_query q)
    read_from-encode (relay_query caller target q) rest (hc, ht, hq) =
        unfold read_relay_query in
        ground (
          arith,
          append_assoc (ids.put (or_zero caller)) (ids.put (or_zero target) ++ encode_query order q)
              rest,
          append_assoc (ids.put (or_zero target)) (encode_query order q) rest,
          read_identity-put (or_zero caller)
              (ids.put (or_zero target) ++ (encode_query order q ++ rest)) hc,
          read_identity-put (or_zero target) (encode_query order q ++ rest) ht,
          read_query-encode q rest hq,
          length-encode_query q,
          length-append (ids.put (or_zero caller))
              (ids.put (or_zero target) ++ encode_query order q),
          length-append (ids.put (or_zero target)) (encode_query order q),
          ids.length_put (or_zero caller),
          ids.length_put (or_zero target),
        )
    read_from-encode (Frame.read nonce len) rest (hn, hl) =
        unfold read_read in
        ground (
          arith,
          append_assoc (order.put 8 nonce) (order.put 4 len) rest,
          binary_read-put 8 nonce (order.put 4 len ++ rest) hn,
          binary_read-put 4 len rest hl,
          length-append (order.put 8 nonce) (order.put 4 len),
          order.length_put 8 nonce,
          order.length_put 4 len,
        )
    read_from-encode (response nonce err_code buffer) rest (hn, he, hb) =
        unfold read_response read_byte in
        ground (
          arith,
          append_assoc (order.put 8 nonce) (err_code ∷ order.put 4 buffer) rest,
          binary_read-put 8 nonce (err_code ∷ (order.put 4 buffer ++ rest)) hn,
          binary_read-put 4 buffer rest hb,
          length-append (order.put 8 nonce) (err_code ∷ order.put 4 buffer),
          order.length_put 8 nonce,
          order.length_put 4 buffer,
        )
    read_from-encode (data_frame nonce payload) rest (hn, hl) =
        unfold read_data in
        let e : length payload % 2 ^ 16 ≡ length payload = omega arith in
        ground (
          arith,
          append_assoc (order.put 8 nonce) (order.put 2 (length payload) ++ payload) rest,
          append_assoc (order.put 2 (length payload)) payload rest,
          binary_read-put 8 nonce (order.put 2 (length payload) ++ (payload ++ rest)) hn,
          binary_read-put 2 (length payload) (payload ++ rest) hl,
          read_full-append payload rest (length payload) refl,
          length-append (order.put 8 nonce) (order.put 2 (length payload) ++ payload),
          length-append (order.put 2 (length payload)) payload,
          order.length_put 8 nonce,
          order.length_put 2 (length payload),
        )
    read_from-encode (migrate nonce) rest fits =
        unfold read_migrate in
        ground (arith, binary_read-put 8 nonce rest fits, order.length_put 8 nonce)
    read_from-encode (reset nonce) rest fits =
        unfold read_reset in
        ground (arith, binary_read-put 8 nonce rest fits, order.length_put 8 nonce)

    -- A frame whose numbers fit their fields and whose text or payload is shorter than 2^16 bytes is
    -- written without error, with n the number of bytes written; ReadFrom of its type, on those
    -- bytes and whatever follows, returns the frame (a nil identity as the zero identity), the same
    -- n, and leaves what follows.
    pub round_trip :
        (f : Frame) (rest : List ℕ)
        → Fits f
        → let (bs, n, fine) = write_to appending order ids f [] in
          (fine ≡ true)
          × (n ≡ length bs)
          × (read_from order ids (type_of f) (bs ++ rest) ≡ ok (normal f) n rest)
    round_trip f rest fits =
        rw (write_to-Appends order ids f []) (refl, refl, read_from-encode f rest fits)
