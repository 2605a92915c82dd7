-- ===== src/Nodes/Frames/Partial.antt =====
-- ReadFrom on input that ends early, and on the text of a Query that is too long for its prefix.
use astrald.Prelude.{
  ℕ, zero, suc, ◌+◌, ◌%◌, ◌^◌, ◌≤◌, ◌<◌, ◌≡◌, refl, ap, ◌⊎◌, inl, inr, List, [], ◌∷◌, ◌++◌, arith,
  append_assoc, append-nil,
}
use astrald.Prelude.{leb, leb→le, length, length-append, length-drop, take, drop, Bool-cases}
use astrald.Nodes.Frames.{
  Query, Frame, type_of, FrameType, ping_type, query_type, relay_query_type, read_type,
  response_type, data_type, migrate_type, reset_type,
}
use astrald.Nodes.Frames.Codec.{
  ByteOrder, IdentityCodec, ReadOutcome, IoError, ok, failed, Reader, ◌>>=◌, return, read_full,
  read_byte, binary_read, read_query, read_ping, read_read, read_response, read_data, read_migrate,
  read_reset, read_identity, read_relay_query, read_from,
}
use astrald.Nodes.Frames.Writing.{
  appending, encode_query, write_query, write_query-Appends, write_to,
}
use astrald.Nodes.Frames.RoundTrip.{Fits, normal, round_trip, binary_read-put}

-- A success does not depend on what follows the bytes that it used, and n counts those bytes.
abbrev Local : {A : Type 0} → Reader A → Type 0
Local {A} m =
    (r more : List ℕ) (a : A) (n : ℕ) (rest : List ℕ)
    → m r ≡ ok a n rest
    → (m (r ++ more) ≡ ok a n (rest ++ more)) × (length r ≡ n + length rest)

take-append_le : (n : ℕ) (xs ys : List ℕ) → n ≤ length xs → take n (xs ++ ys) ≡ take n xs
take-append_le zero xs ys h = refl
take-append_le (suc n) [] ys h = absurd (omega arith)
take-append_le (suc n) (x ∷ xs) ys h = ap (◌∷◌ x) (take-append_le n xs ys (omega arith))

drop-append_le : (n : ℕ) (xs ys : List ℕ) → n ≤ length xs → drop n (xs ++ ys) ≡ drop n xs ++ ys
drop-append_le zero xs ys h = refl
drop-append_le (suc n) [] ys h = absurd (omega arith)
drop-append_le (suc n) (x ∷ xs) ys h = drop-append_le n xs ys (omega arith)

return-Local : {A : Type 0} (a : A) → Local (return a)
return-Local a r more b n rest e = (ground arith, ground arith)

bind-Local :
    {A B : Type 0} (m : Reader A) (f : A → Reader B)
    → Local m
    → ((a : A) → Local (f a))
    → Local (m >>= f)
bind-Local {A} {B} m f hm hf r more b n rest e = go (m r) refl
  where
    go :
        (x : ReadOutcome A)
        → m r ≡ x
        → ((m >>= f) (r ++ more) ≡ ok b n (rest ++ more)) × (length r ≡ n + length rest)
    go (ok a k mid) q = after (f a mid) refl
      where
        after :
            (y : ReadOutcome B)
            → f a mid ≡ y
            → ((m >>= f) (r ++ more) ≡ ok b n (rest ++ more)) × (length r ≡ n + length rest)
        after (ok c j end) p = ground (arith, hm r more a k mid q, hf a mid more c j end p)
        after (failed x j end) p = ground arith
    go (failed x k mid) q = ground arith

read_full-Local : (m : ℕ) → Local (read_full m)
unfolding read_full
read_full-Local m r more a n rest e = elim (Bool-cases (leb m (length r))) [
  | inl fits ↦
      let h : m ≤ length r = leb→le m (length r) fits in
      ground (
        arith,
        take-append_le m r more h,
        drop-append_le m r more h,
        length-append r more,
        length-drop m r,
      )
  | inr short ↦ ground arith
]

read_byte-Local : Local read_byte
unfolding read_byte
read_byte-Local [] more a n rest e = cc
read_byte-Local (b ∷ r) more a n rest e = ground arith

module _ (order : ByteOrder) (ids : IdentityCodec) where
  binary_read-Local : (w : ℕ) → Local (binary_read order w)
  unfolding binary_read
  binary_read-Local w r more a n rest e = elim (Bool-cases (leb w (length r))) [
    | inl fits ↦
        let h : w ≤ length r = leb→le w (length r) fits in
        ground (
          arith,
          take-append_le w r more h,
          drop-append_le w r more h,
          length-append r more,
          length-drop w r,
        )
    | inr short ↦ ground arith
  ]

  read_query-Local : Local (read_query order)
  unfolding read_query
  read_query-Local = bind-Local _ _ (binary_read-Local 8) λ nonce.
      bind-Local _ _ (binary_read-Local 4) λ buffer.
        bind-Local _ _ (binary_read-Local 2)
          λ plen. bind-Local _ _ (read_full-Local plen) λ text. return-Local _

  read_identity-Local : Local (read_identity order ids)
  unfolding read_identity
  read_identity-Local = bind-Local _ _ (read_full-Local 33) λ bs. return-Local _

  read_from-Local : (t : FrameType) → Local (read_from order ids t)
  unfolding read_from
  read_from-Local ping_type =
      unfold read_ping in
      bind-Local _ _ (binary_read-Local 8)
        λ nonce. bind-Local _ _ read_byte-Local λ b. return-Local _
  read_from-Local query_type = bind-Local _ _ read_query-Local λ q. return-Local _
  read_from-Local relay_query_type =
      unfold read_relay_query in
      bind-Local _ _ read_identity-Local λ c.
        bind-Local _ _ read_identity-Local λ t. bind-Local _ _ read_query-Local λ q. return-Local _
  read_from-Local read_type =
      unfold read_read in
      bind-Local _ _ (binary_read-Local 8)
        λ nonce. bind-Local _ _ (binary_read-Local 4) λ len. return-Local _
  read_from-Local response_type =
      unfold read_response in
      bind-Local _ _ (binary_read-Local 8) λ nonce.
        bind-Local _ _ read_byte-Local
          λ b. bind-Local _ _ (binary_read-Local 4) λ len. return-Local _
  read_from-Local data_type =
      unfold read_data in
      bind-Local _ _ (binary_read-Local 8) λ nonce.
        bind-Local _ _ (binary_read-Local 2)
          λ plen. bind-Local _ _ (read_full-Local plen) λ bs. return-Local _
  read_from-Local migrate_type =
      unfold read_migrate in bind-Local _ _ (binary_read-Local 8) λ nonce. return-Local _
  read_from-Local reset_type =
      unfold read_reset in bind-Local _ _ (binary_read-Local 8) λ nonce. return-Local _

  outcome_cases :
      {A : Type 0} (x : ReadOutcome A)
      → ((a : A) × (n : ℕ) × (rest : List ℕ) × (x ≡ ok a n rest))
        ⊎ ((e : IoError) × (n : ℕ) × (rest : List ℕ) × (x ≡ failed e n rest))
  outcome_cases (ok a n rest) = inl (a, n, rest, refl)
  outcome_cases (failed e n rest) = inr (e, n, rest, refl)

  -- Cut short anywhere before its end, what WriteTo wrote for a frame that fits is never read as a
  -- frame: ReadFrom returns an error.
  pub truncated_fails :
      (f : Frame) (front : List ℕ) (x : ℕ) (back : List ℕ)
      → Fits f
      → (write_to appending order ids f []).0 ≡ front ++ (x ∷ back)
      → (e : IoError) × (n : ℕ) × (rest : List ℕ) × (read_from order ids (type_of f) front
          ≡ failed e n rest)
  truncated_fails f front x back fits cut =
      elim (outcome_cases (read_from order ids (type_of f) front)) [
        | inr bad ↦ bad
        | inl (a, n, rest, good) ↦
            let whole : read_from order ids (type_of f) (front ++ (x ∷ back))
                ≡ ok (normal f) (write_to appending order ids f []).1 [] =
              rw (append-nil, cut) at ((round_trip order ids f [] fits).2) in
            let longer = (read_from-Local (type_of f) front (x ∷ back) a n rest good).0 in
            absurd (ground (arith, whole, longer, length-append rest (x ∷ back)))
      ]

read_full-part :
    (m : ℕ) (xs rest : List ℕ)
    → m ≤ length xs
    → read_full m (xs ++ rest) ≡ ok (take m xs) m (drop m xs ++ rest)
unfolding read_full
read_full-part m xs rest h =
    ground (arith, length-append xs rest, take-append_le m xs rest h, drop-append_le m xs rest h)

-- The length prefix of a Query has 16 bits: a text of any length is written whole, and read back as
-- its first (length mod 2^16) bytes, with the rest of the text left in the stream as if it were the
-- next frame. For a text shorter than 2^16 nothing is lost; Mux.RouteQuery refuses longer ones.
oversize_query :
    (order : ByteOrder) (q : Query) (rest : List ℕ)
    → q.nonce < 256 ^ 8
    → q.buffer < 256 ^ 4
    → let m = length q.query % 2 ^ 16 in
      read_query order ((write_query appending order q []).0 ++ rest)
      ≡ ok (record q { query = take m q.query }) (14 + m) (drop m q.query ++ rest)
unfolding read_query encode_query
oversize_query order q rest hn hb =
    let m = length q.query % 2 ^ 16 in
    let tail = q.query ++ rest in
    rw (write_query-Appends order q []) (
      ground (
        arith,
        append_assoc (order.put 8 q.nonce) (order.put 4 q.buffer ++ (order.put 2 m ++ q.query))
            rest,
        append_assoc (order.put 4 q.buffer) (order.put 2 m ++ q.query) rest,
        append_assoc (order.put 2 m) q.query rest,
        binary_read-put order 8 q.nonce (order.put 4 q.buffer ++ (order.put 2 m ++ tail)) hn,
        binary_read-put order 4 q.buffer (order.put 2 m ++ tail) hb,
        binary_read-put order 2 m tail (omega arith),
        read_full-part m q.query rest (omega arith),
      ))
