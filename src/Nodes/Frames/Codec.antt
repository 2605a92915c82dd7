-- ===== src/Nodes/Frames/Codec.antt =====
-- The WriteTo and ReadFrom methods of the frames. A method writes through an io.Writer with its
-- state passed explicitly and reads from the bytes that the io.Reader has left.
use astrald.Prelude.{ℕ, ◌+◌, ◌^◌, ◌<◌, ◌≡◌, not, List, [], ◌∷◌, some}
use astrald.Prelude.{if◌then◌else◌, leb, ◌==◌, length, take, drop}
use astrald.Nodes.Frames.{
  Query, Frame, ping, query, relay_query, response, data_frame, migrate, reset, FrameType,
  ping_type, query_type, relay_query_type, read_type, response_type, data_type, migrate_type,
  reset_type,
}

-- A binary.ByteOrder: `put w v` are the `w` bytes of `v`.
pub record ByteOrder : Type 0 where
  pub put : ℕ → ℕ → List ℕ
  pub get : List ℕ → ℕ
  pub length_put : (w v : ℕ) → length (put w v) ≡ w
  pub get_put : (w v : ℕ) → v < 256 ^ w → get (put w v) ≡ v

-- The encoding of an astral.Identity in 33 bytes.
pub record IdentityCodec : Type 0 where
  pub put : ℕ → List ℕ
  pub get : List ℕ → ℕ
  pub length_put : (i : ℕ) → length (put i) ≡ 33
  pub get_put : (i : ℕ) → i < 256 ^ 33 → get (put i) ≡ i

-- io.EOF and io.ErrUnexpectedEOF.
pub data IoError : Type 0 where
  eof unexpected_eof : IoError

-- The count n, and what the stream has left.
pub data ReadOutcome (A : Type 0) : Type 0 where
  ok : A → ℕ → List ℕ → ReadOutcome A
  failed : IoError → ℕ → List ℕ → ReadOutcome A

abbrev pub Reader : Type 0 → Type 0
Reader A = List ℕ → ReadOutcome A

abbrev count_in : {A : Type 0} → ℕ → ReadOutcome A → ReadOutcome A
count_in n (ok a m rest) = ok a (n + m) rest
count_in n (failed e m rest) = failed e (n + m) rest

infixl 5 ◌>>=◌
abbrev pub ◌>>=◌ : {A B : Type 0} → Reader A → (A → Reader B) → Reader B
◌>>=◌ m f r = elim (m r) [ ok a n rest ↦ count_in n (f a rest) | failed e n rest ↦ failed e n rest ]

abbrev pub return : {A : Type 0} → A → Reader A
return a r = ok a 0 r

cut_short : List ℕ → IoError
cut_short [] = eof
cut_short (b ∷ bs) = unexpected_eof

-- io.ReadFull into `m` bytes: what it read counts also where it fails.
unfoldable pub read_full : ℕ → Reader (List ℕ)
unfolding cut_short
read_full m r =
    if leb m (length r) then ok (take m r) m (drop m r) else failed (cut_short r) (length r) []

-- binary.Read of one byte.
unfoldable pub read_byte : Reader ℕ
read_byte [] = failed eof 0 []
read_byte (b ∷ r) = ok b 1 r

module _ (order : ByteOrder) where
  -- binary.Read of a `w`-byte integer: the callers count only a success.
  unfoldable pub binary_read : ℕ → Reader ℕ
  unfolding cut_short
  binary_read w r =
      if leb w (length r) then ok (order.get (take w r)) w (drop w r) else failed (cut_short r) 0 []

  -- Query.ReadFrom
  unfoldable pub read_query : Reader Query
  read_query = do
    nonce ← binary_read 8
    buffer ← binary_read 4
    plen ← binary_read 2
    text ← read_full plen
    return (record { nonce = nonce; buffer = buffer; query = text })

  -- Ping.ReadFrom
  unfoldable pub read_ping : Reader Frame
  read_ping = do nonce ← binary_read 8; pong ← read_byte; return (ping nonce (not (pong == 0)))

  -- Read.ReadFrom
  unfoldable pub read_read : Reader Frame
  read_read = do nonce ← binary_read 8; len ← binary_read 4; return (Frame.read nonce len)

  -- Response.ReadFrom
  unfoldable pub read_response : Reader Frame
  read_response = do
    nonce ← binary_read 8
    err_code ← read_byte
    buffer ← binary_read 4
    return (response nonce err_code buffer)

  -- Data.ReadFrom
  unfoldable pub read_data : Reader Frame
  read_data = do
    nonce ← binary_read 8
    plen ← binary_read 2
    bytes ← read_full plen
    return (data_frame nonce bytes)

  -- Migrate.ReadFrom
  unfoldable pub read_migrate : Reader Frame
  read_migrate = do nonce ← binary_read 8; return (migrate nonce)

  -- Reset.ReadFrom
  unfoldable pub read_reset : Reader Frame
  read_reset = do nonce ← binary_read 8; return (reset nonce)

  module _ (ids : IdentityCodec) where
    -- Identity.ReadFrom
    unfoldable pub read_identity : Reader ℕ
    read_identity = do bytes ← read_full 33; return (ids.get bytes)

    -- RelayQuery.ReadFrom: both identities are allocated, so neither is nil afterwards.
    unfoldable pub read_relay_query : Reader Frame
    read_relay_query = do
      caller ← read_identity
      target ← read_identity
      q ← read_query
      return (relay_query (some caller) (some target) q)

    -- ReadFrom of the frame that the decoded object type names.
    unfoldable pub read_from : FrameType → Reader Frame
    read_from ping_type = read_ping
    read_from query_type = do q ← read_query; return (query q)
    read_from relay_query_type = read_relay_query
    read_from read_type = read_read
    read_from response_type = read_response
    read_from data_type = read_data
    read_from migrate_type = read_migrate
    read_from reset_type = read_reset
