-- ===== src/Nodes/Tests/FramesTests.antt =====
-- Frames written and read in the big-endian order.
use astrald.Prelude.{ℕ, ◌≡◌, refl, true, List, [], ◌∷◌, ◌++◌, none, some, arith, length}
use astrald.Nodes.Frames.{Query, query, relay_query, migrate, type_of, migrate_type}
use astrald.Nodes.Frames.Codec.{ok, failed, IoError, read_from}
use astrald.Nodes.Frames.Writing.{appending, write_to, write_query, binary_write, raw, ◌then_write◌}
use astrald.Nodes.Frames.RoundTrip.{round_trip}
use astrald.Nodes.Frames.Partial.{truncated_fails}
use astrald.Nodes.Tests.BigEndian.{big_endian, plain_identities, put_be}

abbrev hello : Query
hello = record { nonce = 7; buffer = 12345; query = 104 ∷ 105 ∷ [] }

hello_bytes :
    (write_to appending big_endian plain_identities (query hello) []).0
    ≡ 0 ∷ 0 ∷ 0 ∷ 0 ∷ 0 ∷ 0 ∷ 0 ∷ 7 ∷ 0 ∷ 0 ∷ 48 ∷ 57 ∷ 0 ∷ 2 ∷ 104 ∷ 105 ∷ []
unfolding write_to write_query binary_write raw ◌then_write◌ put_be
hello_bytes = refl

migrate_bytes :
    (write_to appending big_endian plain_identities (migrate 5) []).0
    ≡ (0 ∷ 0 ∷ 0 ∷ []) ++ (0 ∷ 0 ∷ 0 ∷ 0 ∷ 5 ∷ [])
unfolding write_to binary_write put_be
migrate_bytes = refl

round_trip_example :
    let (bs, n, fine) =
      write_to appending big_endian plain_identities (relay_query none (some 9) hello) [] in
    (fine ≡ true)
    × (n ≡ length bs)
    × (read_from big_endian plain_identities
          (type_of (relay_query none (some 9) hello))
          (bs ++ (1 ∷ []))
        ≡ ok (relay_query (some 0) (some 9) hello) n (1 ∷ []))
round_trip_example =
    round_trip big_endian plain_identities (relay_query none (some 9) hello) (1 ∷ []) (omega arith)

truncated_fails_example :
    (e : IoError) × (n : ℕ) × (rest : List ℕ) × (read_from big_endian plain_identities migrate_type
        (0 ∷ 0 ∷ 0 ∷ [])
      ≡ failed e n rest)
truncated_fails_example =
    truncated_fails big_endian plain_identities (migrate 5) (0 ∷ 0 ∷ 0 ∷ []) 0 (0 ∷ 0 ∷ 0 ∷ 5 ∷ [])
      (omega arith) migrate_bytes
