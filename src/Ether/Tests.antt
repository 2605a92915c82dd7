-- ===== src/Ether/Tests.antt =====
-- Two nested subnets, 10.0.0.0/8 and 10.1.0.0/16, and a source on both.
use astrald.Prelude.{
  ℕ, ◌+◌, ◌*◌, ◌≤◌, ◌<◌, ◌≡◌, ◌≢◌, ◌↔◌, ◌⊎◌, arith, Bool, true, false, Option, none, some, List, [],
  ◌∷◌, All,
}
use astrald.Ether.{
  Subnet, LocalPrefix, is_in, find_subnet, is_on_link, PrefixCache, lookup, second, Datagram,
  delivered, EnvelopeCodec, handle_datagram,
}
use astrald.Ether.Subnets.{find_subnet_longest, lookup_fresh, handle_datagram_delivers}

abbrev local_prefixes : List LocalPrefix
local_prefixes =
    (record { addr = 167772161; subnet = record { network = 167772160; ones = 8 } })
    ∷ (record { addr = 167837697; subnet = record { network = 167837696; ones = 16 } })
    ∷ []

abbrev source : ℕ
source = 167837698

find_subnet_longest_example :
    ((find_subnet local_prefixes source ≡ none)
      × All (λ p. is_in source p.subnet ≡ false) local_prefixes)
    ⊎ ((s : Subnet) × (find_subnet local_prefixes source ≡ some s)
        × (is_in source s ≡ true)
        × All (λ p. is_in source p.subnet ≡ true → p.subnet.ones ≤ s.ones) local_prefixes)
find_subnet_longest_example = find_subnet_longest local_prefixes source

abbrev cache : PrefixCache
cache = record { loaded_at = 0; prefixes = []; failed = false }

lookup_fresh_example :
    let (c', answer, refreshed) = lookup 1500000000 (local_prefixes, false) source cache in
    (answer ≡ (c'.prefixes, c'.failed))
    × (1500000000 < c'.loaded_at + 3 * second)
    × (is_on_link c'.prefixes source ≡ false → 1500000000 < c'.loaded_at + second)
    × (refreshed ≡ true → (0 + second ≤ 1500000000) × (c'.loaded_at ≡ 1500000000))
lookup_fresh_example = lookup_fresh 1500000000 (local_prefixes, false) source cache (omega arith)

-- An envelope that is its version byte and one byte of object.
abbrev tiny_codec : EnvelopeCodec ℕ
tiny_codec = record { version = 1; read_from = tiny_read }
  where
    tiny_read : List ℕ → Option (ℕ × ℕ)
    tiny_read (v ∷ x ∷ xs) = some (2, x)
    tiny_read _ = none

abbrev hello : Datagram
hello = record { data_bytes = 1 ∷ 42 ∷ []; src = some source; ttl = some 255 }

abbrev always_local : ℕ → List LocalPrefix × Bool
always_local ip = (local_prefixes, false)

handle_datagram_delivers_example :
    (handle_datagram tiny_codec true always_local hello ≡ delivered source 42) ↔ (
      (2 ≤ 1024)
      × (some source ≡ some source)
      × ((true ≡ false) ⊎ ((◌≡◌ {A = Option ℕ}) (some 255) (some 255)))
      × (false ≡ false)
      × All (λ p. p.addr ≢ source) local_prefixes
      × ¬ All (λ p. is_in source p.subnet ≡ false) local_prefixes
      × ((xs : List ℕ) × (n : ℕ) × (1 ∷ 42 ∷ [] ≡ 1 ∷ xs)
          × (tiny_codec.read_from (1 ∷ 42 ∷ []) ≡ some (n, 42))
          × (2 ≤ n)))
handle_datagram_delivers_example =
    handle_datagram_delivers tiny_codec true always_local hello source 42
