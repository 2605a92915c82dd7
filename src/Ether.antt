-- ===== src/Ether.antt =====
-- mod/ether/src: which subnet a source address is on (prefixes.go), and which datagrams are let in
-- (receive.go). An IPv4 address is a number below 2 ^ 32, an IPv4 source is `some` of one.
pub mod Subnets
mod Tests
use astrald.Prelude.{
  ◌*◌, ◌⊎◌, inl, inr, ℕ, ◌-◌, ◌/◌, ◌^◌, ◌≡◌, ◌==◌, ltb, leb, not, ◌&&◌, ◌||◌, Bool, true, false,
  Option, none, some, List, [], ◌∷◌, length, is_nil, if◌then◌else◌,
}

pub record Subnet : Type 0 where
  pub network : ℕ
  pub ones : ℕ

-- localPrefix
pub record LocalPrefix : Type 0 where
  pub addr : ℕ
  pub subnet : Subnet

-- net.IPNet's Contains: the first `ones` bits agree.
abbrev pub is_in : ℕ → Subnet → Bool
is_in ip s = (ip / 2 ^ (32 - s.ones)) == (s.network / 2 ^ (32 - s.ones))

-- Whether `ones` is above bestOnes, which is -1 while there is no best.
abbrev pub beats : ℕ → Option Subnet → Bool
beats n none = true
beats n (some b) = ltb b.ones n

-- The loop of findSubnet.
unfoldable pub find_loop : ℕ → List LocalPrefix → Option Subnet → Option Subnet
find_loop ip [] best = best
find_loop ip (p ∷ ps) best =
    find_loop ip ps (if beats p.subnet.ones best && is_in ip p.subnet then some p.subnet else best)

-- findSubnet
unfoldable pub find_subnet : List LocalPrefix → ℕ → Option Subnet
find_subnet prefixes ip = find_loop ip prefixes none

abbrev pub found : Option Subnet → Bool
found none = false
found (some s) = true

-- isOnLink
unfoldable pub is_on_link : List LocalPrefix → ℕ → Bool
is_on_link prefixes ip = found (find_subnet prefixes ip)

-- isOwnIP
unfoldable pub is_own_ip : List LocalPrefix → ℕ → Bool
is_own_ip [] ip = false
is_own_ip (p ∷ ps) ip = (p.addr == ip) || is_own_ip ps ip

abbrev pub second : ℕ
second = 1000000000

-- What a load of the prefixes gives: their list, and whether it failed.
pub record PrefixCache : Type 0 where
  pub loaded_at : ℕ
  pub prefixes : List LocalPrefix
  pub failed : Bool

-- lookup at `now`, with what a refresh would load; the last component says whether it refreshed.
unfoldable pub lookup :
    ℕ → List LocalPrefix × Bool → ℕ → PrefixCache → PrefixCache × (List LocalPrefix × Bool) × Bool
lookup now (fresh, failed) src c =
    let age = now - c.loaded_at in
    if leb (3 * second) age || (leb second age && not (is_on_link c.prefixes src))
    then (record { loaded_at = now; prefixes = fresh; failed = failed }, (fresh, failed), true)
    else (c, (c.prefixes, c.failed), false)

pub record Datagram : Type 0 where
  pub data_bytes : List ℕ
  pub src : Option ℕ
  pub ttl : Option ℕ

-- newDatagram: the TTL is that of the control message, if there is one; the source is `some` of an
-- IPv4 address if it is a UDP one.
unfoldable new_datagram : List ℕ → Option ℕ → Option ℕ → Datagram
new_datagram bytes ttl src = record { data_bytes = bytes; src = src; ttl = ttl }

-- newPrefixCache: loaded at the zero time.
unfoldable new_prefix_cache : PrefixCache
new_prefix_cache = record { loaded_at = 0; prefixes = []; failed = false }

pub data Drop : Type 0 where
  oversize not_ipv4 not_link_ttl lookup_failed own_source off_link bad_version bad_decode
        trailing_bytes :
      Drop

pub data Verdict (A : Type 0) : Type 0 where
  dropped : Drop → Verdict A
  delivered : ℕ → A → Verdict A

abbrev pub max_datagram_size : ℕ
max_datagram_size = 1024

abbrev link_ttl : ℕ
link_ttl = 255

abbrev pub has_link_ttl : Option ℕ → Bool
has_link_ttl none = false
has_link_ttl (some t) = t == link_ttl

-- The envelope's version byte and its ReadFrom, which are not part of the repository: the number of
-- bytes that were read and the object.
pub record EnvelopeCodec (A : Type 0) : Type 0 where
  pub version : ℕ
  pub read_from : List ℕ → Option (ℕ × A)

module _ {A : Type 0} (codec : EnvelopeCodec A) where
  -- decodeEnvelope
  unfoldable pub decode_envelope : List ℕ → Drop ⊎ A
  decode_envelope [] = inl bad_version
  decode_envelope (x ∷ xs) =
      if not (x == codec.version) then inl bad_version else elim (codec.read_from (x ∷ xs)) [
        | none ↦ inl bad_decode
        | some (n, obj) ↦ if ltb n (length (x ∷ xs)) then inl trailing_bytes else inr obj
      ]

  -- handleDatagram, past the lookup of the local prefixes.
  unfoldable pub handle_local : ℕ → List LocalPrefix × Bool → List ℕ → Verdict A
  handle_local ip (prefixes, failed) bytes =
      if failed
      then dropped lookup_failed
      else if is_own_ip prefixes ip
      then dropped own_source
      else if not (is_on_link prefixes ip)
      then dropped off_link
      else elim (decode_envelope bytes) [ inl e ↦ dropped e | inr obj ↦ delivered ip obj ]

  -- handleDatagram; `check_ttl` is checkInboundTTL, which differs between platforms.
  unfoldable pub handle_datagram : Bool → (ℕ → List LocalPrefix × Bool) → Datagram → Verdict A
  handle_datagram check_ttl local d =
      if ltb max_datagram_size (length d.data_bytes) then dropped oversize else elim d.src [
        | none ↦ dropped not_ipv4
        | some ip ↦
            if check_ttl && not (has_link_ttl d.ttl)
            then dropped not_link_ttl
            else handle_local ip (local ip) d.data_bytes
      ]
