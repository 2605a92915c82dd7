-- ===== src/Ether/Subnets.antt =====
-- The most specific subnet wins, the cache is never stale, and what a delivered datagram has passed.
use astrald.Prelude.{
  ℕ, ◌+◌, ◌*◌, ◌↔◌, ◌≤◌, ◌<◌, ◌≡◌, ◌≢◌, refl, Option-cases, ◌⊎◌, inl, inr, arith, ◌&&◌, Bool, true,
  false, Option, none, some, List, [], ◌∷◌, length, if◌then◌else◌, All,
}
use astrald.Ether.{
  Subnet, LocalPrefix, is_in, beats, find_loop, find_subnet, is_on_link, is_own_ip, PrefixCache,
  lookup, second, Datagram, delivered, EnvelopeCodec, decode_envelope, handle_local,
  handle_datagram, has_link_ttl, max_datagram_size,
}

-- No prefix whose subnet holds the address is longer than the answer, and no answer means no such
-- prefix.
abbrev IsLongest : ℕ → List LocalPrefix → Option Subnet → Type 0
IsLongest ip ps none = All (λ p. is_in ip p.subnet ≡ false) ps
IsLongest ip ps (some s) = All (λ p. is_in ip p.subnet ≡ true → p.subnet.ones ≤ s.ones) ps

abbrev IsGood : ℕ → Option Subnet → Type 0
IsGood ip none = Unit {0}
IsGood ip (some s) = is_in ip s ≡ true

abbrev AtLeast : Option Subnet → Option Subnet → Type 0
AtLeast none o = Unit {0}
AtLeast (some s) none = ⊥
AtLeast (some s) (some t) = s.ones ≤ t.ones

longer : (ip : ℕ) (p : LocalPrefix) (best : Option Subnet) → Option Subnet
longer ip p best = if beats p.subnet.ones best && is_in ip p.subnet then some p.subnet else best

glue :
    (ip : ℕ) (p : LocalPrefix) (ps : List LocalPrefix) (best o : Option Subnet)
    → AtLeast (longer ip p best) o
    → IsLongest ip ps o
    → AtLeast best o × IsLongest ip (p ∷ ps) o
unfolding longer
glue ip p ps none none a l = ground (arith, a, l)
glue ip p ps none (some s) a l = ground (arith, a, l)
glue ip p ps (some b) none a l = ground (arith, a)
glue ip p ps (some b) (some s) a l = ground (arith, a, l)

longer-IsGood :
    (ip : ℕ) (p : LocalPrefix) (best : Option Subnet)
    → IsGood ip best
    → IsGood ip (longer ip p best)
unfolding longer
longer-IsGood ip p none g = ground (arith, g)
longer-IsGood ip p (some b) g = ground (arith, g)

AtLeast-refl : (o : Option Subnet) → AtLeast o o
AtLeast-refl none = tt
AtLeast-refl (some s) = omega arith

none_in : (ip : ℕ) (o : Option Subnet) → IsLongest ip [] o
none_in ip none = tt
none_in ip (some s) = tt

find_loop-IsLongest :
    (ip : ℕ) (ps : List LocalPrefix) (best : Option Subnet)
    → IsGood ip best
    → IsGood ip (find_loop ip ps best)
      × AtLeast best (find_loop ip ps best)
      × IsLongest ip ps (find_loop ip ps best)
unfolding find_loop longer
find_loop-IsLongest ip [] best g = (g, AtLeast-refl best, none_in ip best)
find_loop-IsLongest ip (p ∷ ps) best g =
    let (g', a, l) = find_loop-IsLongest ip ps (longer ip p best) (longer-IsGood ip p best g) in
    let (b, m) = glue ip p ps best (find_loop ip ps (longer ip p best)) a l in (g', b, m)

-- findSubnet gives a subnet that holds the address, the longest of those that do, and none exactly
-- if no local subnet holds it.
pub find_subnet_longest :
    (prefixes : List LocalPrefix) (ip : ℕ)
    → ((find_subnet prefixes ip ≡ none) × All (λ p. is_in ip p.subnet ≡ false) prefixes)
      ⊎ ((s : Subnet) × (find_subnet prefixes ip ≡ some s)
          × (is_in ip s ≡ true)
          × All (λ p. is_in ip p.subnet ≡ true → p.subnet.ones ≤ s.ones) prefixes)
unfolding find_subnet
find_subnet_longest prefixes ip =
    split (find_subnet prefixes ip) refl (find_loop-IsLongest ip prefixes none tt)
  where
    split :
        (o : Option Subnet)
        → find_subnet prefixes ip ≡ o
        → IsGood ip o × AtLeast none o × IsLongest ip prefixes o
        → ((find_subnet prefixes ip ≡ none) × All (λ p. is_in ip p.subnet ≡ false) prefixes)
          ⊎ ((s : Subnet) × (find_subnet prefixes ip ≡ some s)
              × (is_in ip s ≡ true)
              × All (λ p. is_in ip p.subnet ≡ true → p.subnet.ones ≤ s.ones) prefixes)
    split none e (g, a, l) = inl (e, l)
    split (some s) e (g, a, l) = inr (s, e, g, l)

-- What lookup answers with was loaded less than three seconds ago, and less than a second ago if no
-- cached subnet holds the source; it is what the cache then holds; and lookup refreshes only a cache
-- that is a second old or more.
pub lookup_fresh :
    (now : ℕ) (load : List LocalPrefix × Bool) (src : ℕ) (c : PrefixCache)
    → c.loaded_at ≤ now
    → let (c', answer, refreshed) = lookup now load src c in
      (answer ≡ (c'.prefixes, c'.failed))
      × (now < c'.loaded_at + 3 * second)
      × (is_on_link c'.prefixes src ≡ false → now < c'.loaded_at + second)
      × (refreshed ≡ true → (c.loaded_at + second ≤ now) × (c'.loaded_at ≡ now))
unfolding lookup
lookup_fresh now load src c h = ground arith

-- No local prefix has the address as its own, or some subnet holds it.
own_ip_apart :
    (ps : List LocalPrefix) (ip : ℕ) → (is_own_ip ps ip ≡ false) ↔ All (λ p. p.addr ≢ ip) ps
unfolding is_own_ip
own_ip_apart [] ip = (λ e. tt, λ a. refl)
own_ip_apart (p ∷ ps) ip =
    let (to, from) = own_ip_apart ps ip in
    (
      λ e. (λ same. ground (arith, e, same), to (ground (arith, e))),
      λ (ne, a). ground (arith, ne, from a),
    )

none_held :
    (ip : ℕ) (ps : List LocalPrefix) (best : Option Subnet)
    → All (λ p. is_in ip p.subnet ≡ false) ps
    → find_loop ip ps best ≡ best
unfolding find_loop
none_held ip [] best a = refl
none_held ip (p ∷ ps) best (off, a) = ground (arith, off, none_held ip ps best a)

on_link_held :
    (ps : List LocalPrefix) (ip : ℕ)
    → (is_on_link ps ip ≡ true) ↔ ¬ All (λ p. is_in ip p.subnet ≡ false) ps
unfolding is_on_link find_subnet
on_link_held ps ip = elim (find_subnet_longest ps ip) [
  | inl (e, a) ↦ (λ h n. ground (arith, e, h), λ h. absurd (h a))
  | inr (s, e, held, a) ↦
      (λ h n. ground (arith, e, none_held ip ps none n, h), λ h. ground (arith, e))
]

envelope_read :
    {A : Type 0} (codec : EnvelopeCodec A) (bytes : List ℕ) (obj : A)
    → (decode_envelope codec bytes ≡ inr obj) ↔ (
        (xs : List ℕ) × (n : ℕ) × (bytes ≡ codec.version ∷ xs)
        × (codec.read_from bytes ≡ some (n, obj))
        × (length bytes ≤ n))
unfolding decode_envelope
envelope_read codec [] obj = (λ e. cc, λ (xs, n, e, f, g). cc)
envelope_read codec (x ∷ xs) obj = elim (Option-cases (codec.read_from (x ∷ xs))) [
  | inl e ↦ (λ h. ground (arith, e, h), λ (ys, n, same, f, g). cc (e, f))
  | inr ((n, o), e) ↦ (
    λ h. (xs, n, ground (arith, e, h), ground (arith, e, h), ground (arith, e, h)),
    λ (ys, k, same, f, g). ground (arith, e, same, f, g),
  )
]

guards_passed :
    {A : Type 0} (codec : EnvelopeCodec A) (check_ttl : Bool) (local : ℕ → List LocalPrefix × Bool)
    (d : Datagram) (ip : ℕ) (obj : A)
    → (handle_datagram codec check_ttl local d ≡ delivered ip obj) ↔ (
        (length d.data_bytes ≤ max_datagram_size)
        × (d.src ≡ some ip)
        × ((check_ttl ≡ false) ⊎ (has_link_ttl d.ttl ≡ true))
        × ((local ip).1 ≡ false)
        × (is_own_ip (local ip).0 ip ≡ false)
        × (is_on_link (local ip).0 ip ≡ true)
        × (decode_envelope codec d.data_bytes ≡ inr obj))
unfolding handle_datagram handle_local
guards_passed codec check_ttl local d ip obj = (λ e. ground (arith, e), λ h. ground (arith, h))

link_ttl : (t : Option ℕ) → (has_link_ttl t ≡ true) ↔ (t ≡ some 255)
link_ttl none = (λ e. cc, λ e. cc)
link_ttl (some t) = (λ e. ground (arith, e), λ e. ground (arith, e))

-- A datagram is delivered exactly if it is no longer than 1024 bytes, from an IPv4 source that is
-- the address of no local prefix and is in the subnet of some, with TTL 255 where that is checked,
-- after a lookup that did not fail, and starts with the envelope's version and reads as an envelope
-- that takes all its bytes; then it is the envelope's object, under that source.
pub handle_datagram_delivers :
    {A : Type 0} (codec : EnvelopeCodec A) (check_ttl : Bool) (local : ℕ → List LocalPrefix × Bool)
    (d : Datagram) (ip : ℕ) (obj : A)
    → (handle_datagram codec check_ttl local d ≡ delivered ip obj) ↔ (
        (length d.data_bytes ≤ 1024)
        × (d.src ≡ some ip)
        × ((check_ttl ≡ false) ⊎ (d.ttl ≡ some 255))
        × ((local ip).1 ≡ false)
        × All (λ p. p.addr ≢ ip) (local ip).0
        × ¬ All (λ p. is_in ip p.subnet ≡ false) (local ip).0
        × ((xs : List ℕ) × (n : ℕ) × (d.data_bytes ≡ codec.version ∷ xs)
            × (codec.read_from d.data_bytes ≡ some (n, obj))
            × (length d.data_bytes ≤ n)))
handle_datagram_delivers codec check_ttl local d ip obj =
    let (to, from) = guards_passed codec check_ttl local d ip obj in
    let own = own_ip_apart (local ip).0 ip in
    let near = on_link_held (local ip).0 ip in
    let read = envelope_read codec d.data_bytes obj in
    (
      λ e.
          let (size, src, ttl, fine, mine, held, obj') = to e in
          (size, src, ttl_either ttl, fine, own.0 mine, near.0 held, read.0 obj'),
      λ (size, src, ttl, fine, mine, held, obj').
          from (size, src, either_ttl ttl, fine, own.1 mine, near.1 held, read.1 obj'),
    )
  where
    ttl_either :
        (check_ttl ≡ false) ⊎ (has_link_ttl d.ttl ≡ true) → (check_ttl ≡ false) ⊎ (d.ttl ≡ some 255)
    ttl_either (inl e) = inl e
    ttl_either (inr e) = inr ((link_ttl d.ttl).0 e)

    either_ttl :
        (check_ttl ≡ false) ⊎ (d.ttl ≡ some 255) → (check_ttl ≡ false) ⊎ (has_link_ttl d.ttl ≡ true)
    either_ttl (inl e) = inl e
    either_ttl (inr e) = inr ((link_ttl d.ttl).1 e)
