-- ===== src/Nodes/Tests/BigEndian.antt =====
-- Concrete parameters for the frame codecs: the big-endian order, and identities as 33 bytes in it.
use native.Mathlib.Nat.{pow-suc}
use astrald.Prelude.{
  ℕ, zero, suc, ◌+◌, ◌*◌, ◌/◌, ◌%◌, ◌^◌, ◌<◌, ◌≡◌, refl, ◌∙◌, List, [], ◌∷◌, ◌++◌, arith, length,
  length-append,
}
use astrald.Nodes.Frames.Codec.{ByteOrder, IdentityCodec}

unfoldable pub put_be : ℕ → ℕ → List ℕ
put_be zero v = []
put_be (suc w) v = put_be w (v / 256) ++ (v % 256 ∷ [])

unfoldable pub get_from : ℕ → List ℕ → ℕ
get_from acc [] = acc
get_from acc (b ∷ bs) = get_from (acc * 256 + b) bs

pub length-put_be : (w v : ℕ) → length (put_be w v) ≡ w
unfolding put_be
length-put_be zero v = refl
length-put_be (suc w) v =
    omega (arith, length-append (put_be w (v / 256)) (v % 256 ∷ []), length-put_be w (v / 256))

get_from-snoc :
    (acc : ℕ) (bs : List ℕ) (b : ℕ) → get_from acc (bs ++ (b ∷ [])) ≡ get_from acc bs * 256 + b
unfolding get_from
get_from-snoc acc [] b = refl
get_from-snoc acc (x ∷ bs) b = get_from-snoc (acc * 256 + x) bs b

pub get-put_be : (w v : ℕ) → v < 256 ^ w → get_from 0 (put_be w v) ≡ v
unfolding put_be
get-put_be zero v h = unfold get_from in omega arith
get-put_be (suc w) v h =
    get_from-snoc 0 (put_be w (v / 256)) (v % 256)
    ∙ omega (arith, get-put_be w (v / 256) (omega (arith, pow-suc 256 w)))

abbrev pub big_endian : ByteOrder
big_endian = record {
  put = put_be;
  get = get_from 0;
  length_put = length-put_be;
  get_put = get-put_be;
}

abbrev pub plain_identities : IdentityCodec
plain_identities = record {
  put = put_be 33;
  get = get_from 0;
  length_put = length-put_be 33;
  get_put = get-put_be 33;
}
