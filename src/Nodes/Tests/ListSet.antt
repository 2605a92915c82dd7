-- ===== src/Nodes/Tests/ListSet.antt =====
-- sig.Set as a list.
use astrald.Prelude.{
  ℕ, ◌≡◌, refl, arith, ◌==◌, not, ◌&&◌, ◌||◌, true, false, Option, none, some, List, [], ◌∷◌,
  contains, if◌then◌else◌,
}
use astrald.Sig.{SigSet}

unfoldable pub remove : ℕ → List ℕ → List ℕ
remove a [] = []
remove a (b ∷ s) = if a == b then remove a s else b ∷ remove a s

pub contains-remove :
    (a : ℕ) (s : List ℕ) (b : ℕ) → contains (remove a s) b ≡ (not (a == b) && contains s b)
unfolding remove
contains-remove a [] b = ground arith
contains-remove a (c ∷ s) b = ground (arith, contains-remove a s b)

unfoldable pub add : ℕ → List ℕ → Option (List ℕ)
add a s = if contains s a then none else some (a ∷ s)

pub add-present : (a : ℕ) (s : List ℕ) → contains s a ≡ true → add a s ≡ none
unfolding add
add-present a s e = ground (arith, e)

pub add-absent :
    (a : ℕ) (s : List ℕ)
    → contains s a ≡ false
    → (s' : List ℕ) × (add a s ≡ some s') × ((b : ℕ) → contains s' b ≡ ((a == b) || contains s b))
unfolding add
add-absent a s e = (a ∷ s, ground (arith, e), λ b. refl)

abbrev pub list_set : SigSet
list_set = record {
  Set = List ℕ;
  empty = [];
  clone = λ s. s;
  add = add;
  remove = remove;
  clone-empty = refl;
  add-present = add-present;
  add-absent = add-absent;
  contains-remove = contains-remove;
}
