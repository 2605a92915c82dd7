-- ===== src/Sig.antt =====
-- The containers of the astral-go package sig, which is not part of the repository: what the code
-- relies on.
use astrald.Prelude.{
  ℕ, ◌≡◌, ◌==◌, not, ◌&&◌, ◌||◌, Bool, true, false, Option, none, some, is_some, List, [], contains,
  if◌then◌else◌,
}

-- sig.Map, which is not part of the repository: Set refuses a key that is taken.
pub record SigMap : Type 1 where
  pub Map : Type 0
  pub empty : Map
  pub get : ℕ → Map → Option ℕ
  pub set : ℕ → ℕ → Map → Map × Bool
  pub delete : ℕ → Map → Map × Option ℕ
  pub values : Map → List ℕ
  pub get-empty : (j : ℕ) → get j empty ≡ none
  pub set_ok : (k v : ℕ) (m : Map) → (set k v m).1 ≡ not (is_some (get k m))
  pub get-set :
      (k v : ℕ) (m : Map) (j : ℕ)
      → get j (set k v m).0
        ≡ (if is_some (get k m) then get j m else if k == j then some v else get j m)
  pub get-delete :
      (k : ℕ) (m : Map) (j : ℕ) → get j (delete k m).0 ≡ (if k == j then none else get j m)
  pub delete_value : (k : ℕ) (m : Map) → (delete k m).1 ≡ get k m
  pub values_all : (k v : ℕ) (m : Map) → get k m ≡ some v → contains (values m) v ≡ true

-- sig.Set, which is not part of the repository; Clone lists the set.
pub record SigSet : Type 1 where
  pub Set : Type 0
  pub empty : Set
  pub clone : Set → List ℕ
  pub add : ℕ → Set → Option Set
  pub remove : ℕ → Set → Set
  pub clone-empty : clone empty ≡ []
  pub add-present : (a : ℕ) (s : Set) → contains (clone s) a ≡ true → add a s ≡ none
  pub add-absent :
      (a : ℕ) (s : Set)
      → contains (clone s) a ≡ false
      → (s' : Set) × (add a s ≡ some s')
        × ((b : ℕ) → contains (clone s') b ≡ ((a == b) || contains (clone s) b))
  pub contains-remove :
      (a : ℕ) (s : Set) (b : ℕ)
      → contains (clone (remove a s)) b ≡ (not (a == b) && contains (clone s) b)
