-- ===== src/Nodes/Tests/AssocMap.antt =====
-- A map with the behaviour of sig.Map that the mux relies on, as a list of keys and values.
use astrald.Prelude.{
  ℕ, ◌≡◌, refl, arith, Bool, true, false, not, Option, none, some, List, [], ◌∷◌, if◌then◌else◌,
  ◌==◌, is_some, contains,
}
use astrald.Nodes.Mux.{SigMap}

unfoldable pub get : ℕ → List (ℕ × ℕ) → Option ℕ
get j [] = none
get j ((k, v) ∷ m) = let later = get j m in if k == j then some v else later

unfoldable pub set : ℕ → ℕ → List (ℕ × ℕ) → List (ℕ × ℕ) × Bool
set k v m = if is_some (get k m) then (m, false) else ((k, v) ∷ m, true)

unfoldable pub without : ℕ → List (ℕ × ℕ) → List (ℕ × ℕ)
without j [] = []
without j ((k, v) ∷ m) = let later = without j m in if k == j then later else (k, v) ∷ later

unfoldable pub values : List (ℕ × ℕ) → List ℕ
values [] = []
values ((k, v) ∷ m) = v ∷ values m

pub get-empty : (j : ℕ) → get j [] ≡ none
unfolding get
get-empty j = refl

pub set_ok : (k v : ℕ) (m : List (ℕ × ℕ)) → (set k v m).1 ≡ not (is_some (get k m))
unfolding set
set_ok k v m = ground arith

pub get-set :
    (k v : ℕ) (m : List (ℕ × ℕ)) (j : ℕ)
    → get j (set k v m).0
      ≡ (if is_some (get k m) then get j m else if k == j then some v else get j m)
unfolding set get
get-set k v m j = ground arith

pub get-without :
    (k : ℕ) (m : List (ℕ × ℕ)) (j : ℕ) → get j (without k m) ≡ (if k == j then none else get j m)
unfolding get without
get-without k [] j = ground arith
get-without k ((i, v) ∷ m) j = ground (arith, get-without k m j)

pub values_all : (k v : ℕ) (m : List (ℕ × ℕ)) → get k m ≡ some v → contains (values m) v ≡ true
unfolding get values
values_all k v [] e = cc e
values_all k v ((i, u) ∷ m) e = ground (arith, values_all k v m)

abbrev pub assoc_map : SigMap
assoc_map = record {
  Map = List (ℕ × ℕ);
  empty = [];
  get = get;
  set = set;
  delete = λ k m. (without k m, get k m);
  values = values;
  get-empty = get-empty;
  set_ok = set_ok;
  get-set = get-set;
  get-delete = get-without;
  delete_value = λ k m. refl;
  values_all = values_all;
}
