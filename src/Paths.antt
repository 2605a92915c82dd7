-- ===== src/Paths.antt =====
-- lib/paths/paths.go: tests on path strings. A string is its list of bytes, and a separator is one
-- byte. WalkDir, which reads directories, is not modelled.
pub mod PathTrie
pub mod Coverage
pub mod Widest
pub mod Clean
mod Tests
use astrald.Prelude.{
  ℕ, ◌≡◌, refl, ◌⊎◌, inl, inr, ◌↔◌, ap, arith, Bool, true, false, not, ◌&&◌, ◌||◌, List, [], ◌∷◌,
  ◌++◌, if◌then◌else◌, ◌==◌, Bool-cases,
}

-- Equality of strings.
abbrev pub same : List ℕ → List ℕ → Bool
same [] [] = true
same [] (y ∷ ys) = false
same (x ∷ xs) [] = false
same (x ∷ xs) (y ∷ ys) = (x == y) && same xs ys

-- strings.HasPrefix of the second argument.
abbrev pub has_prefix : List ℕ → List ℕ → Bool
has_prefix [] s = true
has_prefix (x ∷ xs) [] = false
has_prefix (x ∷ xs) (y ∷ ys) = (x == y) && has_prefix xs ys

-- PathUnder
unfoldable pub path_under : List ℕ → List ℕ → ℕ → Bool
path_under path root sep =
    if same path root
    then true
    else if same root (sep ∷ [])
    then true
    else has_prefix (root ++ (sep ∷ [])) path

-- The inner loop of WidestRoots.
unfoldable pub under_other : ℕ → List ℕ → List (List ℕ) → Bool
under_other sep root [] = false
under_other sep root (other ∷ rest) =
    let later = under_other sep root rest in
    if not (same root other) && path_under root other sep then true else later

-- The outer loop of WidestRoots over the roots that are left.
unfoldable pub widest_loop : ℕ → List (List ℕ) → List (List ℕ) → List (List ℕ) → List (List ℕ)
widest_loop sep all [] widest = widest
widest_loop sep all (root ∷ rest) widest =
    widest_loop sep all rest (if under_other sep root all then widest else widest ++ (root ∷ []))

-- WidestRoots
unfoldable pub widest_roots : ℕ → List (List ℕ) → List (List ℕ)
widest_roots sep roots = widest_loop sep roots roots []

pub same_iff : (xs ys : List ℕ) → (same xs ys ≡ true) ↔ (xs ≡ ys)
same_iff [] [] = ground arith
same_iff [] (y ∷ ys) = ground arith
same_iff (x ∷ xs) [] = ground arith
same_iff (x ∷ xs) (y ∷ ys) = ground (arith, same_iff xs ys)

pub same_refl : (xs : List ℕ) → same xs xs ≡ true
same_refl xs = (same_iff xs xs).1 refl
