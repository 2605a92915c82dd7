-- ===== src/Paths/Tests.antt =====
-- Paths with "/" as the separator; 97 and 98 are "a" and "b".
use astrald.Prelude.{ℕ, ◌≡◌, refl, ◌⊎◌, true, false, none, some, List, [], ◌∷◌, if◌then◌else◌, All}
use astrald.Paths.{path_under, widest_roots, under_other, widest_loop}
use astrald.Paths.PathTrie.{PathTrie, new_path_trie, covers, is_absolute}
use astrald.Paths.Coverage.{all_absolute, is_covered, new_path_trie-covers}
use astrald.Paths.Widest.{has, widest_roots_cover}
use astrald.Paths.Clean.{IsClean, join, joins, under_any, new_path_trie-path_under}

abbrev slash_a : List ℕ
slash_a = 47 ∷ 97 ∷ []

-- "/a/../b/"
abbrev winding : List ℕ
winding = 47 ∷ 97 ∷ 47 ∷ 46 ∷ 46 ∷ 47 ∷ 98 ∷ 47 ∷ []

abbrev roots : List (List ℕ)
roots = slash_a ∷ (47 ∷ 97 ∷ 47 ∷ 98 ∷ []) ∷ winding ∷ []

widest : widest_roots 47 roots ≡ slash_a ∷ []
unfolding widest_roots widest_loop under_other path_under
widest = refl

new_path_trie-covers_example :
    ((all_absolute 47 roots ≡ false) × (new_path_trie roots 47 ≡ none))
    ⊎ ((all_absolute 47 roots ≡ true)
        × ((t : PathTrie) × (new_path_trie roots 47 ≡ some t)
            × ((path : List ℕ)
                → covers 47 path t
                  ≡ (if is_absolute 47 path then some (is_covered 47 roots path) else none))))
new_path_trie-covers_example = new_path_trie-covers 47 roots

widest_roots_cover_example :
    ((r : List ℕ) → has r (widest_roots 47 roots) ≡ true → has r roots ≡ true)
    × ((p r : List ℕ)
        → has r roots ≡ true
        → path_under p r 47 ≡ true
        → (w : List ℕ) × (has w (widest_roots 47 roots) ≡ true) × (path_under p w 47 ≡ true))
    × ((r s : List ℕ)
        → has r (widest_roots 47 roots) ≡ true
        → has s (widest_roots 47 roots) ≡ true
        → path_under r s 47 ≡ true
        → r ≡ s)
widest_roots_cover_example = widest_roots_cover 47 roots refl

abbrev segs : List (List ℕ)
segs = (97 ∷ []) ∷ (98 ∷ []) ∷ []

segs-IsClean : All (IsClean 47) segs
segs-IsClean = ((refl, refl, refl, refl), ((refl, refl, refl, refl), tt))

new_path_trie-path_under_example :
    (t : PathTrie) × (new_path_trie (joins 47 (segs ∷ [])) 47 ≡ some t)
    × (covers 47 (join 47 segs) t ≡ some (under_any 47 (join 47 segs) (joins 47 (segs ∷ []))))
new_path_trie-path_under_example =
    new_path_trie-path_under 47 (segs ∷ []) segs (segs-IsClean, tt) segs-IsClean
