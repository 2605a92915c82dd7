-- ===== src/Objects/Registry/Tests.antt =====
-- A registry with a group of two repositories.
use astrald.Prelude.{◌≡◌, refl, true, false, none, some, is_some, List, [], ◌∷◌, contains}
use astrald.Nodes.Tests.AssocMap.{assoc_map, get, set}
use astrald.Nodes.Tests.ListSet.{list_set, add}
use astrald.Objects.Registry.{
  remove_repository, add_repository, add_group, get_repository, group_add,
}
use astrald.Objects.Registry.Members.{Call, names, call, calls, new, calls-new_lists}

abbrev history : List Call
history =
    Call.adds_repository true 1
    ∷ Call.adds_repository false 2
    ∷ Call.adds_repository false 3
    ∷ Call.adds_group 1 2
    ∷ Call.adds_group 1 3
    ∷ Call.adds_group 1 4
    ∷ []

group_found :
    assoc_map.get 1 (calls assoc_map list_set history (new assoc_map list_set)).repos ≡ some 0
unfolding calls call new add_repository add_group group_add get_repository get set add
group_found = refl

calls-new_lists_example :
    let m = calls assoc_map list_set history (new assoc_map list_set) in
    (contains (names assoc_map list_set m 0) 2 ≡ true → is_some (assoc_map.get 2 m.repos) ≡ true)
    × (let (m', removed) = remove_repository assoc_map list_set 2 m in
        removed ≡ true
        → (assoc_map.get 2 m'.repos ≡ none)
          × (assoc_map.get 1 m'.repos ≡ some 0
              → contains (names assoc_map list_set m' 0) 2 ≡ false))
calls-new_lists_example = calls-new_lists assoc_map list_set history 1 0 2 group_found
