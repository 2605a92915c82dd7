-- ===== src/Objects/Registry.antt =====
-- mod/objects/src/repositories.go, with Add and Remove of a group (repo_group.go): the repositories by
-- name. A repository is a reference; one that is a group has the set of its members' names. The empty
-- name is 0. AddRepository gets an object that was not registered before, a new group is empty, and one
-- call comes after another.
pub mod Members
mod Tests
use astrald.Prelude.{
  ℕ, zero, suc, update, ◌==◌, Bool, true, false, Option, none, some, is_some, not, List, [], ◌∷◌,
  if◌then◌else◌,
}
use astrald.Sig.{SigMap, SigSet}

module _ (maps : SigMap) (sets : SigSet) where
  -- Module: its repositories, the groups among the references, and the number of references.
  pub record Module : Type 0 where
    pub repos : maps.Map
    pub groups : ℕ → Option sets.Set
    pub made : ℕ

  unfoldable pub get_repository : ℕ → Module → Option ℕ
  get_repository name m = maps.get name m.repos

  -- AddRepository of a new group or another new repository; false for an error.
  unfoldable pub add_repository : Bool → ℕ → Module → Module × Bool
  add_repository is_group name m =
      let (repos', added) = maps.set name m.made m.repos in
      (
        record m {
          repos = repos';
          groups = update m.groups m.made (if is_group then some sets.empty else none);
          made = suc m.made;
        },
        added,
      )

  -- Add of a group.
  unfoldable pub group_add : ℕ → ℕ → Module → Module × Bool
  group_add p name m =
      if not (is_some (get_repository name m)) then (m, false) else elim (m.groups p) [
        | none ↦ (m, false)
        | some names ↦ elim (sets.add name names) [
          | none ↦ (m, false)
          | some names' ↦ (record m { groups = update m.groups p (some names') }, true)
        ]
      ]

  abbrev pub remove_from : ℕ → Option sets.Set → Option sets.Set
  remove_from name none = none
  remove_from name (some names) = some (sets.remove name names)

  -- Remove of a group.
  unfoldable pub group_remove : ℕ → ℕ → Module → Module
  group_remove p name m = record m { groups = update m.groups p (remove_from name (m.groups p)) }

  -- The loop of RemoveRepository over the repositories.
  unfoldable pub remove_from_all : List ℕ → ℕ → Module → Module
  remove_from_all [] name m = m
  remove_from_all (p ∷ ps) name m = remove_from_all ps name (group_remove p name m)

  -- RemoveRepository; the callback AfterRemoved is left out.
  unfoldable pub remove_repository : ℕ → Module → Module × Bool
  remove_repository name m =
      let (repos', removed) = maps.delete name m.repos in
      let m' : Module = record m { repos = repos' } in
      if name == 0
      then (m, false)
      else if is_some removed
      then (remove_from_all (maps.values repos') name m', true)
      else (m', false)

  -- AddGroup
  unfoldable pub add_group : ℕ → ℕ → Module → Module × Bool
  add_group group name m = elim (get_repository group m) [
    | none ↦ (m, false)
    | some p ↦ group_add p name m
  ]

  -- RemoveGroup
  unfoldable pub remove_group : ℕ → ℕ → Module → Module
  remove_group group name m = elim (get_repository group m) [
    | none ↦ m
    | some p ↦ group_remove p name m
  ]
