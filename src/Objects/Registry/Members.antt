-- ===== src/Objects/Registry/Members.antt =====
-- Every group that is registered lists registered repositories only.
use astrald.Prelude.{
  ℕ, ◌≡◌, refl, inl, inr, arith, ◌==◌, ltb, not, ◌&&◌, ◌||◌, Bool, true, false, none, some, is_some,
  List, [], ◌∷◌, contains, if◌then◌else◌, Bool-cases, Option-cases,
}
use astrald.Sig.{SigMap, SigSet}
use astrald.Objects.Registry.{
  Module, get_repository, add_repository, group_add, group_remove, remove_from_all,
  remove_repository, add_group, remove_group,
}

pub data Call : Type 0 where
  adds_repository : Bool → ℕ → Call
  removes_repository : ℕ → Call
  adds_group removes_group : ℕ → ℕ → Call

module _ (maps : SigMap) (sets : SigSet) where
  -- The names of a group; a repository that is no group has none.
  abbrev pub names : Module maps sets → ℕ → List ℕ
  names m p = elim (m.groups p) [ none ↦ [] | some s ↦ sets.clone s ]

  unfoldable pub call : Call → Module maps sets → Module maps sets
  call (adds_repository is_group name) m = (add_repository maps sets is_group name m).0
  call (removes_repository name) m = (remove_repository maps sets name m).0
  call (adds_group group name) m = (add_group maps sets group name m).0
  call (removes_group group name) m = remove_group maps sets group name m

  unfoldable pub calls : List Call → Module maps sets → Module maps sets
  calls [] m = m
  calls (c ∷ cs) m = calls cs (call c m)

  unfoldable pub new : Module maps sets
  new = record { repos = maps.empty; groups = λ p. none; made = 0 }

  -- What is registered under k is an old reference, and if it lists n, then n is registered.
  abbrev lists_registered : Module maps sets → ℕ → ℕ → Bool
  lists_registered m k n = elim (maps.get k m.repos) [
    | none ↦ true
    | some p ↦ ltb p m.made && (not (contains (names m p) n) || is_some (maps.get n m.repos))
  ]

  abbrev IsClosed : Module maps sets → Type 0
  IsClosed m = (k n : ℕ) → lists_registered m k n ≡ true

  names-group_remove :
      (p name q n : ℕ) (m : Module maps sets)
      → contains (names (group_remove maps sets p name m) q) n
        ≡ (if p == q then (not (name == n) && contains (names m q) n) else contains (names m q) n)
  unfolding group_remove
  names-group_remove p name q n m = elim (Option-cases (m.groups q)) [
    | inl e ↦ ground (arith, e)
    | inr (s, e) ↦ ground (arith, e, sets.contains-remove name s n)
  ]

  remove_from_all-same :
      (ps : List ℕ) (name : ℕ) (m : Module maps sets)
      → ((remove_from_all maps sets ps name m).repos ≡ m.repos)
        × ((remove_from_all maps sets ps name m).made ≡ m.made)
  unfolding remove_from_all group_remove
  remove_from_all-same [] name m = (refl, refl)
  remove_from_all-same (p ∷ ps) name m =
      remove_from_all-same ps name (group_remove maps sets p name m)

  names-remove_from_all :
      (ps : List ℕ) (name q n : ℕ) (m : Module maps sets)
      → contains (names (remove_from_all maps sets ps name m) q) n ≡ (
          if contains ps q
          then (not (name == n) && contains (names m q) n)
          else contains (names m q) n)
  unfolding remove_from_all
  names-remove_from_all [] name q n m = refl
  names-remove_from_all (p ∷ ps) name q n m = ground (
    arith,
    names-group_remove p name q n m,
    names-remove_from_all ps name q n (group_remove maps sets p name m),
  )

  add_repository-IsClosed :
      (is_group : Bool) (name : ℕ) (m : Module maps sets)
      → IsClosed m
      → IsClosed (add_repository maps sets is_group name m).0
  unfolding add_repository
  add_repository-IsClosed is_group name m c k n = ground (
    arith,
    c k n,
    maps.get-set name m.made m.repos k,
    maps.get-set name m.made m.repos n,
    sets.clone-empty,
  )

  group_add-IsClosed :
      (g name : ℕ) (m : Module maps sets) → IsClosed m → IsClosed (group_add maps sets g name m).0
  unfolding group_add get_repository
  group_add-IsClosed g name m c k n = elim (Option-cases (m.groups g)) [
    | inl e ↦ ground (arith, e, c k n)
    | inr (s, e) ↦ elim (Bool-cases (contains (sets.clone s) name)) [
      | inl b ↦ ground (arith, e, b, c k n, sets.add-present name s b)
      | inr b ↦ let (s', a, f) = sets.add-absent name s b in ground (arith, e, b, a, f n, c k n)
    ]
  ]

  group_remove-IsClosed :
      (g name : ℕ) (m : Module maps sets) → IsClosed m → IsClosed (group_remove maps sets g name m)
  unfolding group_remove
  group_remove-IsClosed g name m c k n = elim (Option-cases (maps.get k m.repos)) [
    | inl e ↦ ground (arith, e)
    | inr (p, e) ↦ ground (arith, e, c k n, names-group_remove g name p n m)
  ]

  remove_repository-IsClosed :
      (name : ℕ) (m : Module maps sets)
      → IsClosed m
      → IsClosed (remove_repository maps sets name m).0
  unfolding remove_repository
  remove_repository-IsClosed name m c k n =
      let repos' = (maps.delete name m.repos).0 in
      let m' : Module maps sets = record m { repos = repos' } in
      let ps = maps.values repos' in
      let (same, made) = remove_from_all-same ps name m' in
      elim (Option-cases (maps.get k m.repos)) [
        | inl e ↦ ground (arith, e, same, maps.get-delete name m.repos k)
        | inr (p, e) ↦ ground (
          arith,
          e,
          c k n,
          same,
          made,
          maps.get-delete name m.repos k,
          maps.get-delete name m.repos n,
          maps.delete_value name m.repos,
          maps.values_all k p repos',
          names-remove_from_all ps name p n m',
        )
      ]

  remove_repository-gone :
      (name : ℕ) (m : Module maps sets)
      → (remove_repository maps sets name m).1 ≡ true
      → maps.get name (remove_repository maps sets name m).0.repos ≡ none
  unfolding remove_repository
  remove_repository-gone name m r =
      let repos' = (maps.delete name m.repos).0 in
      let (same, made) =
        remove_from_all-same (maps.values repos') name (record m { repos = repos' }) in
      ground (arith, r, same, maps.get-delete name m.repos name)

  call-IsClosed : (d : Call) (m : Module maps sets) → IsClosed m → IsClosed (call d m)
  unfolding call add_group remove_group get_repository
  call-IsClosed (adds_repository is_group name) m c k n =
      add_repository-IsClosed is_group name m c k n
  call-IsClosed (removes_repository name) m c k n = remove_repository-IsClosed name m c k n
  call-IsClosed (adds_group group name) m c k n = elim (Option-cases (maps.get group m.repos)) [
    | inl e ↦ ground (arith, e, c k n)
    | inr (p, e) ↦ ground (arith, e, group_add-IsClosed p name m c k n)
  ]
  call-IsClosed (removes_group group name) m c k n = elim (Option-cases (maps.get group m.repos)) [
    | inl e ↦ ground (arith, e, c k n)
    | inr (p, e) ↦ ground (arith, e, group_remove-IsClosed p name m c k n)
  ]

  calls-IsClosed : (cs : List Call) (m : Module maps sets) → IsClosed m → IsClosed (calls cs m)
  unfolding calls
  calls-IsClosed [] m c = c
  calls-IsClosed (d ∷ cs) m c = calls-IsClosed cs (call d m) (call-IsClosed d m c)

  new-IsClosed : IsClosed new
  unfolding new
  new-IsClosed k n = ground (arith, maps.get-empty k)

  -- In every history of registering and removing repositories and of changing groups, a group that is
  -- registered lists registered repositories only. So after a RemoveRepository that succeeds the name is
  -- not registered, and no registered group lists it.
  pub calls-new_lists :
      (cs : List Call) (k p n : ℕ)
      → let m = calls cs new in
        maps.get k m.repos ≡ some p
        → (contains (names m p) n ≡ true → is_some (maps.get n m.repos) ≡ true)
          × (let (m', removed) = remove_repository maps sets n m in
              removed ≡ true
              → (maps.get n m'.repos ≡ none)
                × (maps.get k m'.repos ≡ some p → contains (names m' p) n ≡ false))
  calls-new_lists cs k p n e =
      let m = calls cs new in
      let c = calls-IsClosed cs new new-IsClosed in
      let m' = (remove_repository maps sets n m).0 in
      (
        (λ l. ground (arith, e, l, c k n)),
        λ r.
            let gone = remove_repository-gone n m r in
            (gone, λ e'. ground (arith, e', gone, remove_repository-IsClosed n m c k n)),
      )
