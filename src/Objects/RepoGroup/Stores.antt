-- ===== src/Objects/RepoGroup/Stores.antt =====
-- What a repository promises of the objects it holds, and that a group keeps the promise when its
-- members do. So a group can be a member of another one.
use astrald.Prelude.{
  suc, ◌≡◌, refl, arith, ◌||◌, not, is_some, Bool, false, Option, none, List, [], ◌∷◌,
  if◌then◌else◌,
}
use astrald.Objects.{ObjectId, Error, not_found, Result, ok, err, Repo}
use astrald.Objects.RepoGroup.{
  LookupTally, is_unsupported, new_tally, add, miss_err, error_of, contains_from, delete_from,
  contains, delete, new_repo_group,
}

-- Which objects a repository holds in a world.
abbrev pub View : Type 0 → Type 0
View W = ObjectId → W → Bool

abbrev pub Stores : Type 0 → Type 0 → Type 0 → Type 0
Stores W R V = List (Repo W R V × View W)

module _ {W R V : Type 0} where
  abbrev repos_of : Stores W R V → List (Repo W R V)
  repos_of [] = []
  repos_of ((repo, view) ∷ ss) = repo ∷ repos_of ss

  -- Some member holds the object.
  abbrev pub any_view : Stores W R V → View W
  any_view [] id w = false
  any_view ((repo, view) ∷ ss) id w = view id w || any_view ss id w

miss_supported :
    {A : Type 0} (miss : Result A) (t : LookupTally)
    → t.unsupported ≡ 0
    → miss_err none miss t ≡ miss
unfolding miss_err
miss_supported miss t e = ground (arith, e)

module _ {W R V : Type 0} (ctx_err : W → Option Error) where
  -- While the context goes on: Contains tells what the view says and changes nothing; Delete finds
  -- what the view says, and the view has the object no more.
  pub record IsStore (repo : Repo W R V) (view : View W) : Type 0 where
    pub contains_view :
        (id : ObjectId) (w : W) → ctx_err w ≡ none → repo.contains id w ≡ (w, ok (view id w))
    pub delete_view :
        (id : ObjectId) (w : W)
        → ctx_err w ≡ none
        → (ctx_err (repo.delete id w).0 ≡ none)
          × (view id (repo.delete id w).0 ≡ false)
          × ((repo.delete id w).1 ≡ (if view id w then ok tt else err not_found))

  -- A Delete of the repository leaves a view alone.
  abbrev pub Leaves : Repo W R V → View W → Type 0
  Leaves repo view =
      (id j : ObjectId) (w : W) → ctx_err w ≡ none → view j (repo.delete id w).0 ≡ view j w

  abbrev pub AllLeave : Stores W R V → View W → Type 0
  AllLeave [] view = Unit
  AllLeave ((repo, v) ∷ ss) view = Leaves repo view × AllLeave ss view

  abbrev LeavesAll : Repo W R V → Stores W R V → Type 0
  LeavesAll repo [] = Unit
  LeavesAll repo ((r, view) ∷ ss) = Leaves repo view × LeavesAll repo ss

  -- Stores that do not share objects.
  abbrev pub AreStores : Stores W R V → Type 0
  AreStores [] = Unit
  AreStores ((repo, view) ∷ ss) =
      IsStore repo view × AllLeave ss view × LeavesAll repo ss × AreStores ss

  any_view-left :
      (repo : Repo W R V) (ss : Stores W R V) (id : ObjectId) (w : W)
      → LeavesAll repo ss
      → ctx_err w ≡ none
      → any_view ss id (repo.delete id w).0 ≡ any_view ss id w
  any_view-left repo [] id w l c = refl
  any_view-left repo ((r, view) ∷ ss) id w (l, ls) c =
      ground (arith, l id id w c, any_view-left repo ss id w ls c)

  contains_from-view :
      (ss : Stores W R V) (id : ObjectId) (t : LookupTally) (w : W)
      → AreStores ss
      → ctx_err w ≡ none
      → t.unsupported ≡ 0
      → contains_from ctx_err id t (repos_of ss) w ≡ (w, ok (any_view ss id w))
  unfolding contains_from add
  contains_from-view [] id t w s c u = ground (arith, c, miss_supported (ok false) t u)
  contains_from-view ((repo, view) ∷ ss) id t w (s, l, ls, rest) c u = ground (
    arith,
    c,
    s.contains_view id w c,
    contains_from-view ss id (record t { invoked = suc t.invoked }) w rest c u,
  )

  delete_from-leaves :
      (ss : Stores W R V) (view : View W) (id j : ObjectId) (d : Bool) (t : LookupTally) (w : W)
      → AreStores ss
      → AllLeave ss view
      → ctx_err w ≡ none
      → view j (delete_from ctx_err id d t (repos_of ss) w).0 ≡ view j w
  unfolding delete_from
  delete_from-leaves [] view id j d t w s a c = refl
  delete_from-leaves ((repo, v) ∷ ss) view id j d t w (s, l, ls, rest) (a, as') c =
      let (w', r) = repo.delete id w in
      let (c', gone, found) = s.delete_view id w c in
      ground (
        arith,
        c,
        a id j w c,
        delete_from-leaves ss view id j (d || not (is_some (error_of r))) (add (error_of r) t) w'
            rest as' c',
      )

  delete_from-view :
      (ss : Stores W R V) (id : ObjectId) (d : Bool) (t : LookupTally) (w : W)
      → AreStores ss
      → ctx_err w ≡ none
      → t.unsupported ≡ 0
      → let (w', r) = delete_from ctx_err id d t (repos_of ss) w in
        (ctx_err w' ≡ none)
        × (any_view ss id w' ≡ false)
        × (r ≡ (if d || any_view ss id w then ok tt else err not_found))
  unfolding delete_from add is_unsupported
  delete_from-view [] id d t w s c u =
      (c, refl, ground (arith, c, miss_supported {A = Unit} (err not_found) t u))
  delete_from-view ((repo, view) ∷ ss) id d t w (s, l, ls, rest) c u =
      let (w1, r1) = repo.delete id w in
      let (c1, gone, found) = s.delete_view id w c in
      let d1 = d || not (is_some (error_of r1)) in
      let t1 = add (error_of r1) t in
      let (c2, gone2, found2) =
        delete_from-view ss id d1 t1 w1 rest c1 (ground (arith, found, u)) in
      (
        ground (arith, c, c2),
        ground (arith, c, gone, gone2, delete_from-leaves ss view id id d1 t1 w1 rest l c1),
        ground (arith, c, found, found2, any_view-left repo ss id w ls c),
      )

  -- A group of stores that do not share objects is a store, of the objects that some member holds, and
  -- its Delete leaves alone what every member's Delete leaves alone.
  pub new_repo_group-IsStore :
      (ss : Stores W R V)
      → AreStores ss
      → IsStore (new_repo_group ctx_err (repos_of ss)) (any_view ss)
        × ((view : View W) → AllLeave ss view → Leaves (new_repo_group ctx_err (repos_of ss)) view)
  unfolding new_repo_group contains delete
  new_repo_group-IsStore ss s = (
    record {
      contains_view = λ id w c. contains_from-view ss id new_tally w s c refl;
      delete_view = λ id w c. delete_from-view ss id false new_tally w s c refl;
    },
    λ view a id j w c. delete_from-leaves ss view id j false new_tally w s a c,
  )
