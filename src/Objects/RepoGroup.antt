-- ===== src/Objects/RepoGroup.antt =====
-- mod/objects/src/repo_group.go: a group of repositories, itself a repository. The context of a call
-- is part of the world that the members run in: ctx_err is its Err. The
-- members are looked up before a loop over them. A race of the members for a read is in Race.
pub mod Answers
pub mod Stores
mod Tests
pub mod Race
use astrald.Prelude.{
  ℕ, suc, ◌+◌, ◌-◌, ◌%◌, ◌^◌, ◌≡◌, ◌==◌, ltb, ◌&&◌, ◌||◌, not, is_some, Bool, true, false, Option,
  none, some, List, [], ◌∷◌, ◌++◌, if◌then◌else◌,
}
use astrald.Objects.{
  ℤ, pos, negsuc, ObjectId, Error, not_found, hash_lookup_unsupported, group_empty, joined, Result,
  ok, err, Repo,
}

-- lookupTally
pub record LookupTally : Type 0 where
  pub invoked : ℕ
  pub unsupported : ℕ

-- errors.Is(err, ErrHashLookupUnsupported)
unfoldable pub is_unsupported : Error → Bool
is_unsupported hash_lookup_unsupported = true
is_unsupported (joined e f) = is_unsupported e || is_unsupported f
is_unsupported _ = false

-- errors.Join of one error and more.
unfoldable pub join_errors : Error → List Error → Error
join_errors e [] = e
join_errors e (f ∷ fs) = joined e (join_errors f fs)

abbrev pub new_tally : LookupTally
new_tally = record { invoked = 0; unsupported = 0 }

-- lookupTally.add; none is a nil error.
unfoldable pub add : Option Error → LookupTally → LookupTally
add none t = record t { invoked = suc t.invoked }
add (some e) t =
    if is_unsupported e
    then record { invoked = suc t.invoked; unsupported = suc t.unsupported }
    else record t { invoked = suc t.invoked }

-- lookupTally.missErr: the context's error, or the group cannot look up by hash, or the miss.
unfoldable pub miss_err : {A : Type 0} → Option Error → Result A → LookupTally → Result A
miss_err (some e) miss t = err e
miss_err none miss t =
    if ltb 0 t.invoked && (t.unsupported == t.invoked) then err hash_lookup_unsupported else miss

abbrev pub error_of : {A : Type 0} → Result A → Option Error
error_of (ok a) = none
error_of (err e) = some e

abbrev int64 : ℕ → ℤ
int64 n = if ltb n (2 ^ 63) then pos n else negsuc (2 ^ 64 - suc n)

module _ {W R V : Type 0} where
  -- members; get_repository is GetRepository of the module.
  unfoldable pub members : (ℕ → Option (Repo W R V)) → List ℕ → List (Repo W R V)
  members get_repository [] = []
  members get_repository (name ∷ names) =
      let rest = members get_repository names in
      elim (get_repository name) [ none ↦ rest | some repo ↦ repo ∷ rest ]

  -- Create, with the errors of the members before.
  unfoldable pub create_from : Option ℕ → List Error → List (Repo W R V) → W → W × Result V
  create_from alloc [] [] w = (w, err group_empty)
  create_from alloc (e ∷ errs) [] w = (w, err (join_errors e errs))
  create_from alloc errs (repo ∷ repos) w =
      let (w', r) = repo.create alloc w in
      elim r [ ok v ↦ (w', ok v) | err e ↦ create_from alloc (errs ++ (e ∷ [])) repos w' ]

  -- Free: the 64 bits of the total. An answer below 0 is not counted.
  unfoldable pub free_from : ℕ → List (Repo W R V) → W → W × Result ℕ
  free_from total [] w = (w, ok total)
  free_from total (repo ∷ repos) w =
      let (w', r) = repo.free w in
      elim r [
        | err e ↦ (w', err e)
        | ok (negsuc n) ↦ free_from total repos w'
        | ok (pos n) ↦ free_from ((total + n) % 2 ^ 64) repos w'
      ]

  module _ (ctx_err : W → Option Error) where
    -- The loop of Contains.
    unfoldable pub contains_from : ObjectId → LookupTally → List (Repo W R V) → W → W × Result Bool
    contains_from id t [] w = (w, miss_err (ctx_err w) (ok false) t)
    contains_from id t (repo ∷ repos) w =
        let (w', r) = repo.contains id w in
        let rest = contains_from id (add (error_of r) t) repos w' in
        if is_some (ctx_err w)
        then (w, miss_err (ctx_err w) (ok false) t)
        else elim r [ ok true ↦ (w', ok true) | _ ↦ rest ]

    -- The loop of readSeq.
    unfoldable pub read_seq_from :
        ObjectId → ℤ → ℤ → LookupTally → List (Repo W R V) → W → W × Result R
    read_seq_from id offset limit t [] w = (w, miss_err (ctx_err w) (err not_found) t)
    read_seq_from id offset limit t (repo ∷ repos) w =
        let (w', r) = repo.read id offset limit w in
        let rest = read_seq_from id offset limit (add (error_of r) t) repos w' in
        if is_some (ctx_err w)
        then (w, miss_err (ctx_err w) (err not_found) t)
        else elim r [ ok reader ↦ (w', ok reader) | err e ↦ rest ]

    -- The loop of Delete and what follows it.
    unfoldable pub delete_from :
        ObjectId → Bool → LookupTally → List (Repo W R V) → W → W × Result Unit
    delete_from id deleted t [] w =
        (w, if deleted then ok tt else miss_err (ctx_err w) (err not_found) t)
    delete_from id deleted t (repo ∷ repos) w =
        let (w', r) = repo.delete id w in
        let rest =
          delete_from id (deleted || not (is_some (error_of r))) (add (error_of r) t) repos w' in
        if is_some (ctx_err w)
        then (w, if deleted then ok tt else miss_err (ctx_err w) (err not_found) t)
        else rest

    unfoldable pub create : Option ℕ → List (Repo W R V) → W → W × Result V
    create alloc repos w = create_from alloc [] repos w

    unfoldable pub contains : ObjectId → List (Repo W R V) → W → W × Result Bool
    contains id repos w = contains_from id new_tally repos w

    unfoldable pub read_seq : ObjectId → ℤ → ℤ → List (Repo W R V) → W → W × Result R
    read_seq id offset limit repos w = read_seq_from id offset limit new_tally repos w

    unfoldable pub delete : ObjectId → List (Repo W R V) → W → W × Result Unit
    delete id repos w = delete_from id false new_tally repos w

    -- The group as a repository, one that is not concurrent. A total of 2 ^ 63 or more is below 0 as
    -- an int64.
    unfoldable pub new_repo_group : List (Repo W R V) → Repo W R V
    new_repo_group repos = record {
      create = λ alloc w. create alloc repos w;
      contains = λ id w. contains id repos w;
      delete = λ id w. delete id repos w;
      read = λ id offset limit w. read_seq id offset limit repos w;
      free = λ w.
          let (w', r) = free_from 0 repos w in
          (w', elim r [ ok total ↦ ok (int64 total) | err e ↦ err e ]);
    }
