-- ===== src/Objects/RepoGroup/Answers.antt =====
-- What Contains, Read and Delete of a group make of its members' answers.
use astrald.Prelude.{
  ℕ, suc, ◌+◌, ◌≤◌, ◌≡◌, refl, arith, ◌==◌, ◌&&◌, ◌||◌, not, is_some, is_nil, length, Bool, true,
  false, Option, none, some, List, [], ◌∷◌, if◌then◌else◌,
}
use astrald.Objects.{ℤ, ObjectId, Error, not_found, hash_lookup_unsupported, Result, ok, err, Repo}
use astrald.Objects.RepoGroup.{
  LookupTally, is_unsupported, new_tally, add, miss_err, error_of, contains_from, read_seq_from,
  delete_from, contains, read_seq, delete,
}

-- An answer that no member can give who looks objects up by hash.
abbrev pub cannot : {A : Type 0} → Result A → Bool
cannot (ok a) = false
cannot (err e) = is_unsupported e

abbrev pub is_ok : {A : Type 0} → Result A → Bool
is_ok (ok a) = true
is_ok (err e) = false

abbrev pub has : Result Bool → Bool
has (ok b) = b
has (err e) = false

abbrev pub never : {A : Type 0} → Result A → Bool
never r = false

module _ {A : Type 0} where
  abbrev pub first : (Result A → Bool) → List (Result A) → Option (Result A)
  first hit [] = none
  first hit (r ∷ rs) = if hit r then some r else first hit rs

  abbrev pub all_cannot : List (Result A) → Bool
  all_cannot [] = true
  all_cannot (r ∷ rs) = cannot r && all_cannot rs

  -- The answer of a group by those of the members that it asked: the first hit; without one the
  -- error of the context; if that goes on, that the group cannot look up by hash, when it asked a
  -- member and none of those it asked can; and else the miss.
  unfoldable pub verdict : (Result A → Bool) → Result A → Option Error → List (Result A) → Result A
  verdict hit miss ctx rs = elim (first hit rs) [
    | some r ↦ r
    | none ↦ elim ctx [
      | some e ↦ err e
      | none ↦ if not (is_nil rs) && all_cannot rs then err hash_lookup_unsupported else miss
    ]
  ]

  unfoldable pub add_all : List (Result A) → LookupTally → LookupTally
  add_all [] t = t
  add_all (r ∷ rs) t = add_all rs (add (error_of r) t)

  unfoldable count : List (Result A) → ℕ
  count [] = 0
  count (r ∷ rs) = if cannot r then suc (count rs) else count rs

  add_all-invoked :
      (rs : List (Result A)) (t : LookupTally) → (add_all rs t).invoked ≡ t.invoked + length rs
  unfolding add_all add
  add_all-invoked [] t = omega arith
  add_all-invoked (ok a ∷ rs) t = ground (arith, add_all-invoked rs (add none t))
  add_all-invoked (err e ∷ rs) t = ground (arith, add_all-invoked rs (add (some e) t))

  add_all-unsupported :
      (rs : List (Result A)) (t : LookupTally)
      → (add_all rs t).unsupported ≡ t.unsupported + count rs
  unfolding add_all add count
  add_all-unsupported [] t = omega arith
  add_all-unsupported (ok a ∷ rs) t = ground (arith, add_all-unsupported rs (add none t))
  add_all-unsupported (err e ∷ rs) t = ground (arith, add_all-unsupported rs (add (some e) t))

  count-bound : (rs : List (Result A)) → count rs ≤ length rs
  unfolding count
  count-bound [] = omega arith
  count-bound (r ∷ rs) = ground (arith, count-bound rs)

  count-all : (rs : List (Result A)) → (count rs == length rs) ≡ all_cannot rs
  unfolding count
  count-all [] = ground arith
  count-all (r ∷ rs) = ground (arith, count-all rs, count-bound rs)

  -- The tally of some answers decides as the answers do.
  pub miss_err-tally :
      (ctx : Option Error) (miss : Result A) (rs : List (Result A))
      → miss_err ctx miss (add_all rs new_tally) ≡ (elim ctx [
        | some e ↦ err e
        | none ↦ if not (is_nil rs) && all_cannot rs then err hash_lookup_unsupported else miss
      ])
  unfolding miss_err
  miss_err-tally (some e) miss rs = refl
  miss_err-tally none miss [] = ground (arith, add_all-invoked [] new_tally)
  miss_err-tally none miss (r ∷ rs) = ground (
    arith,
    add_all-invoked (r ∷ rs) new_tally,
    add_all-unsupported (r ∷ rs) new_tally,
    count-all (r ∷ rs),
  )

first_ok :
    (rs : List (Result Unit)) (x : Result Unit)
    → elim (first is_ok rs) [ some r ↦ r | none ↦ x ]
      ≡ (if is_some (first is_ok rs) then ok tt else x)
first_ok [] x = refl
first_ok (ok u ∷ rs) x = refl
first_ok (err e ∷ rs) x = first_ok rs x

first-never : {A : Type 0} (rs : List (Result A)) → first never rs ≡ none
first-never [] = refl
first-never (r ∷ rs) = first-never rs

module _ {W R V : Type 0} (ctx_err : W → Option Error) where
  -- The answers of the members that are asked in order, while the context goes on, up to the first
  -- answer that stops the search.
  unfoldable pub asks :
      {A : Type 0}
      → (Repo W R V → W → W × Result A)
      → (Result A → Bool)
      → List (Repo W R V)
      → W
      → W × List (Result A)
  asks call stop [] w = (w, [])
  asks call stop (repo ∷ repos) w =
      let (w', r) = call repo w in
      let (w'', rs) = asks call stop repos w' in
      if is_some (ctx_err w) then (w, []) else if stop r then (w', r ∷ []) else (w'', r ∷ rs)

  contains_from-asks :
      (id : ObjectId) (t : LookupTally) (repos : List (Repo W R V)) (w : W)
      → let (w', rs) = asks (λ m. m.contains id) has repos w in
        contains_from ctx_err id t repos w ≡ (
          w',
          elim (first has rs) [
            | some r ↦ r
            | none ↦ miss_err (ctx_err w') (ok false) (add_all rs t)
          ],
        )
  unfolding contains_from asks add_all
  contains_from-asks id t [] w = refl
  contains_from-asks id t (repo ∷ repos) w = ground (
    arith,
    contains_from-asks id (add (error_of (repo.contains id w).1) t) repos (repo.contains id w).0,
  )

  read_seq_from-asks :
      (id : ObjectId) (o l : ℤ) (t : LookupTally) (repos : List (Repo W R V)) (w : W)
      → let (w', rs) = asks (λ m. m.read id o l) is_ok repos w in
        read_seq_from ctx_err id o l t repos w ≡ (
          w',
          elim (first is_ok rs) [
            | some r ↦ r
            | none ↦ miss_err (ctx_err w') (err not_found) (add_all rs t)
          ],
        )
  unfolding read_seq_from asks add_all
  read_seq_from-asks id o l t [] w = refl
  read_seq_from-asks id o l t (repo ∷ repos) w = ground (
    arith,
    read_seq_from-asks id o l (add (error_of (repo.read id o l w).1) t) repos
        (repo.read id o l w).0,
  )

  delete_from-asks :
      (id : ObjectId) (d : Bool) (t : LookupTally) (repos : List (Repo W R V)) (w : W)
      → let (w', rs) = asks (λ m. m.delete id) never repos w in
        delete_from ctx_err id d t repos w ≡ (
          w',
          if d || is_some (first is_ok rs)
              then ok tt
              else miss_err (ctx_err w') (err not_found) (add_all rs t),
        )
  unfolding delete_from asks add_all
  delete_from-asks id d t [] w = ground arith
  delete_from-asks id d t (repo ∷ repos) w =
      let (w', r) = repo.delete id w in
      ground
        (arith, delete_from-asks id (d || not (is_some (error_of r))) (add (error_of r) t) repos w')

  asks_all :
      {A : Type 0} (call : Repo W R V → W → W × Result A) (hit stop : Result A → Bool)
      (repos : List (Repo W R V)) (w : W)
      → ((r : Result A) → stop r ≡ true → hit r ≡ true)
      → let (w', rs) = asks call stop repos w in
        first hit rs ≡ none → ctx_err w' ≡ none → length rs ≡ length repos
  unfolding asks
  asks_all call hit stop [] w sub f e = refl
  asks_all call hit stop (repo ∷ repos) w sub f e =
      let (w', r) = call repo w in ground (arith, f, e, sub r, asks_all call hit stop repos w' sub)

  -- Contains, Read of a group that is not concurrent and Delete ask the members in order while the
  -- context goes on, the first two up to the first hit, and answer what the verdict makes of these
  -- members' answers; without a hit they ask every member unless the context ends.
  pub lookup_answers :
      (id : ObjectId) (o l : ℤ) (repos : List (Repo W R V)) (w : W)
      → (let (w', rs) = asks (λ m. m.contains id) has repos w in
          (contains ctx_err id repos w ≡ (w', verdict has (ok false) (ctx_err w') rs))
          × (first has rs ≡ none → ctx_err w' ≡ none → length rs ≡ length repos))
        × (let (w', rs) = asks (λ m. m.read id o l) is_ok repos w in
            (read_seq ctx_err id o l repos w ≡ (w', verdict is_ok (err not_found) (ctx_err w') rs))
            × (first is_ok rs ≡ none → ctx_err w' ≡ none → length rs ≡ length repos))
        × (let (w', rs) = asks (λ m. m.delete id) never repos w in
            (delete ctx_err id repos w ≡ (w', verdict is_ok (err not_found) (ctx_err w') rs))
            × (ctx_err w' ≡ none → length rs ≡ length repos))
  unfolding contains read_seq delete verdict
  lookup_answers id o l repos w =
      let (w1, rs1) = asks (λ m. m.contains id) has repos w in
      let (w2, rs2) = asks (λ m. m.read id o l) is_ok repos w in
      let (w3, rs3) = asks (λ m. m.delete id) never repos w in
      (
        (
          ground (
            arith,
            contains_from-asks id new_tally repos w,
            miss_err-tally (ctx_err w1) (ok false) rs1,
          ),
          asks_all (λ m. m.contains id) has has repos w (λ r h. h),
        ),
        (
          ground (
            arith,
            read_seq_from-asks id o l new_tally repos w,
            miss_err-tally (ctx_err w2) (err not_found) rs2,
          ),
          asks_all (λ m. m.read id o l) is_ok is_ok repos w (λ r h. h),
        ),
        (
          ground (
            arith,
            delete_from-asks id false new_tally repos w,
            miss_err-tally (ctx_err w3) (err not_found) rs3,
            first_ok rs3 (miss_err (ctx_err w3) (err not_found) (add_all rs3 new_tally)),
          ),
          asks_all (λ m. m.delete id) never never repos w (λ r h. h) (first-never rs3),
        ),
      )
