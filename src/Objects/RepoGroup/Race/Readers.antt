-- ===== src/Objects/RepoGroup/Race/Readers.antt =====
-- No reader is leaked by a concurrent read.
use astrald.Prelude.{
  ℕ, zero, suc, ◌+◌, ◌≡◌, refl, ap, ◌⊎◌, inl, inr, ◌∙◌, arith, true, Option, none, some, is_some,
  Option-cases, List, [], ◌∷◌, ◌++◌, append-nil, append_assoc, length, length-append, if◌then◌else◌,
}
use astrald.Objects.{ℤ, ObjectId, Error, not_found, Result, ok, err, Repo}
use astrald.Objects.RepoGroup.{LookupTally, miss_err}
use astrald.Objects.RepoGroup.Race.{
  Race, Event, answers, receives, sees_end, misses, closes, elapses, pick, hits, read_concurrent,
  sends, receive, close_readers, step, run, sent,
}

-- The reader that the call returned.
abbrev pub returned : {R : Type 0} → Option (Result R) → List R
returned none = []
returned (some (ok reader)) = reader ∷ []
returned (some (err e)) = []

hits-append : {R : Type 0} (rs qs : List (Result R)) → hits (rs ++ qs) ≡ hits rs ++ hits qs
hits-append [] qs = refl
hits-append (ok x ∷ rs) qs = ap (◌∷◌ x) (hits-append rs qs)
hits-append (err e ∷ rs) qs = hits-append rs qs

pub List-cases : {A : Type 0} (xs : List A) → (xs ≡ []) ⊎ ((x : A) × (ys : List A) × (xs ≡ x ∷ ys))
List-cases [] = inl refl
List-cases (x ∷ xs) = inr (x, xs, refl)

pub length_none : {A : Type 0} (xs : List A) → length xs ≡ 0 → xs ≡ []
length_none [] e = refl
length_none (x ∷ xs) e = ground (arith, e)

length-pick :
    {A : Type 0} (i : ℕ) (xs : List A) (x : A) (ys : List A)
    → pick i xs ≡ some (x, ys)
    → length xs ≡ suc (length ys)
unfolding pick
length-pick i [] x ys e = ground (arith, e)
length-pick zero (z ∷ xs) x ys e = ground (arith, e)
length-pick (suc i) (z ∷ xs) x ys e = elim (Option-cases (pick i xs)) [
  | inl n ↦ ground (arith, n, e)
  | inr ((y, zs), n) ↦ ground (arith, n, e, length-pick i xs y zs n)
]

miss_err-returned :
    {R : Type 0} (c : Option Error) (e : Error) (t : LookupTally)
    → returned {R = R} (some (miss_err c (err e) t)) ≡ []
unfolding miss_err
miss_err-returned (some d) e t = refl
miss_err-returned none e t = ground arith

module _ {W R V : Type 0} where
  -- Every reader that was opened is returned, closed or still in the channel, in this order, and as
  -- many answers are awaited as are still to come.
  abbrev pub IsKept : List R → Race W R V → Type 0
  IsKept opened s =
      (opened ≡ returned s.outcome ++ (s.closed ++ hits s.results))
      × ((if is_some s.outcome then s.closing else s.pending) ≡ length s.results + length s.running)
      × (s.outcome ≡ none → (s.closed ≡ []) × (s.closing ≡ 0))

  receive-IsKept :
      (h : List R) (s : Race W R V) (rs : List (Result R))
      → s.results ≡ rs
      → s.outcome ≡ none
      → IsKept h s
      → IsKept h (receive s)
  unfolding receive
  receive-IsKept h s [] e o (k, a, i) = ground (arith, e, o, k, a, i o)
  receive-IsKept h s (ok x ∷ rs) e o (k, a, i) = ground (arith, e, o, k, a, i o)
  receive-IsKept h s (err d ∷ rs) e o (k, a, i) = ground (arith, e, o, k, a, i o)

  close_readers-IsKept :
      (h : List R) (s : Race W R V) (rs : List (Result R))
      → s.results ≡ rs
      → is_some s.outcome ≡ true
      → IsKept h s
      → IsKept h (close_readers s)
  unfolding close_readers
  close_readers-IsKept h s [] e o (k, a, i) = ground (arith, e, o, k, a)
  close_readers-IsKept h s (ok x ∷ rs) e o (k, a, i) =
      ground (arith, e, o, k, a, append_assoc s.closed (x ∷ []) (hits rs))
  close_readers-IsKept h s (err d ∷ rs) e o (k, a, i) =
      ground (arith, e, o, k, a, append-nil s.closed)

module _ {W R V : Type 0} (ctx_err : W → Option Error) (id : ObjectId) (offset limit : ℤ) where
  pub step-IsKept :
      (e : Event W) (h : List R) (s : Race W R V)
      → IsKept h s
      → IsKept (h ++ hits (sends ctx_err id offset limit e s)) (step ctx_err id offset limit e s)
  unfolding step sends
  step-IsKept (answers j) h s (k, a, i) = elim (Option-cases (pick j s.running)) [
    | inl n ↦ ground (arith, n, append-nil h, k, a, i)
    | inr ((repo, rest), n) ↦
        let r = (repo.read id offset limit s.world).1 in
        ground (
          arith,
          n,
          k,
          a,
          i,
          length-pick j s.running repo rest n,
          length-append s.results (r ∷ []),
          hits-append s.results (r ∷ []),
          append_assoc s.closed (hits s.results) (hits (r ∷ [])),
          append_assoc (returned s.outcome) (s.closed ++ hits s.results) (hits (r ∷ [])),
        )
  ]
  step-IsKept receives h s (k, a, i) =
      ground (arith, append-nil h, k, a, receive-IsKept h s s.results refl)
  step-IsKept sees_end h s (k, a, i) = ground (arith, append-nil h, k, a, i)
  step-IsKept misses h s (k, a, i) =
      ground (
        arith,
        append-nil h,
        k,
        a,
        i,
        miss_err-returned {R = R} (ctx_err s.world) not_found s.tally,
      )
  step-IsKept closes h s (k, a, i) =
      ground (arith, append-nil h, k, a, i, close_readers-IsKept h s s.results refl)
  step-IsKept (elapses f) h s (k, a, i) = ground (arith, append-nil h, k, a, i)

  run-IsKept :
      (es : List (Event W)) (h : List R) (s : Race W R V)
      → IsKept h s
      → IsKept (h ++ hits (sent ctx_err id offset limit es s)) (run ctx_err id offset limit es s)
  unfolding run sent
  run-IsKept [] h s (k, a, i) = (append-nil h ∙ k, a, i)
  run-IsKept (e ∷ es) h s k =
      let s' = step ctx_err id offset limit e s in
      let now = sends ctx_err id offset limit e s in
      let later = sent ctx_err id offset limit es s' in
      let (k', a, i) = run-IsKept es (h ++ hits now) s' (step-IsKept e h s k) in
      (cc (k', hits-append now later, append_assoc h (hits now) (hits later)), a, i)

  pub read_concurrent-IsKept :
      (repos : List (Repo W R V)) (w : W)
      → IsKept [] (read_concurrent ctx_err id offset limit repos w)
  unfolding read_concurrent
  read_concurrent-IsKept repos w = ground arith

  -- In a concurrent read, whatever the order in which the workers, the collector, the closer and the
  -- context's end come: the readers that the members have opened are, in the order of the channel,
  -- the one that the call returned, those that the closer closed, and those still in the channel. As
  -- many answers are awaited, by the collector until the call returns and by the closer from then on,
  -- as are in the channel or still to be sent. So when the call has returned and the closer is
  -- done, every member has answered and all readers but the returned one are closed.
  pub race_readers :
      (repos : List (Repo W R V)) (w : W) (es : List (Event W))
      → let s0 = read_concurrent ctx_err id offset limit repos w in
        let s = run ctx_err id offset limit es s0 in
        let opened = hits (sent ctx_err id offset limit es s0) in
        (opened ≡ returned s.outcome ++ (s.closed ++ hits s.results))
        × ((if is_some s.outcome then s.closing else s.pending)
            ≡ length s.results + length s.running)
        × (is_some s.outcome ≡ true
            → s.closing ≡ 0
            → (s.running ≡ []) × (opened ≡ returned s.outcome ++ s.closed))
  race_readers repos w es =
      let s = run ctx_err id offset limit es (read_concurrent ctx_err id offset limit repos w) in
      let (k, a, i) =
        run-IsKept es [] (read_concurrent ctx_err id offset limit repos w)
          (read_concurrent-IsKept repos w) in
      (
        k,
        a,
        λ o c.
            let empty = length_none s.results (ground (arith, o, c, a)) in
            (length_none s.running (ground (arith, o, c, a)), cc (k, empty, append-nil s.closed)),
      )
