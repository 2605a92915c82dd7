-- ===== src/Objects/RepoGroup/Race.antt =====
-- readConcurrent and closeReaders of repo_group.go: a worker for each member, the collector that
-- returns, and the closer that it leaves behind, in any order. A step is a point at which they meet.
pub mod Readers
pub mod Winner
use astrald.Prelude.{
  ℕ, zero, suc, ◌-◌, ltb, ◌==◌, ◌&&◌, Bool, true, false, Option, none, some, is_some, List, [], ◌∷◌,
  ◌++◌, length, if◌then◌else◌,
}
use astrald.Objects.{ℤ, ObjectId, Error, not_found, Result, ok, err, Repo}
use astrald.Objects.RepoGroup.{LookupTally, new_tally, add, miss_err}

-- A call in progress. `running` has the members whose workers have not sent an answer yet, `results`
-- is the channel, `closing` what is left of closeReaders' n, `closed` the readers that it closed.
pub record Race (W R V : Type 0) : Type 0 where
  pub world : W
  pub running : List (Repo W R V)
  pub results : List (Result R)
  pub pending : ℕ
  pub tally : LookupTally
  pub outcome : Option (Result R)
  pub closing : ℕ
  pub closed : List R

-- The i-th of the workers that are left sends its answer; the collector receives one; it sees that
-- the context ended; its loop is over; the closer receives an answer; the world goes on by itself,
-- as when a context ends.
pub data Event (W : Type 0) : Type 0 where
  answers : ℕ → Event W
  receives sees_end misses closes : Event W
  elapses : (W → W) → Event W

unfoldable pub pick {ℓ} : {A : Type ℓ} → ℕ → List A → Option (A × List A)
pick i [] = none
pick zero (x ∷ xs) = some (x, xs)
pick (suc i) (x ∷ xs) = elim (pick i xs) [ none ↦ none | some (y, ys) ↦ some (y, x ∷ ys) ]

-- The readers of the hits among some answers.
abbrev pub hits : {R : Type 0} → List (Result R) → List R
hits [] = []
hits (ok reader ∷ rs) = reader ∷ hits rs
hits (err e ∷ rs) = hits rs

module _ {W R V : Type 0} where
  -- The collector takes an answer.
  unfoldable pub receive : Race W R V → Race W R V
  receive s = elim s.results [
    | [] ↦ s
    | ok reader ∷ rest ↦ record s {
      results = rest;
      outcome = some (ok reader);
      closing = s.pending - 1;
    }
    | err e ∷ rest ↦ record s {
      results = rest;
      tally = add (some e) s.tally;
      pending = s.pending - 1;
    }
  ]

  -- A round of closeReaders.
  unfoldable pub close_readers : Race W R V → Race W R V
  close_readers s = elim s.results [
    | [] ↦ s
    | r ∷ rest ↦ record s {
      results = rest;
      closing = s.closing - 1;
      closed = s.closed ++ hits (r ∷ []);
    }
  ]

module _ {W R V : Type 0} (ctx_err : W → Option Error) (id : ObjectId) (offset limit : ℤ) where
  -- readConcurrent up to its loop.
  unfoldable pub read_concurrent : List (Repo W R V) → W → Race W R V
  read_concurrent repos w = elim (ctx_err w) [
    | some e ↦ record {
      world = w;
      running = [];
      results = [];
      pending = 0;
      tally = new_tally;
      outcome = some (err e);
      closing = 0;
      closed = [];
    }
    | none ↦ record {
      world = w;
      running = repos;
      results = [];
      pending = length repos;
      tally = new_tally;
      outcome = none;
      closing = 0;
      closed = [];
    }
  ]

  -- What a worker sends in a step.
  unfoldable pub sends : Event W → Race W R V → List (Result R)
  sends (answers i) s = elim (pick i s.running) [
    | none ↦ []
    | some (repo, rest) ↦ (repo.read id offset limit s.world).1 ∷ []
  ]
  sends _ s = []

  unfoldable pub step : Event W → Race W R V → Race W R V
  step (answers i) s = elim (pick i s.running) [
    | none ↦ s
    | some (repo, rest) ↦
        let (w', r) = repo.read id offset limit s.world in
        record s { world = w'; running = rest; results = s.results ++ (r ∷ []) }
  ]
  step receives s = if is_some s.outcome then s else if ltb 0 s.pending then receive s else s
  step sees_end s =
      if is_some s.outcome
      then s
      else if ltb 0 s.pending
      then (elim (ctx_err s.world) [
        | none ↦ s
        | some e ↦ record s { outcome = some (err e); closing = s.pending }
      ])
      else s
  step misses s =
      if is_some s.outcome
      then s
      else if s.pending == 0
      then record s { outcome = some (miss_err (ctx_err s.world) (err not_found) s.tally) }
      else s
  step closes s = if ltb 0 s.closing then close_readers s else s
  step (elapses f) s = record s { world = f s.world }

  unfoldable pub run : List (Event W) → Race W R V → Race W R V
  run [] s = s
  run (e ∷ es) s = run es (step e s)

  -- All answers that the workers send on the way, in the order of the channel.
  unfoldable pub sent : List (Event W) → Race W R V → List (Result R)
  sent [] s = []
  sent (e ∷ es) s = sends e s ++ sent es (step e s)
