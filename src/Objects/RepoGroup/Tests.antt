-- ===== src/Objects/RepoGroup/Tests.antt =====
-- A group of two repositories in memory, whose world holds both and the error of the context.
use astrald.Prelude.{
  ℕ, ◌≡◌, refl, ◌⊎◌, true, false, Option, none, some, is_some, List, [], ◌∷◌, ◌++◌, length, sum,
  if◌then◌else◌, ◌+◌,
}
use astrald.Objects.{pos, ObjectId, Error, not_found, canceled, Result, ok, err, Repo}
use astrald.Objects.Memory
use astrald.Objects.Memory.{Repository, Writer}
use astrald.Objects.Tests.{slot_map}
use astrald.Objects.RepoGroup.{new_repo_group, contains, read_seq, delete}
use astrald.Objects.Memory.Lookup.{contains-delete}
use astrald.Objects.RepoGroup.Stores.{
  View, Stores, any_view, IsStore, Leaves, AllLeave, AreStores, new_repo_group-IsStore,
}
use astrald.Objects.RepoGroup.Answers.{asks, has, is_ok, never, first, verdict, lookup_answers}
use astrald.Objects.RepoGroup.Race.{
  Event, answers, receives, closes, sees_end, elapses, hits, read_concurrent, pick, close_readers,
  step, run, sent,
}
use astrald.Objects.RepoGroup.Race.Readers.{returned, race_readers}
use astrald.Objects.RepoGroup.Race.Winner.{race_winner}

record World : Type 0 where
  ended : Option Error
  left : Repository slot_map
  right : Repository slot_map

abbrev ctx_err : World → Option Error
ctx_err w = w.ended

-- A repository in memory that stands at a place of the world.
abbrev memory_repo :
    (World → Repository slot_map)
    → (Repository slot_map → World → World)
    → Repo World (List ℕ) Writer
memory_repo here put = record {
  create = λ alloc w. (w, Memory.create slot_map alloc (here w));
  contains = λ id w. (w, ok (Memory.contains slot_map id (here w)));
  delete = λ id w. let (r, res) = Memory.delete slot_map id (here w) in (put r w, res);
  read = λ id o l w. (w, Memory.read slot_map true id o l (here w));
  free = λ w. (w, ok (pos (Memory.free slot_map (here w))));
}

abbrev group : List (Repo World (List ℕ) Writer)
group =
    memory_repo (λ w. w.left) (λ r w. record w { left = r })
    ∷ memory_repo (λ w. w.right) (λ r w. record w { right = r })
    ∷ []

abbrev stored : Repository slot_map
stored =
    (Memory.commit slot_map sum (record { closed = false; buf = 1 ∷ 2 ∷ [] })
      (Memory.new slot_map 8)).1

abbrev world : World
world = record { ended = none; left = Memory.new slot_map 8; right = stored }

abbrev both : World
both = record { ended = none; left = stored; right = stored }

abbrev partial_id : ObjectId
partial_id = record { size = 0; hash = 3 }

lookup_answers_example :
    (let (w', rs) = asks ctx_err (λ m. m.contains partial_id) has group world in
      (contains ctx_err partial_id group world ≡ (w', verdict has (ok false) (ctx_err w') rs))
      × (first has rs ≡ none → ctx_err w' ≡ none → length rs ≡ 2))
    × (let (w', rs) = asks ctx_err (λ m. m.read partial_id (pos 0) (pos 0)) is_ok group world in
        (read_seq ctx_err partial_id (pos 0) (pos 0) group world
          ≡ (w', verdict is_ok (err not_found) (ctx_err w') rs))
        × (first is_ok rs ≡ none → ctx_err w' ≡ none → length rs ≡ 2))
    × (let (w', rs) = asks ctx_err (λ m. m.delete partial_id) never group world in
        (delete ctx_err partial_id group world
          ≡ (w', verdict is_ok (err not_found) (ctx_err w') rs))
        × (ctx_err w' ≡ none → length rs ≡ 2))
lookup_answers_example = lookup_answers ctx_err partial_id (pos 0) (pos 0) group world

-- The second member answers first, and the first one when the call has returned.
abbrev schedule : List (Event World)
schedule =
    answers 1
    ∷ receives
    ∷ elapses (λ w. record w { ended = some canceled })
    ∷ answers 0
    ∷ closes
    ∷ []

-- The context ends before a member answers.
abbrev ending : List (Event World)
ending = elapses (λ w. record w { ended = some canceled }) ∷ sees_end ∷ answers 0 ∷ closes ∷ []

ending_canceled :
    (run ctx_err partial_id
      (pos 0)
      (pos 0)
      ending
      (read_concurrent ctx_err partial_id (pos 0) (pos 0) group both)).outcome
    ≡ some (err canceled)
unfolding run read_concurrent step pick close_readers
ending_canceled = refl

race_readers_example :
    let s0 = read_concurrent ctx_err partial_id (pos 0) (pos 0) group both in
    let s = run ctx_err partial_id (pos 0) (pos 0) schedule s0 in
    let opened = hits (sent ctx_err partial_id (pos 0) (pos 0) schedule s0) in
    (opened ≡ returned s.outcome ++ (s.closed ++ hits s.results))
    × ((if is_some s.outcome then s.closing else s.pending) ≡ length s.results + length s.running)
    × (is_some s.outcome ≡ true
        → s.closing ≡ 0
        → (s.running ≡ []) × (opened ≡ returned s.outcome ++ s.closed))
race_readers_example = race_readers ctx_err partial_id (pos 0) (pos 0) group both schedule

race_winner_example :
    let s0 = read_concurrent ctx_err partial_id (pos 0) (pos 0) group both in
    let s = run ctx_err partial_id (pos 0) (pos 0) ending s0 in
    let log = sent ctx_err partial_id (pos 0) (pos 0) ending s0 in
    ((x : List ℕ) × (err canceled ≡ ok x) × (first is_ok log ≡ some (ok x)))
    ⊎ ((d : Error) × ((◌≡◌ {A = Result (List ℕ)}) (err canceled) (err d))
        × (((es1 es2 : List (Event World)) × (ending ≡ es1 ++ es2)
              × (ctx_err (run ctx_err partial_id (pos 0) (pos 0) es1 s0).world ≡ some d))
            ⊎ ((s.running ≡ []) × (err d ≡ verdict is_ok (err not_found) none log))))
race_winner_example =
    race_winner ctx_err partial_id (pos 0) (pos 0) group both ending (err canceled) ending_canceled

abbrev left_view : View World
left_view id w = Memory.contains slot_map id w.left

abbrev right_view : View World
right_view id w = Memory.contains slot_map id w.right

abbrev stores : Stores World (List ℕ) Writer
stores =
    (memory_repo (λ w. w.left) (λ r w. record w { left = r }), left_view)
    ∷ (memory_repo (λ w. w.right) (λ r w. record w { right = r }), right_view)
    ∷ []

stores-AreStores : AreStores ctx_err stores
stores-AreStores = (
  record {
    contains_view = λ id w c. refl;
    delete_view =
        λ id w c. let (gone, found) = contains-delete slot_map id w.left in (c, gone, found);
  },
  ((λ id j w c. refl), tt),
  ((λ id j w c. refl), tt),
  (
    record {
      contains_view = λ id w c. refl;
      delete_view =
          λ id w c. let (gone, found) = contains-delete slot_map id w.right in (c, gone, found);
    },
    tt,
    tt,
    tt,
  ),
)

new_repo_group-IsStore_example :
    IsStore ctx_err (new_repo_group ctx_err group) (any_view stores)
    × ((view : View World)
        → AllLeave ctx_err stores view
        → Leaves ctx_err (new_repo_group ctx_err group) view)
new_repo_group-IsStore_example = new_repo_group-IsStore ctx_err stores stores-AreStores
