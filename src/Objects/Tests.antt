-- ===== src/Objects/Tests.antt =====
-- A small repository in memory, over a map that is a list; a hash that adds the bytes up.
use astrald.Prelude.{
  ℕ, zero, suc, ◌+◌, ◌-◌, min, ◌≤◌, ◌<◌, ◌≡◌, refl, ◌⊎◌, arith, ◌==◌, not, Bool, true, false,
  Option, none, some, List, [], ◌∷◌, length, sum, is_some, if◌then◌else◌,
}
use astrald.Objects.{
  pos, negsuc, ObjectId, out_of_bounds, closed_pipe, ok, err, max_int64, resolve_read_limit,
}
use astrald.Objects.Memory.{ObjectMap, Writer, total, new, write, commit, find_object, read, id_of}
use astrald.Objects.Memory.Quota.{Call, IsBalanced, calls, calls-new-IsBalanced}
use astrald.Objects.Memory.Lookup.{commit_stores, resolve_read_limit_window}

abbrev Slots : Type 0
Slots = List (Option (List ℕ))

-- The value of a key stands at the key's place.
unfoldable pub get : ℕ → Slots → Option (List ℕ)
get j [] = none
get zero (x ∷ m) = x
get (suc j) (x ∷ m) = get j m

unfoldable pub put : ℕ → Option (List ℕ) → Slots → Slots
put zero o [] = o ∷ []
put (suc k) o [] = none ∷ put k o []
put zero o (x ∷ m) = o ∷ m
put (suc k) o (x ∷ m) = x ∷ put k o m

unfoldable pub values : Slots → List (List ℕ)
values [] = []
values (none ∷ m) = values m
values (some v ∷ m) = v ∷ values m

unfoldable pub set : ℕ → List ℕ → Slots → Slots × Bool
set k v m = if is_some (get k m) then (m, false) else (put k (some v) m, true)

abbrev size_of : Option (List ℕ) → ℕ
size_of none = 0
size_of (some v) = length v

get-put :
    (k : ℕ) (o : Option (List ℕ)) (m : Slots) (j : ℕ)
    → get j (put k o m) ≡ (if k == j then o else get j m)
unfolding get put
get-put zero o [] zero = ground arith
get-put zero o [] (suc j) = ground arith
get-put (suc k) o [] zero = ground arith
get-put (suc k) o [] (suc j) = ground (arith, get-put k o [] j)
get-put zero o (x ∷ m) zero = ground arith
get-put zero o (x ∷ m) (suc j) = ground arith
get-put (suc k) o (x ∷ m) zero = ground arith
get-put (suc k) o (x ∷ m) (suc j) = ground (arith, get-put k o m j)

total-put :
    (k : ℕ) (o : Option (List ℕ)) (m : Slots)
    → total (values (put k o m)) + size_of (get k m) ≡ size_of o + total (values m)
unfolding get put values
total-put zero none [] = ground arith
total-put zero (some v) [] = ground arith
total-put (suc k) o [] = ground (arith, total-put k o [])
total-put zero none (none ∷ m) = ground arith
total-put zero (some v) (none ∷ m) = ground arith
total-put zero none (some u ∷ m) = ground arith
total-put zero (some v) (some u ∷ m) = ground arith
total-put (suc k) o (none ∷ m) = ground (arith, total-put k o m)
total-put (suc k) o (some u ∷ m) = ground (arith, total-put k o m)

set_ok : (k : ℕ) (v : List ℕ) (m : Slots) → (set k v m).1 ≡ not (is_some (get k m))
unfolding set
set_ok k v m = ground arith

get-set :
    (k : ℕ) (v : List ℕ) (m : Slots) (j : ℕ)
    → get j (set k v m).0
      ≡ (if is_some (get k m) then get j m else if k == j then some v else get j m)
unfolding set
get-set k v m j = ground (arith, get-put k (some v) m j)

total-set :
    (k : ℕ) (v : List ℕ) (m : Slots)
    → total (values (set k v m).0)
      ≡ (if is_some (get k m) then total (values m) else length v + total (values m))
unfolding set
total-set k v m = ground (arith, total-put k (some v) m)

total-delete :
    (k : ℕ) (v : List ℕ) (m : Slots)
    → get k m ≡ some v
    → total (values (put k none m)) + length v ≡ total (values m)
total-delete k v m e = ground (arith, total-put k none m)

values-empty : values [] ≡ []
unfolding values
values-empty = refl

pub slot_map : ObjectMap
slot_map = record {
  Map = Slots;
  empty = [];
  get = get;
  set = set;
  delete = λ k m. (put k none m, get k m);
  values = values;
  values-empty = values-empty;
  set_ok = set_ok;
  get-set = get-set;
  total-set = total-set;
  get-delete = λ k m j. get-put k none m j;
  delete_value = λ k m. refl;
  total-delete = total-delete;
}

abbrev history : List Call
history =
    Call.creates none
    ∷ Call.writes 0 (1 ∷ 2 ∷ [])
    ∷ Call.commits 0
    ∷ Call.creates (some 3)
    ∷ Call.writes 0 (4 ∷ [])
    ∷ Call.deletes (record { size = 0; hash = 3 })
    ∷ []

calls-new-IsBalanced_example :
    IsBalanced slot_map sum
      (calls slot_map sum (record { repo = new slot_map 8; writers = [] }) history)
calls-new-IsBalanced_example = calls-new-IsBalanced slot_map sum 8 history

abbrev pair_writer : Writer
pair_writer = record { closed = false; buf = 1 ∷ 2 ∷ [] }

nothing_stored :
    (v : List ℕ)
    → slot_map.get (sum pair_writer.buf) (new slot_map 8).objects ≡ some v
    → v ≡ pair_writer.buf
unfolding slot_map new get
nothing_stored v e = cc e

commit_stores_example :
    let r = new slot_map 8 in
    let (w', r', res) = commit slot_map sum pair_writer r in
    (res ≡ ok (id_of sum pair_writer.buf))
    × (find_object slot_map (id_of sum pair_writer.buf) r'
        ≡ ok (id_of sum pair_writer.buf, pair_writer.buf))
    × (read slot_map true (id_of sum pair_writer.buf) (pos 0) (pos 0) r' ≡ ok pair_writer.buf)
    × (commit slot_map sum w' r' ≡ (w', r', err closed_pipe))
    × ((p : List ℕ) → write slot_map p w' r' ≡ (w', r', err closed_pipe))
commit_stores_example =
    commit_stores slot_map sum pair_writer (new slot_map 8) (omega arith) nothing_stored refl

resolve_read_limit_window_example :
    let id : ObjectId = record { size = 5; hash = 0 } in
    ((o : ℕ) × (l : ℕ) × (n : ℕ) × (pos 2 ≡ pos o)
      × (pos max_int64 ≡ pos l)
      × (5 ≤ max_int64)
      × (o + n ≤ 5)
      × (resolve_read_limit id (pos 2) (pos max_int64) ≡ ok n)
      × (((l ≡ 0) × (o + n ≡ 5)) ⊎ ((0 < l) × (n ≡ min l (5 - o)))))
    ⊎ ((resolve_read_limit id (pos 2) (pos max_int64) ≡ err out_of_bounds)
        × (((n : ℕ) × (pos 2 ≡ negsuc n))
            ⊎ ((n : ℕ) × (pos max_int64 ≡ negsuc n))
            ⊎ (max_int64 < 5)
            ⊎ ((o : ℕ) × (pos 2 ≡ pos o) × (5 < o))))
resolve_read_limit_window_example =
    resolve_read_limit_window (record { size = 5; hash = 0 }) (pos 2) (pos max_int64)
