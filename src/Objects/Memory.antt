-- ===== src/Objects/Memory.antt =====
-- mod/objects/mem: Repository and Writer. Bytes are counted against a quota from the moment they are
-- written. The writers that share a repository are a list; each atomic step of the source that they
-- race for (reserve, the swap of `closed`, Set and Delete of the map) falls in one method here.
-- A bytes.Buffer takes all that it is given. Scan streams IDs and is not modelled.
pub mod Quota
pub mod Lookup
use astrald.Prelude.{
  ℕ, zero, suc, ◌+◌, ◌-◌, ◌≡◌, ◌==◌, ltb, not, ◌&&◌, Bool, true, false, Option, none, some, List,
  [], ◌∷◌, ◌++◌, length, take, drop, is_some, if◌then◌else◌,
}
use astrald.Objects.{
  ℤ, pos, negsuc, ObjectId, Error, not_found, out_of_bounds, zone_excluded, closed_pipe,
  no_space_left, Result, ok, err, resolve_read_limit,
}

-- The bytes of all values.
abbrev pub total : List (List ℕ) → ℕ
total [] = 0
total (v ∷ vs) = length v + total vs

-- sig.Map from hashes to bytes, which is not part of the repository: Set keeps an entry that is there.
pub record ObjectMap : Type 1 where
  pub Map : Type 0
  pub empty : Map
  pub get : ℕ → Map → Option (List ℕ)
  pub set : ℕ → List ℕ → Map → Map × Bool
  pub delete : ℕ → Map → Map × Option (List ℕ)
  pub values : Map → List (List ℕ)
  pub values-empty : values empty ≡ []
  pub set_ok : (k : ℕ) (v : List ℕ) (m : Map) → (set k v m).1 ≡ not (is_some (get k m))
  pub get-set :
      (k : ℕ) (v : List ℕ) (m : Map) (j : ℕ)
      → get j (set k v m).0
        ≡ (if is_some (get k m) then get j m else if k == j then some v else get j m)
  pub total-set :
      (k : ℕ) (v : List ℕ) (m : Map)
      → total (values (set k v m).0)
        ≡ (if is_some (get k m) then total (values m) else length v + total (values m))
  pub get-delete :
      (k : ℕ) (m : Map) (j : ℕ) → get j (delete k m).0 ≡ (if k == j then none else get j m)
  pub delete_value : (k : ℕ) (m : Map) → (delete k m).1 ≡ get k m
  pub total-delete :
      (k : ℕ) (v : List ℕ) (m : Map)
      → get k m ≡ some v
      → total (values (delete k m).0) + length v ≡ total (values m)

pub record Writer : Type 0 where
  pub closed : Bool
  pub buf : List ℕ

pub record Repository (maps : ObjectMap) : Type 0 where
  pub objects : maps.Map
  pub used : ℕ
  pub size : ℕ
  pub added : List ObjectId

abbrev default_size : ℕ
default_size = 67108864

-- NewWriter
abbrev pub new_writer : Writer
new_writer = record { closed = false; buf = [] }

-- Resolve of some bytes, whose hash is not part of the repository.
abbrev pub id_of : (List ℕ → ℕ) → List ℕ → ObjectId
id_of hash v = record { size = length v; hash = hash v }

module _ (maps : ObjectMap) where
  -- New
  unfoldable pub new : ℕ → Repository maps
  new size = record {
    objects = maps.empty;
    used = 0;
    size = if size == 0 then default_size else size;
    added = [];
  }

  -- Free
  unfoldable pub free : Repository maps → ℕ
  free r = r.size - r.used

  -- Create; the argument is the Alloc of the options, if there are any.
  unfoldable pub create : Option ℕ → Repository maps → Result Writer
  create none r = ok new_writer
  create (some alloc) r = if ltb (free r) alloc then err no_space_left else ok new_writer

  -- findObject
  unfoldable pub find_object : ObjectId → Repository maps → Result (ObjectId × List ℕ)
  find_object id r = elim (maps.get id.hash r.objects) [
    | none ↦ err not_found
    | some v ↦
        if not (id.size == 0) && not (id.size == length v)
        then err not_found
        else ok (record { size = length v; hash = id.hash }, v)
  ]

  -- Contains
  unfoldable pub contains : ObjectId → Repository maps → Bool
  contains id r = elim (find_object id r) [ err e ↦ false | ok o ↦ true ]

  -- Read: the bytes that the reader will hand out. `device` says whether the zone is the device's.
  unfoldable pub read : Bool → ObjectId → ℤ → ℤ → Repository maps → Result (List ℕ)
  read device id offset limit r =
      if not device then err zone_excluded else elim (find_object id r) [
        | err e ↦ err e
        | ok (full, v) ↦ elim (resolve_read_limit full offset limit) [
          | err e ↦ err e
          | ok n ↦ elim offset [ pos o ↦ ok (take n (drop o v)) | negsuc o ↦ err out_of_bounds ]
        ]
      ]

  -- reserve
  unfoldable pub reserve : ℕ → Repository maps → Option (Repository maps)
  reserve n r = if ltb r.size (r.used + n) then none else some (record r { used = r.used + n })

  -- release: `used` is at least n wherever it is called.
  unfoldable pub release : ℕ → Repository maps → Repository maps
  release n r = record r { used = r.used - n }

  -- Delete
  unfoldable pub delete : ObjectId → Repository maps → Repository maps × Result Unit
  delete id r = elim (find_object id r) [
    | err e ↦ (r, err e)
    | ok (full, v) ↦
        let (objects', old) = maps.delete full.hash r.objects in
        elim old [
          | none ↦ (record r { objects = objects' }, err not_found)
          | some u ↦ (release (length u) (record r { objects = objects' }), ok tt)
        ]
  ]

  -- Writer.Write
  unfoldable pub write : List ℕ → Writer → Repository maps → Writer × Repository maps × Result ℕ
  write p w r = if w.closed then (w, r, err closed_pipe) else elim (reserve (length p) r) [
    | none ↦ (w, r, err no_space_left)
    | some r' ↦ (record w { buf = w.buf ++ p }, r', ok (length p))
  ]

  -- Writer.Commit
  unfoldable pub commit :
      (List ℕ → ℕ) → Writer → Repository maps → Writer × Repository maps × Result ObjectId
  commit hash w r =
      let id = id_of hash w.buf in
      let (objects', stored) = maps.set id.hash w.buf r.objects in
      let shut : Writer = record { closed = true; buf = [] } in
      if w.closed
      then (w, r, err closed_pipe)
      else if stored
      then (shut, record r { objects = objects'; added = r.added ++ (id ∷ []) }, ok id)
      else (shut, release (length w.buf) (record r { objects = objects' }), ok id)

  -- Writer.Discard
  unfoldable pub discard : Writer → Repository maps → Writer × Repository maps
  discard w r =
      if w.closed then (w, r) else (record { closed = true; buf = [] }, release (length w.buf) r)
