-- ===== src/Objects/Memory/Lookup.antt =====
-- What is found in a repository in memory after a Commit and after a Delete, and what a read hands out.
use astrald.Prelude.{
  ℕ, ◌+◌, ◌-◌, min, ◌≤◌, ◌<◌, ◌≡◌, ◌≢◌, refl, ◌⊎◌, inl, inr, arith, ◌==◌, ltb, not, ◌&&◌, true,
  false, some, List, length, take_all, Bool-cases, Option-cases, if◌then◌else◌,
}
use astrald.Objects.{
  ℤ, pos, negsuc, ObjectId, not_found, out_of_bounds, closed_pipe, ok, err, resolve_read_limit,
  max_int64,
}
use astrald.Objects.Memory.{
  ObjectMap, Writer, Repository, id_of, find_object, contains, read, delete, commit, write, release,
}

module _ (maps : ObjectMap) (hash : List ℕ → ℕ) where
  -- Commit of an open writer closes it, and its bytes are found under their ID and read back whole,
  -- unless other bytes with the same hash were stored before. A closed writer takes no bytes and
  -- commits nothing.
  pub commit_stores :
      (w : Writer) (r : Repository maps)
      → length w.buf ≤ max_int64
      → ((v : List ℕ) → maps.get (hash w.buf) r.objects ≡ some v → v ≡ w.buf)
      → w.closed ≡ false
      → let (w', r', res) = commit maps hash w r in
        (res ≡ ok (id_of hash w.buf))
        × (find_object maps (id_of hash w.buf) r' ≡ ok (id_of hash w.buf, w.buf))
        × (read maps true (id_of hash w.buf) (pos 0) (pos 0) r' ≡ ok w.buf)
        × (commit maps hash w' r' ≡ (w', r', err closed_pipe))
        × ((p : List ℕ) → write maps p w' r' ≡ (w', r', err closed_pipe))
  unfolding commit find_object read write release resolve_read_limit
  commit_stores w r fits fresh still =
      let k = hash w.buf in
      elim (Option-cases (maps.get k r.objects)) [
        | inl e ↦ ground (
          arith,
          e,
          maps.set_ok k w.buf r.objects,
          maps.get-set k w.buf r.objects k,
          take_all w.buf,
        )
        | inr (v, e) ↦ ground (
          arith,
          e,
          fresh v e,
          maps.set_ok k w.buf r.objects,
          maps.get-set k w.buf r.objects k,
          take_all w.buf,
        )
      ]

module _ (maps : ObjectMap) where
  -- Delete finds what Contains says, and Contains does not find it any more.
  pub contains-delete :
      (id : ObjectId) (r : Repository maps)
      → (contains maps id (delete maps id r).0 ≡ false)
        × ((delete maps id r).1 ≡ (if contains maps id r then ok tt else err not_found))
  unfolding delete contains find_object release
  contains-delete id r = elim (Option-cases (maps.get id.hash r.objects)) [
    | inl e ↦ ground (arith, e)
    | inr (v, e) ↦
        ground
          (arith, e, maps.delete_value id.hash r.objects, maps.get-delete id.hash r.objects id.hash)
  ]

  -- Delete of an ID that names a stored object gives back exactly its bytes, takes it away and
  -- leaves every other hash alone, and a second Delete does not find it; of another ID it changes
  -- nothing. A full ID names a stored object only with the object's size.
  delete_outcomes :
      (id : ObjectId) (r : Repository maps)
      → ((contains maps id r ≡ false) × (delete maps id r ≡ (r, err not_found)))
        ⊎ ((contains maps id r ≡ true)
            × ((v : List ℕ) × (maps.get id.hash r.objects ≡ some v)
                × ((id.size ≡ 0) ⊎ (id.size ≡ length v))
                × (let r' = (delete maps id r).0 in
                    (r'.used ≡ r.used - length v)
                    × (contains maps id r' ≡ false)
                    × ((delete maps id r').1 ≡ err not_found)
                    × ((j : ℕ) → id.hash ≢ j → maps.get j r'.objects ≡ maps.get j r.objects))))
  unfolding delete contains find_object release
  delete_outcomes id r = elim (Option-cases (maps.get id.hash r.objects)) [
    | inl e ↦ inl (ground arith)
    | inr (v, e) ↦ elim (Bool-cases (not (id.size == 0) && not (id.size == length v))) [
      | inl wrong ↦ inl (ground (arith, e, wrong))
      | inr right ↦ inr (
        ground (arith, e),
        (
          v,
          e,
          ground arith,
          (
            ground (arith, e, maps.delete_value id.hash r.objects),
            ground (
              arith,
              e,
              maps.delete_value id.hash r.objects,
              maps.get-delete id.hash r.objects id.hash,
            ),
            ground (
              arith,
              e,
              maps.delete_value id.hash r.objects,
              maps.get-delete id.hash r.objects id.hash,
            ),
            λ j ne. ground (
              arith,
              e,
              ne,
              maps.delete_value id.hash r.objects,
              maps.get-delete id.hash r.objects j,
            ),
          ),
        ),
      )
    ]
  ]

-- For every object size and all int64 arguments, a window that is granted lies inside the object,
-- and is the shorter of the limit and what is left, where limit 0 means all; a negative offset or
-- limit, an offset past the end and an object too long for an int64 are refused, whatever the sum of
-- offset and limit.
pub resolve_read_limit_window :
    (id : ObjectId) (offset limit : ℤ)
    → ((o : ℕ) × (l : ℕ) × (n : ℕ) × (offset ≡ pos o)
        × (limit ≡ pos l)
        × (id.size ≤ max_int64)
        × (o + n ≤ id.size)
        × (resolve_read_limit id offset limit ≡ ok n)
        × (((l ≡ 0) × (o + n ≡ id.size)) ⊎ ((0 < l) × (n ≡ min l (id.size - o)))))
      ⊎ ((resolve_read_limit id offset limit ≡ err out_of_bounds)
          × (((n : ℕ) × (offset ≡ negsuc n))
              ⊎ ((n : ℕ) × (limit ≡ negsuc n))
              ⊎ (max_int64 < id.size)
              ⊎ ((o : ℕ) × (offset ≡ pos o) × (id.size < o))))
unfolding resolve_read_limit
resolve_read_limit_window id (negsuc o) limit = inr (refl, inl (o, refl))
resolve_read_limit_window id (pos o) (negsuc l) = inr (refl, inr (inl (l, refl)))
resolve_read_limit_window id (pos o) (pos l) = elim (Bool-cases (ltb max_int64 id.size)) [
  | inl big ↦ inr (ground arith, inr (inr (inl (ground arith))))
  | inr small ↦ elim (Bool-cases (ltb id.size o)) [
    | inl past ↦ inr (ground arith, inr (inr (inr (o, refl, ground arith))))
    | inr inside ↦ elim (Bool-cases (l == 0)) [
      | inl all ↦
          inl
            (o, l, id.size - o, refl, refl, ground arith, ground arith, ground arith, ground arith)
      | inr some' ↦ inl (
        o,
        l,
        min l (id.size - o),
        refl,
        refl,
        ground arith,
        ground arith,
        ground arith,
        ground arith,
      )
    ]
  ]
]
