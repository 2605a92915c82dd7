-- ===== src/Objects/Memory/Quota.antt =====
-- The quota of a repository in memory is exact in every history of its writers.
use astrald.Prelude.{
  ℕ, zero, suc, ◌+◌, ◌≤◌, ◌≡◌, inl, inr, arith, Option, none, some, List, [], ◌∷◌, length,
  length-append, if◌then◌else◌, Option-cases,
}
use astrald.Objects.{ObjectId, ok, err}
use astrald.Objects.Memory.{
  ObjectMap, Writer, Repository, total, new, create, find_object, reserve, release, delete, write,
  commit, discard,
}

-- The bytes that open writers hold.
abbrev pub held : List Writer → ℕ
held [] = 0
held (w ∷ ws) = (if w.closed then 0 else length w.buf) + held ws

pub data Call : Type 0 where
  creates : Option ℕ → Call
  writes : ℕ → List ℕ → Call
  commits discards : ℕ → Call
  deletes : ObjectId → Call

module _ (maps : ObjectMap) (hash : List ℕ → ℕ) where
  pub record Disk : Type 0 where
    pub repo : Repository maps
    pub writers : List Writer

  -- A call on the writer at an index, if there is one.
  abbrev on_writer :
      ℕ
      → (Writer → Repository maps → Writer × Repository maps)
      → List Writer
      → Repository maps
      → List Writer × Repository maps
  on_writer i f [] r = ([], r)
  on_writer zero f (w ∷ ws) r = let (w', r') = f w r in (w' ∷ ws, r')
  on_writer (suc i) f (w ∷ ws) r = let (ws', r') = on_writer i f ws r in (w ∷ ws', r')

  abbrev writing : List ℕ → Writer → Repository maps → Writer × Repository maps
  writing p w r = let (w', r', res) = write maps p w r in (w', r')

  abbrev committing : Writer → Repository maps → Writer × Repository maps
  committing w r = let (w', r', res) = commit maps hash w r in (w', r')

  unfoldable pub call : Disk → Call → Disk
  call d (creates alloc) = elim (create maps alloc d.repo) [
    | err e ↦ d
    | ok w ↦ record d { writers = w ∷ d.writers }
  ]
  call d (writes i p) =
      let (ws, r) = on_writer i (writing p) d.writers d.repo in record { repo = r; writers = ws }
  call d (commits i) =
      let (ws, r) = on_writer i committing d.writers d.repo in record { repo = r; writers = ws }
  call d (discards i) =
      let (ws, r) = on_writer i (discard maps) d.writers d.repo in record { repo = r; writers = ws }
  call d (deletes id) = record d { repo = (delete maps id d.repo).0 }

  unfoldable pub calls : Disk → List Call → Disk
  calls d [] = d
  calls d (c ∷ cs) = calls (call d c) cs

  -- With `rest` bytes held by the other writers.
  abbrev Balanced : ℕ → Writer → Repository maps → Type 0
  Balanced rest w r =
      (r.used ≡ total (maps.values r.objects) + ((if w.closed then 0 else length w.buf) + rest))
      × (r.used ≤ r.size)

  writing-Balanced :
      (rest : ℕ) (p : List ℕ) (w : Writer) (r : Repository maps)
      → Balanced rest w r
      → Balanced rest (writing p w r).0 (writing p w r).1
  unfolding write reserve
  writing-Balanced rest p w r h = ground (arith, h, length-append w.buf p)

  committing-Balanced :
      (rest : ℕ) (w : Writer) (r : Repository maps)
      → Balanced rest w r
      → Balanced rest (committing w r).0 (committing w r).1
  unfolding commit release
  committing-Balanced rest w r h = ground (
    arith,
    h,
    maps.set_ok (hash w.buf) w.buf r.objects,
    maps.total-set (hash w.buf) w.buf r.objects,
  )

  discard-Balanced :
      (rest : ℕ) (w : Writer) (r : Repository maps)
      → Balanced rest w r
      → Balanced rest (discard maps w r).0 (discard maps w r).1
  unfolding discard release
  discard-Balanced rest w r h = ground (arith, h)

  delete-balance :
      (id : ObjectId) (n : ℕ) (r : Repository maps)
      → r.used ≡ total (maps.values r.objects) + n
      → ((delete maps id r).0.used ≡ total (maps.values (delete maps id r).0.objects) + n)
        × ((delete maps id r).0.used ≤ r.used)
        × ((delete maps id r).0.size ≡ r.size)
  unfolding delete find_object release
  delete-balance id n r h = elim (Option-cases (maps.get id.hash r.objects)) [
    | inl e ↦ ground arith
    | inr (v, e) ↦
        ground
          (arith, h, maps.delete_value id.hash r.objects, maps.total-delete id.hash v r.objects e)
  ]

  on_writer-Balanced :
      (rest i : ℕ) (f : Writer → Repository maps → Writer × Repository maps) (ws : List Writer)
      (r : Repository maps)
      → ((n : ℕ) (w : Writer) (s : Repository maps)
          → Balanced n w s
          → Balanced n (f w s).0 (f w s).1)
      → (r.used ≡ total (maps.values r.objects) + (held ws + rest)) × (r.used ≤ r.size)
      → let (ws', r') = on_writer i f ws r in
        (r'.used ≡ total (maps.values r'.objects) + (held ws' + rest)) × (r'.used ≤ r'.size)
  on_writer-Balanced rest i f [] r k h = h
  on_writer-Balanced rest zero f (w ∷ ws) r k h =
      ground (arith, k (held ws + rest) w r (omega (arith, h.0), h.1))
  on_writer-Balanced rest (suc i) f (w ∷ ws) r k h =
      let own = if w.closed then 0 else length w.buf in
      ground (arith, on_writer-Balanced (own + rest) i f ws r k (omega (arith, h.0), h.1))

  abbrev pub IsBalanced : Disk → Type 0
  IsBalanced d =
      (d.repo.used ≡ total (maps.values d.repo.objects) + held d.writers)
      × (d.repo.used ≤ d.repo.size)

  call-IsBalanced : (d : Disk) (c : Call) → IsBalanced d → IsBalanced (call d c)
  unfolding call create
  call-IsBalanced d (creates none) h = ground (arith, h)
  call-IsBalanced d (creates (some a)) h = ground (arith, h)
  call-IsBalanced d (writes i p) h = ground (
    arith,
    on_writer-Balanced 0 i (writing p) d.writers d.repo (λ n w s b. writing-Balanced n p w s b)
        (omega (arith, h.0), h.1),
  )
  call-IsBalanced d (commits i) h = ground (
    arith,
    on_writer-Balanced 0 i committing d.writers d.repo (λ n w s b. committing-Balanced n w s b)
        (omega (arith, h.0), h.1),
  )
  call-IsBalanced d (discards i) h = ground (
    arith,
    on_writer-Balanced 0 i (discard maps) d.writers d.repo (λ n w s b. discard-Balanced n w s b)
        (omega (arith, h.0), h.1),
  )
  call-IsBalanced d (deletes id) h =
      let (e, less, same) = delete-balance id (held d.writers) d.repo h.0 in (e, omega (arith, h.1))

  calls-IsBalanced : (d : Disk) (cs : List Call) → IsBalanced d → IsBalanced (calls d cs)
  unfolding calls
  calls-IsBalanced d [] h = h
  calls-IsBalanced d (c ∷ cs) h = calls-IsBalanced (call d c) cs (call-IsBalanced d c h)

  -- After any history of Create, Write, Commit, Discard and Delete on a new repository, the bytes
  -- counted as used are those of the stored objects and those that open writers hold, and they are
  -- within the repository's size.
  pub calls-new-IsBalanced :
      (size : ℕ) (cs : List Call)
      → IsBalanced (calls (record { repo = new maps size; writers = [] }) cs)
  unfolding new
  calls-new-IsBalanced size cs = calls-IsBalanced _ cs (ground (arith, maps.values-empty))
