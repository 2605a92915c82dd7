-- ===== src/Nodes/LinkPool/Shutdown.antt =====
-- AddLink, Close and the death of links, in any order: a step is what one of them does between two
-- points at which another can come in.
use astrald.Prelude.{
  update, ℕ, ◌≡◌, inl, inr, arith, ◌==◌, not, ◌&&◌, ◌||◌, Bool, true, false, none, some, is_some,
  List, [], ◌∷◌, contains, if◌then◌else◌, Bool-cases,
}
use astrald.Nodes.LinkPool.{
  SigSet, Link, close_with_error, LinkPool, canceled, add_counted, finish_add,
}

-- Where the call of Close stands that wins the swap: not called, before it lists the links, with the
-- links that it has still to close, returned.
pub data Closing : Type 0 where
  not_closing lists : Closing
  closes : List ℕ → Closing

pub record Pool (sets : SigSet) : Type 0 where
  pub pool : LinkPool sets
  pub adding : List ℕ
  pub added : List ℕ
  pub closing : Closing

-- A link is put into the pool; the call of AddLink that did so goes on; Close swaps `closed`, lists
-- the links, closes the next one; a link dies of its own; its goroutine takes it out of the pool.
pub data Event : Type 0 where
  adds finishes takes_out : ℕ → Event
  close_swaps close_lists close_next : Event
  dies : ℕ → ℕ → Event

abbrev pub without : ℕ → List ℕ → List ℕ
without i [] = []
without i (j ∷ js) = if i == j then js else j ∷ without i js

contains-without :
    (i : ℕ) (js : List ℕ) (j : ℕ) → (not (contains (without i js) j) || contains js j) ≡ true
contains-without i [] j = ground arith
contains-without i (k ∷ js) j = ground (arith, contains-without i js j)

without-keeps :
    (i : ℕ) (js : List ℕ) (j : ℕ)
    → ((i == j) || (not (contains js j) || contains (without i js) j)) ≡ true
without-keeps i [] j = ground arith
without-keeps i (k ∷ js) j = ground (arith, without-keeps i js j)

module _ (sets : SigSet) where
  unfoldable pub step : Event → Pool sets → Pool sets
  step (adds i) s = elim (add_counted sets i s.pool) [
    | none ↦ s
    | some (p', n) ↦ record s { pool = p'; adding = i ∷ s.adding }
  ]
  step (finishes i) s =
      if contains s.adding i
      then (let (p', fine) = finish_add sets i s.pool in
          record s {
            pool = p';
            adding = without i s.adding;
            added = if fine then i ∷ s.added else s.added;
          })
      else s
  step close_swaps s =
      if s.pool.closed
      then s
      else record s { pool = record s.pool { closed = true }; closing = lists }
  step close_lists s = elim s.closing [
    | lists ↦ record s { closing = closes (sets.clone s.pool.links) }
    | _ ↦ s
  ]
  step close_next s = elim s.closing [
    | closes (i ∷ is) ↦ record s {
      pool = record s.pool {
        store = update s.pool.store i (close_with_error canceled (s.pool.store i));
      };
      closing = closes is;
    }
    | _ ↦ s
  ]
  step (dies i e) s = record s {
    pool = record s.pool { store = update s.pool.store i (close_with_error e (s.pool.store i)) };
  }
  step (takes_out i) s =
      if contains s.added i && is_some (s.pool.store i).err
      then record s { pool = record s.pool { links = sets.remove i s.pool.links } }
      else s

  unfoldable pub run : List Event → Pool sets → Pool sets
  run [] s = s
  run (e ∷ es) s = run es (step e s)

  -- NewLinkPool, with the links that there will be.
  unfoldable pub new_link_pool : (ℕ → Link) → Pool sets
  new_link_pool store = record {
    pool = record { closed = false; links = sets.empty; watchers = []; store = store };
    adding = [];
    added = [];
    closing = not_closing;
  }

  -- Close has still to come to a link.
  abbrev will_close : Closing → ℕ → Bool
  will_close not_closing i = true
  will_close lists i = true
  will_close (closes is) i = contains is i

  abbrev has_begun : Closing → Bool
  has_begun not_closing = false
  has_begun lists = true
  has_begun (closes is) = true

  abbrev is_dead : Pool sets → ℕ → Bool
  is_dead s i = is_some (s.pool.store i).err

  -- A link in the pool is dead, or an AddLink that checks `closed` again has it, or Close will come
  -- to it; a link that an AddLink has put there is dead or in the pool.
  abbrev IsGuarded : Pool sets → ℕ → Type 0
  IsGuarded s i =
      (s.pool.closed ≡ has_begun s.closing)
      × ((not (contains (sets.clone s.pool.links) i)
            || (is_dead s i || (contains s.adding i || will_close s.closing i)))
          ≡ true)
      × ((not (contains s.adding i) || (is_dead s i || contains (sets.clone s.pool.links) i))
          ≡ true)
      × ((not (contains s.added i) || (is_dead s i || contains (sets.clone s.pool.links) i)) ≡ true)

  adds-IsGuarded : (i : ℕ) (s : Pool sets) (j : ℕ) → IsGuarded s j → IsGuarded (step (adds i) s) j
  unfolding step add_counted
  adds-IsGuarded i s j (b, g, h, k) = elim (Bool-cases (contains (sets.clone s.pool.links) i)) [
    | inl n ↦ ground (arith, b, g, h, k, n, sets.add-present i s.pool.links n)
    | inr n ↦
        let (s', e, c) = sets.add-absent i s.pool.links n in ground (arith, b, g, h, k, n, e, c j)
  ]

  finishes-IsGuarded :
      (i : ℕ) (s : Pool sets) (j : ℕ) → IsGuarded s j → IsGuarded (step (finishes i) s) j
  unfolding step finish_add close_with_error
  finishes-IsGuarded i s j (b, g, h, k) = ground (
    arith,
    b,
    g,
    h,
    k,
    sets.contains-remove i s.pool.links j,
    without-keeps i s.adding j,
    contains-without i s.adding j,
  )

  takes_out-IsGuarded :
      (i : ℕ) (s : Pool sets) (j : ℕ) → IsGuarded s j → IsGuarded (step (takes_out i) s) j
  unfolding step
  takes_out-IsGuarded i s j (b, g, h, k) =
      ground (arith, b, g, h, k, sets.contains-remove i s.pool.links j)

  step-IsGuarded : (e : Event) (s : Pool sets) (j : ℕ) → IsGuarded s j → IsGuarded (step e s) j
  unfolding step close_with_error
  step-IsGuarded (adds i) s j g = adds-IsGuarded i s j g
  step-IsGuarded (finishes i) s j g = finishes-IsGuarded i s j g
  step-IsGuarded close_swaps s j (b, g, h, k) = ground (arith, b, g, h, k)
  step-IsGuarded close_lists s j (b, g, h, k) = ground (arith, b, g, h, k)
  step-IsGuarded close_next s j (b, g, h, k) = ground (arith, b, g, h, k)
  step-IsGuarded (dies i e) s j (b, g, h, k) = ground (arith, b, g, h, k)
  step-IsGuarded (takes_out i) s j g = takes_out-IsGuarded i s j g

  run-IsGuarded : (es : List Event) (s : Pool sets) (j : ℕ) → IsGuarded s j → IsGuarded (run es s) j
  unfolding run
  run-IsGuarded [] s j g = g
  run-IsGuarded (e ∷ es) s j g = run-IsGuarded es (step e s) j (step-IsGuarded e s j g)

  new_link_pool-IsGuarded : (store : ℕ → Link) (j : ℕ) → IsGuarded (new_link_pool store) j
  unfolding new_link_pool
  new_link_pool-IsGuarded store j = ground (arith, sets.clone-empty)

  -- Whatever the order in which links are added, die and leave the pool while Close runs: when Close
  -- has returned and no call of AddLink is under way, every link in the pool and every link that was
  -- ever added is dead; and a link that was added and lives is in the pool at any time.
  pub run-new_link_pool :
      (store : ℕ → Link) (es : List Event) (i : ℕ)
      → let s = run es (new_link_pool store) in
        (s.closing ≡ closes []
          → s.adding ≡ []
          → (contains s.added i || contains (sets.clone s.pool.links) i) ≡ true
          → is_some (s.pool.store i).err ≡ true)
        × (contains s.added i ≡ true
            → (s.pool.store i).err ≡ none
            → contains (sets.clone s.pool.links) i ≡ true)
  run-new_link_pool store es i =
      let s = run es (new_link_pool store) in
      let (b, g, h, k) =
        run-IsGuarded es (new_link_pool store) i (new_link_pool-IsGuarded store i) in
      (λ c a m. ground (arith, c, a, m, g, k), λ a d. ground (arith, a, d, k))
