-- ===== src/Nodes/LinkPool/Choice.antt =====
-- Which link the pool gives for a node: SelectLinkWith, and RetrieveLink without new links.
use astrald.Prelude.{
  ℕ, ◌≡◌, refl, arith, ◌==◌, not, ◌&&◌, Bool, Option, none, some, is_some, List, [], ◌∷◌,
  if◌then◌else◌,
}
use astrald.Nodes.LinkPool.{
  SigSet, Link, LinkPool, Wanted, matches, matching, retrieve_link, select_from, select_link_with,
}

abbrev pub filter : (ℕ → Bool) → List ℕ → List ℕ
filter f [] = []
filter f (i ∷ is) = if f i then i ∷ filter f is else filter f is

abbrev pub head : List ℕ → Option ℕ
head [] = none
head (i ∷ is) = some i

abbrev pub or_else : Option ℕ → Option ℕ → Option ℕ
or_else none b = b
or_else (some i) b = some i

-- A link to the node that lives, and one that also has no high pressure.
abbrev pub is_usable : (ℕ → Link) → ℕ → ℕ → Bool
is_usable store id i = not (is_some (store i).err) && ((store i).remote_identity == id)

abbrev pub is_calm : (ℕ → Link) → ℕ → ℕ → Bool
is_calm store id i = is_usable store id i && not (store i).pressure_high

module _ (sets : SigSet) where
  select_from-head :
      (store : ℕ → Link) (id : ℕ) (fallback : Option ℕ) (is : List ℕ)
      → select_from sets store id fallback is
        ≡ or_else
            (head (filter (is_calm store id) is))
            (or_else fallback (head (filter (is_usable store id) is)))
  unfolding select_from
  select_from-head store id fallback [] = ground arith
  select_from-head store id fallback (i ∷ is) =
      ground (arith, select_from-head store id fallback is, select_from-head store id (some i) is)

  matching-filter :
      (store : ℕ → Link) (o : Wanted) (is : List ℕ)
      → matching sets store o is ≡ filter (λ i. matches o (store i) none) is
  unfolding matching
  matching-filter store o [] = refl
  matching-filter store o (i ∷ is) = ground (arith, matching-filter store o is)

  -- An open pool gives for a node the first of its links that live and have no high pressure, else the
  -- first that lives; a closed pool gives none. RetrieveLink gives the first link of the set that
  -- matches, dead or not, unless it is told to make a new one, and else subscribes a watcher.
  pub link_choice :
      (id : ℕ) (force_new : Bool) (o : Wanted) (p : LinkPool sets)
      → let is = sets.clone p.links in
        (select_link_with sets id p ≡ (
          if p.closed
          then none
          else or_else
              (head (filter (is_calm p.store id) is))
              (head (filter (is_usable p.store id) is))))
        × (retrieve_link sets force_new o p ≡ (
            let i =
              if force_new then none else head (filter (λ j. matches o (p.store j) none) is) in
            (
              (if is_some i
                  then p
                  else record p { watchers = (record { wanted = o; ch = none }) ∷ p.watchers }),
              i,
            )))
  unfolding select_link_with retrieve_link
  link_choice id force_new o p =
      let is = sets.clone p.links in
      (
        ground (arith, select_from-head p.store id none is),
        ground (arith, matching-filter p.store o is),
      )
