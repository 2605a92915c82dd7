-- ===== src/Nodes/LinkPool.antt =====
-- mod/nodes/src/link_pool.go: the links to other nodes. Links are shared objects, so there is a store of
-- them, and the pool's set holds references into it. A pointer that is nil is none. The strategies
-- that make new links and the linkers that run them are not modelled.
pub mod Shutdown
pub mod Choice
pub use astrald.Sig.{SigSet}
use astrald.Prelude.{
  update, ℕ, zero, suc, ◌≡◌, ◌==◌, not, ◌&&◌, ◌||◌, Bool, true, false, Option, none, some, is_some,
  List, [], ◌∷◌, is_nil, contains, if◌then◌else◌, length,
}

-- The cause of a link's death is a number; CloseWithError gets context.Canceled here.
abbrev pub canceled : ℕ
canceled = 0

-- Link, as far as the pool reads it.
pub record Link : Type 0 where
  pub remote_identity : ℕ
  pub network : ℕ
  pub outbound : Bool
  pub pressure_high : Bool
  pub err : Option ℕ

-- CloseWithError: only the first error is kept.
unfoldable pub close_with_error : ℕ → Link → Link
close_with_error e l = elim l.err [ none ↦ record l { err = some e } | some d ↦ l ]

-- RetrieveLinkOptions, less ForceNew.
pub record Wanted : Type 0 where
  pub target : ℕ
  pub strategies : List ℕ
  pub networks : List ℕ

-- linkWatcher, with the link that its channel holds, at most one.
pub record LinkWatcher : Type 0 where
  pub wanted : Wanted
  pub ch : Option ℕ

-- The match of RetrieveLink.
unfoldable pub matches : Wanted → Link → Option ℕ → Bool
matches o l strategy = if not (l.remote_identity == o.target) then false else elim strategy [
  | none ↦ if is_nil o.networks then true else contains o.networks l.network
  | some s ↦
      if is_nil o.strategies
      then (if is_nil o.networks then true else contains o.networks l.network)
      else contains o.strategies s
]

-- notifyLinkWatchers; the second result says whether a watcher took the link.
unfoldable pub notify_link_watchers :
    ℕ → Link → Option ℕ → List LinkWatcher → List LinkWatcher × Bool
notify_link_watchers i l strategy [] = ([], false)
notify_link_watchers i l strategy (w ∷ ws) =
    let (rest, used) = notify_link_watchers i l strategy ws in
    if matches w.wanted l strategy && not (is_some w.ch)
    then ((record w { ch = some i }) ∷ rest, true)
    else (w ∷ rest, used)

module _ (sets : SigSet) where
  pub record LinkPool : Type 0 where
    pub closed : Bool
    pub links : sets.Set
    pub watchers : List LinkWatcher
    pub store : ℕ → Link

  -- Links to an identity.
  abbrev pub select : (ℕ → Link) → ℕ → List ℕ → List ℕ
  select store id [] = []
  select store id (i ∷ is) =
      if (store i).remote_identity == id then i ∷ select store id is else select store id is

  -- addCounted: none when the pool has the link.
  unfoldable pub add_counted : ℕ → LinkPool → Option (LinkPool × ℕ)
  add_counted i p = elim (sets.add i p.links) [
    | none ↦ none
    | some links' ↦ some (
      record p { links = links' },
      length (select p.store (p.store i).remote_identity (sets.clone links')),
    )
  ]

  -- The loop of SelectLinkWith.
  unfoldable pub select_from : (ℕ → Link) → ℕ → Option ℕ → List ℕ → Option ℕ
  select_from store id fallback [] = fallback
  select_from store id fallback (i ∷ is) =
      let next = select_from store id (if is_some fallback then fallback else some i) is in
      let past = select_from store id fallback is in
      if is_some (store i).err || not ((store i).remote_identity == id)
      then past
      else if not (store i).pressure_high
      then some i
      else next

  unfoldable pub select_link_with : ℕ → LinkPool → Option ℕ
  select_link_with id p =
      if p.closed then none else select_from p.store id none (sets.clone p.links)

  -- The links among which RetrieveLink takes the first when it needs no new one.
  unfoldable pub matching : (ℕ → Link) → Wanted → List ℕ → List ℕ
  matching store o [] = []
  matching store o (i ∷ is) =
      let rest = matching store o is in if matches o (store i) none then i ∷ rest else rest

  -- RetrieveLink up to the point where it asks the strategies; a watcher is subscribed then.
  unfoldable pub retrieve_link : Bool → Wanted → LinkPool → LinkPool × Option ℕ
  retrieve_link force_new o p =
      let waits : LinkPool × Option ℕ =
        (record p { watchers = (record { wanted = o; ch = none }) ∷ p.watchers }, none) in
      if force_new
      then waits
      else elim (matching p.store o (sets.clone p.links)) [ [] ↦ waits | i ∷ is ↦ (p, some i) ]

  -- What AddLink does after addCounted; the second result is false for context.Canceled. The mux's router
  -- and the event are left out.
  unfoldable pub finish_add : ℕ → LinkPool → LinkPool × Bool
  finish_add i p =
      if p.closed
      then (
        record p {
          links = sets.remove i p.links;
          store = update p.store i (close_with_error canceled (p.store i));
        },
        false,
      )
      else if (p.store i).outbound
      then (p, true)
      else (record p { watchers = (notify_link_watchers i (p.store i) none p.watchers).0 }, true)
