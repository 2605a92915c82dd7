-- ===== src/Nodes/Tests/RoutingTests.antt =====
-- A pool over sets that are lists, and a node with relays.
use astrald.Prelude.{
  ℕ, suc, ◌+◌, ◌≡◌, ◌⊎◌, ◌==◌, ◌||◌, true, false, none, some, is_some, List, [], ◌∷◌, contains,
  length, if◌then◌else◌,
}
use astrald.Nodes.Tests.ListSet.{list_set}
use astrald.Nodes.LinkPool.{Link, LinkPool, Wanted, select_link_with, retrieve_link, matches}
use astrald.Nodes.LinkPool.Shutdown
use astrald.Nodes.LinkPool.Shutdown.{Closing, Event, new_link_pool, run-new_link_pool}
use astrald.Nodes.LinkPool.Choice.{filter, head, or_else, is_usable, is_calm, link_choice}
use astrald.Nodes.Routing.{
  Answer, accepted, rejected, route_not_found, retrieved, InFlightQuery, Node, reach_relay, ask,
  route_relays,
}
use astrald.Nodes.Routing.Relays.{
  asked, best, first, is_accepted, IsLinked, IsProven, route_relays_answer, ask_outcomes,
}

-- Links 0 to 3 lead to node 7; link 0 is dead, and link 1 has a high pressure.
abbrev links : ℕ → Link
links i = record {
  remote_identity = 7;
  network = i;
  outbound = false;
  pressure_high = i == 1;
  err = if i == 0 then some 5 else none;
}

abbrev shutdown : List Event
shutdown =
    Event.adds 1
    ∷ Event.finishes 1
    ∷ Event.adds 2
    ∷ Event.close_swaps
    ∷ Event.close_lists
    ∷ Event.adds 3
    ∷ Event.finishes 3
    ∷ Event.close_next
    ∷ Event.finishes 2
    ∷ Event.close_next
    ∷ []

run-new_link_pool_example :
    let s = Shutdown.run list_set shutdown (new_link_pool list_set links) in
    (s.closing ≡ Closing.closes []
      → s.adding ≡ []
      → (contains s.added 1 || contains s.pool.links 1) ≡ true
      → is_some (s.pool.store 1).err ≡ true)
    × (contains s.added 1 ≡ true → (s.pool.store 1).err ≡ none → contains s.pool.links 1 ≡ true)
run-new_link_pool_example = run-new_link_pool list_set links shutdown 1

abbrev pool : LinkPool list_set
pool = record { closed = false; links = 0 ∷ 1 ∷ 2 ∷ []; watchers = []; store = links }

abbrev wanted : Wanted
wanted = record { target = 7; strategies = []; networks = [] }

link_choice_example :
    (select_link_with list_set 7 pool
      ≡ or_else
          (head (filter (is_calm links 7) (0 ∷ 1 ∷ 2 ∷ [])))
          (head (filter (is_usable links 7) (0 ∷ 1 ∷ 2 ∷ []))))
    × (retrieve_link list_set false wanted pool ≡ (
        let i = head (filter (λ j. matches wanted (links j) none) (0 ∷ 1 ∷ 2 ∷ [])) in
        (
          (if is_some i
              then pool
              else record pool { watchers = (record { wanted = wanted; ch = none }) ∷ [] }),
          i,
        )))
link_choice_example = link_choice list_set 7 false wanted pool

-- A link to every node; the relays 4, 5 and 6 answer with the generic code, a refusal and a writer.
abbrev route : ℕ → Answer ℕ
route link = if link == 4 then rejected 1 else if link == 5 then rejected 3 else accepted link

abbrev node : Node ℕ ℕ ℕ
node = record {
  identity = 1;
  select_link_with = λ id w. none;
  retrieve_link = λ id w. (suc w, retrieved id);
  link_route = λ link q w. (suc w, route link);
  push = λ id proof w. (w + proof, true);
  default_reject_code = 1;
}

abbrev in_flight : InFlightQuery
in_flight = record {
  caller = 2;
  target = 7;
  relay_via = some (7 ∷ 4 ∷ 5 ∷ 6 ∷ []);
  caller_proof = some 9;
}

route_relays_answer_example :
    let (w', answers) = asked node 1 in_flight (7 ∷ 4 ∷ 5 ∷ 6 ∷ []) 0 in
    (route_relays node 1 in_flight none (7 ∷ 4 ∷ 5 ∷ 6 ∷ []) 0 ≡ (w', best 1 answers))
    × (first is_accepted answers ≡ none → length answers ≡ 4)
route_relays_answer_example = route_relays_answer node 1 in_flight (7 ∷ 4 ∷ 5 ∷ 6 ∷ []) 0

ask_outcomes_example :
    let (w', reached) = reach_relay node 1 in_flight 4 0 in
    ((reached ≡ none) × (ask node 1 in_flight 4 0 ≡ (w', route_not_found)))
    ⊎ ((link : ℕ) × (reached ≡ some link)
        × (ask node 1 in_flight 4 0 ≡ node.link_route link in_flight w')
        × ((4 == 7) ≡ false)
        × ((w1 : ℕ) × IsLinked node 1 in_flight 4 0 link w1 × IsProven node 1 in_flight 4 w1 w'))
ask_outcomes_example = ask_outcomes node 1 in_flight 4 0
