-- ===== src/Core/Tests.antt =====
-- A router whose map is a list.
use astrald.Prelude.{◌≡◌, ◌&&◌, true, false, some, List, [], ◌∷◌}
use astrald.Nodes.Tests.AssocMap.{assoc_map}
use astrald.Core.{Event, run, new_router, is_routing}
use astrald.Core.Conns.{closed_once, each, is_finished, is_live, run-new_router}

-- The source closes while its query is routed; another query fails.
abbrev history : List Event
history =
    Event.routes 5
    ∷ Event.closes_src 0
    ∷ Event.begins_close 0
    ∷ Event.routes 6
    ∷ Event.fails 1
    ∷ Event.succeeds 0
    ∷ Event.ends_close 0
    ∷ Event.closes_dst 0
    ∷ []

run-new_router_example :
    let r = run assoc_map history (new_router assoc_map) in
    let c = r.store 0 in
    ((closed_once c.src && each closed_once c.dst) ≡ true)
    × (is_finished c ≡ true
        → (is_routing c.phase ≡ false)
          × (c.src.closed ≡ true)
          × (each (λ w. w.closed) c.dst ≡ true))
    × (assoc_map.get 5 r.conns ≡ some 0 → (c.nonce ≡ 5) × (is_live c ≡ true))
run-new_router_example = run-new_router assoc_map history 0 5
