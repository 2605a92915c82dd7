-- ===== src/Core/Conns.antt =====
-- What holds of a router's connections in every history.
use astrald.Prelude.{
  ℕ, ◌≡◌, refl, arith, ◌==◌, ltb, not, ◌&&◌, ◌||◌, Bool, true, false, Option, none, some, List, [],
  ◌∷◌, if◌then◌else◌,
}
use astrald.Sig.{SigMap}
use astrald.Core.{
  Writer, routing, routed, not_routed, Conn, new_writer, close, close_opt, begin_close, end_close,
  is_routing, Event, Router, modify, route_query, delete_conn, step, run, new_router,
}

-- A writer's Close reaches the one below it once if it was called, and else not at all.
abbrev pub closed_once : Writer → Bool
closed_once w = w.closes == (if w.closed then 1 else 0)

abbrev pub each : (Writer → Bool) → Option Writer → Bool
each f none = true
each f (some w) = f w

-- Close of the connection has run to its end.
abbrev pub is_finished : Conn → Bool
is_finished c = c.closed && not c.waiting

-- The connection is being routed, or it was routed and is not finished.
abbrev pub is_live : Conn → Bool
is_live c = elim c.phase [ routing ↦ true | routed ↦ not (is_finished c) | not_routed ↦ false ]

abbrev pub IsSound : Conn → Type 0
IsSound c =
    ((closed_once c.src && each closed_once c.dst) ≡ true)
    × ((not c.waiting || c.closed) ≡ true)
    × ((not (is_finished c)
          || (not (is_routing c.phase) && (c.src.closed && each (λ w. w.closed) c.dst)))
        ≡ true)

if-all :
    {A : Type 0} (P : A → Type 0) (b : Bool) (x y : A)
    → (b ≡ true → P x)
    → (b ≡ false → P y)
    → P (if b then x else y)
if-all P true x y p q = p refl
if-all P false x y p q = q refl

close-IsSound : (c : Conn) → IsSound c → IsSound (record c { src = close c.src })
unfolding close
close-IsSound c (o, w, f) = ground (arith, o, w, f)

close_dst-IsSound : (c : Conn) → IsSound c → IsSound (record c { dst = close_opt c.dst })
unfolding close close_opt
close_dst-IsSound c (o, w, f) = ground (arith, o, w, f)

begin_close-IsSound : (c : Conn) → IsSound c → IsSound (begin_close c)
unfolding begin_close
begin_close-IsSound c (o, w, f) = ground (arith, o, w, f)

end_close-IsSound : (c : Conn) → is_routing c.phase ≡ false → IsSound c → IsSound (end_close c)
unfolding end_close close close_opt
end_close-IsSound c p (o, w, f) = ground (arith, p, o, w, f)

succeeds-IsSound :
    (c : Conn)
    → is_routing c.phase ≡ true
    → IsSound c
    → IsSound (record c { dst = some new_writer; phase = routed })
succeeds-IsSound c p (o, w, f) = ground (arith, p, o, w, f)

fails-IsSound :
    (c : Conn) → is_routing c.phase ≡ true → IsSound c → IsSound (record c { phase = not_routed })
fails-IsSound c p (o, w, f) = ground (arith, p, o, w, f)

module _ (maps : SigMap) where
  -- What the router's map has under a nonce is a live connection with that nonce.
  abbrev lists_live : Router maps → ℕ → Bool
  lists_live r n = elim (maps.get n r.conns) [
    | none ↦ true
    | some i ↦ ltb i r.made && (((r.store i).nonce == n) && is_live (r.store i))
  ]

  modify-IsSound :
      (f : Conn → Conn) (i : ℕ) (r : Router maps)
      → ((j : ℕ) → IsSound (r.store j))
      → (IsSound (r.store i) → IsSound (f (r.store i)))
      → (j : ℕ) → IsSound ((modify maps i f r).store j)
  modify-IsSound f i r s g j =
      if-all IsSound (i == j) (f (r.store i)) (r.store j) (λ e. g (s i)) (λ e. s j)

  step-IsSound :
      (e : Event) (r : Router maps)
      → ((j : ℕ) → IsSound (r.store j))
      → (j : ℕ) → IsSound ((step maps e r).store j)
  unfolding step route_query delete_conn
  step-IsSound (Event.routes n) r s j = ground (arith, s j)
  step-IsSound (Event.succeeds i) r s j =
      if-all (λ r'. IsSound (r'.store j)) (is_routing (r.store i).phase)
        (modify maps i (λ c. record c { dst = some new_writer; phase = routed }) r) r
        (λ p.
          modify-IsSound (λ c. record c { dst = some new_writer; phase = routed }) i r s
            (succeeds-IsSound (r.store i) p) j)
        (λ p. s j)
  step-IsSound (Event.fails i) r s j =
      if-all (λ r'. IsSound (r'.store j)) (is_routing (r.store i).phase)
        (delete_conn maps i (modify maps i (λ c. record c { phase = not_routed }) r)) r
        (λ p.
          modify-IsSound (λ c. record c { phase = not_routed }) i r s (fails-IsSound (r.store i) p)
            j)
        (λ p. s j)
  step-IsSound (Event.closes_src i) r s j =
      modify-IsSound (λ c. record c { src = close c.src }) i r s (close-IsSound (r.store i)) j
  step-IsSound (Event.closes_dst i) r s j =
      modify-IsSound (λ c. record c { dst = close_opt c.dst }) i r s (close_dst-IsSound (r.store i))
        j
  step-IsSound (Event.begins_close i) r s j =
      modify-IsSound begin_close i r s (begin_close-IsSound (r.store i)) j
  step-IsSound (Event.ends_close i) r s j =
      if-all (λ r'. IsSound (r'.store j))
        ((r.store i).waiting && not (is_routing (r.store i).phase))
        (delete_conn maps i (modify maps i end_close r)) r
        (λ p. modify-IsSound end_close i r s (end_close-IsSound (r.store i) (ground (arith, p))) j)
        (λ p. s j)

  step-lists_live :
      (e : Event) (r : Router maps) (n : ℕ)
      → ((j : ℕ) → IsSound (r.store j))
      → lists_live r n ≡ true
      → lists_live (step maps e r) n ≡ true
  unfolding step route_query delete_conn begin_close end_close
  step-lists_live (Event.routes k) r n s l =
      ground (arith, l, maps.set_ok k r.made r.conns, maps.get-set k r.made r.conns n)
  step-lists_live (Event.succeeds i) r n s l = let (o, w, f) = s i in ground (arith, l, f)
  step-lists_live (Event.fails i) r n s l =
      ground (arith, l, maps.get-delete (r.store i).nonce r.conns n)
  step-lists_live (Event.closes_src i) r n s l = ground (arith, l)
  step-lists_live (Event.closes_dst i) r n s l = ground (arith, l)
  step-lists_live (Event.begins_close i) r n s l = ground (arith, l)
  step-lists_live (Event.ends_close i) r n s l =
      ground (arith, l, maps.get-delete (r.store i).nonce r.conns n)

  run-IsSound :
      (es : List Event) (r : Router maps)
      → ((j : ℕ) → IsSound (r.store j))
      → (j : ℕ) → IsSound ((run maps es r).store j)
  unfolding run
  run-IsSound [] r s j = s j
  run-IsSound (e ∷ es) r s j = run-IsSound es (step maps e r) (step-IsSound e r s) j

  run-lists_live :
      (es : List Event) (r : Router maps) (n : ℕ)
      → ((j : ℕ) → IsSound (r.store j))
      → lists_live r n ≡ true
      → lists_live (run maps es r) n ≡ true
  unfolding run
  run-lists_live [] r n s l = l
  run-lists_live (e ∷ es) r n s l =
      run-lists_live es (step maps e r) n (step-IsSound e r s) (step-lists_live e r n s l)

  new_router-IsSound : (j : ℕ) → IsSound ((new_router maps).store j)
  unfolding new_router
  new_router-IsSound j = ground arith

  new_router-lists_live : (n : ℕ) → lists_live (new_router maps) n ≡ true
  unfolding new_router
  new_router-lists_live n = ground (arith, maps.get-empty n)

  -- In every history of a router, whatever closes while queries are routed: a writer's Close reaches the
  -- writer below at most once; when Close of a connection has run to its end, the query is routed no
  -- more and both its writers are closed; and the map has under a nonce only a connection with that
  -- nonce, which is being routed or was routed and is not closed to the end.
  pub run-new_router :
      (es : List Event) (i n : ℕ)
      → let r = run maps es (new_router maps) in
        let c = r.store i in
        ((closed_once c.src && each closed_once c.dst) ≡ true)
        × (is_finished c ≡ true
            → (is_routing c.phase ≡ false)
              × (c.src.closed ≡ true)
              × (each (λ w. w.closed) c.dst ≡ true))
        × (maps.get n r.conns ≡ some i → (c.nonce ≡ n) × (is_live c ≡ true))
  run-new_router es i n =
      let (o, w, f) = run-IsSound es (new_router maps) new_router-IsSound i in
      let l = run-lists_live es (new_router maps) n new_router-IsSound (new_router-lists_live n) in
      (
        o,
        λ e. (ground (arith, e, f), ground (arith, e, f), ground (arith, e, f)),
        λ e. (ground (arith, e, l), ground (arith, e, l)),
      )
