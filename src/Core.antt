-- ===== src/Core.antt =====
-- core/router.go and core/conn.go: the connections that a node's router tracks. A connection's mutex is
-- held while its query is routed; Close wins the swap of `closed` first and then waits for it. The
-- router that decides where a query goes is not part of the repository: its verdict is an event.
pub mod Conns
mod Tests
use astrald.Prelude.{
  update, ℕ, zero, suc, ◌==◌, ltb, not, ◌&&◌, ◌||◌, Bool, true, false, Option, none, some, List, [],
  ◌∷◌, if◌then◌else◌,
}
use astrald.Sig.{SigMap}

-- writer, with the number of calls of Close on the writer below it.
pub record Writer : Type 0 where
  pub closed : Bool
  pub closes : ℕ

-- Where routeQuery stands: before the router's verdict, past it with a target, past it with an error.
pub data Phase : Type 0 where
  routing routed not_routed : Phase

-- conn; `waiting` says that a Close has swapped `closed` and still waits for the mutex.
pub record Conn : Type 0 where
  pub nonce : ℕ
  pub src : Writer
  pub dst : Option Writer
  pub closed : Bool
  pub waiting : Bool
  pub phase : Phase

abbrev pub new_writer : Writer
new_writer = record { closed = false; closes = 0 }

-- newConn
abbrev new_conn : ℕ → Conn
new_conn nonce = record {
  nonce = nonce;
  src = new_writer;
  dst = none;
  closed = false;
  waiting = false;
  phase = routing;
}

-- writer.close
unfoldable pub close : Writer → Writer
close w = if w.closed then w else record w { closed = true; closes = suc w.closes }

unfoldable pub close_opt : Option Writer → Option Writer
close_opt none = none
close_opt (some w) = some (close w)

-- conn.Close up to the mutex.
unfoldable pub begin_close : Conn → Conn
begin_close c = if c.closed then c else record c { closed = true; waiting = true }

-- conn.Close under the mutex, but for the map.
unfoldable pub end_close : Conn → Conn
end_close c = record c { src = close c.src; dst = close_opt c.dst; waiting = false }

abbrev pub is_routing : Phase → Bool
is_routing routing = true
is_routing routed = false
is_routing not_routed = false

-- A query with a nonce comes in; the router answers for a connection; the first part of Close of the
-- source's and the target's writer; the two parts of Close of the connection.
pub data Event : Type 0 where
  routes succeeds fails closes_src closes_dst begins_close ends_close : ℕ → Event

module _ (maps : SigMap) where
  -- Router, with a store of all connections that it has made; `made` counts them.
  pub record Router : Type 0 where
    pub conns : maps.Map
    pub store : ℕ → Conn
    pub made : ℕ

  abbrev pub modify : ℕ → (Conn → Conn) → Router → Router
  modify i f r = record r { store = update r.store i (f (r.store i)) }

  -- routeQuery up to the router; a nonce that is in use is refused.
  unfoldable pub route_query : ℕ → Router → Router
  route_query nonce r =
      let (conns', stored) = maps.set nonce r.made r.conns in
      if stored
      then record r {
        conns = conns';
        store = update r.store r.made (new_conn nonce);
        made = suc r.made;
      }
      else record r { conns = conns' }

  unfoldable pub delete_conn : ℕ → Router → Router
  delete_conn i r = record r { conns = (maps.delete (r.store i).nonce r.conns).0 }

  unfoldable pub step : Event → Router → Router
  step (routes nonce) r = route_query nonce r
  step (succeeds i) r =
      if is_routing (r.store i).phase
      then modify i (λ c. record c { dst = some new_writer; phase = routed }) r
      else r
  step (fails i) r =
      if is_routing (r.store i).phase
      then delete_conn i (modify i (λ c. record c { phase = not_routed }) r)
      else r
  step (closes_src i) r = modify i (λ c. record c { src = close c.src }) r
  step (closes_dst i) r = modify i (λ c. record c { dst = close_opt c.dst }) r
  step (begins_close i) r = modify i begin_close r
  step (ends_close i) r =
      if (r.store i).waiting && not (is_routing (r.store i).phase)
      then delete_conn i (modify i end_close r)
      else r

  unfoldable pub run : List Event → Router → Router
  run [] r = r
  run (e ∷ es) r = run es (step e r)

  -- NewRouter; a connection that is not made yet is none that routes.
  unfoldable pub new_router : Router
  new_router = record {
    conns = maps.empty;
    store = λ i. record (new_conn 0) { phase = not_routed };
    made = 0;
  }
