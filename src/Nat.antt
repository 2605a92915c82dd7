-- ===== src/Nat.antt =====
-- mod/nat/src/hole.go: a punched UDP hole, kept alive by pings until it is locked for its consumer or
-- expires. Times are nanoseconds; each step is given the time at which it is made.
use astrald.Prelude.{
  ℕ, suc, ◌-◌, ◌≡◌, ◌==◌, ltb, leb, not, ◌&&◌, ◌||◌, Bool, true, false, Option, none, some, List,
  [], ◌∷◌, ◌++◌, length, if◌then◌else◌,
}
pub mod Lifecycle
pub mod Interleaving
mod Tests

pub data HoleState : Type 0 where
  state_idle state_in_locking state_locked state_expired : HoleState

abbrev pub has_key : ℕ → List (ℕ × ℕ) → Bool
has_key k [] = false
has_key k ((j, v) ∷ m) = (j == k) || has_key k m

abbrev pub without : ℕ → List (ℕ × ℕ) → List (ℕ × ℕ)
without k [] = []
without k ((j, v) ∷ m) = if j == k then without k m else (j, v) ∷ without k m

-- sig.Map from nonces to times, which is not part of the repository, by the entries of its Clone.
pub record PingMap : Type 1 where
  pub Map : Type 0
  pub empty : Map
  pub entries : Map → List (ℕ × ℕ)
  pub len : Map → ℕ
  pub set : ℕ → ℕ → Map → Map
  pub delete : ℕ → Map → Map × Bool
  pub entries-empty : entries empty ≡ []
  pub len-entries : (m : Map) → len m ≡ length (entries m)
  pub entries-set :
      (k v : ℕ) (m : Map)
      → entries (set k v m) ≡ (if has_key k (entries m) then entries m else (k, v) ∷ entries m)
  pub entries-delete : (k : ℕ) (m : Map) → entries (delete k m).0 ≡ without k (entries m)
  pub delete_found : (k : ℕ) (m : Map) → (delete k m).1 ≡ has_key k (entries m)

pub record Config : Type 0 where
  pub is_pinger : Bool
  pub ping_interval : ℕ
  pub no_ping_timeout : ℕ
  pub ping_lifespan : ℕ
  pub lock_timeout : ℕ
  pub max_ping_fails : ℕ

-- WithPingInterval
unfoldable with_ping_interval : ℕ → Config → Config
with_ping_interval x c = record c { ping_interval = x }

-- WithNoPingTimeout
unfoldable with_no_ping_timeout : ℕ → Config → Config
with_no_ping_timeout x c = record c { no_ping_timeout = x }

-- WithPingLifespan
unfoldable with_ping_lifespan : ℕ → Config → Config
with_ping_lifespan x c = record c { ping_lifespan = x }

-- WithLockTimeout
unfoldable with_lock_timeout : ℕ → Config → Config
with_lock_timeout x c = record c { lock_timeout = x }

-- WithMaxPingFails
unfoldable with_max_ping_fails : ℕ → Config → Config
with_max_ping_fails x c = record c { max_ping_fails = x }

pub record PingEvent : Type 0 where
  pub nonce : ℕ
  pub pong : Bool

-- `conn_open` says whether the socket is open, `locked_closes` counts the closes of lockedCh,
-- `expirations` the calls of onHoleExpire, `wakes` is whether wakeCh holds a signal. The last three
-- are the locals of run.
pub record Hole (maps : PingMap) : Type 0 where
  pub state : HoleState
  pub lock_start : ℕ
  pub last_ping : ℕ
  pub pings : maps.Map
  pub conn_open : Bool
  pub locked_closes : ℕ
  pub expirations : ℕ
  pub wakes : Bool
  pub pongs_sent : List ℕ
  pub running : Bool
  pub fail_count : ℕ
  pub last_ping_sent : Option ℕ

abbrev pub is_over : HoleState → Bool
is_over state_idle = false
is_over state_in_locking = false
is_over state_locked = true
is_over state_expired = true

module _ (maps : PingMap) where
  -- newHole, with the time of its making.
  unfoldable pub new_hole : ℕ → Hole maps
  new_hole now = record {
    state = state_idle;
    lock_start = 0;
    last_ping = now;
    pings = maps.empty;
    conn_open = true;
    locked_closes = 0;
    expirations = 0;
    wakes = false;
    pongs_sent = [];
    running = true;
    fail_count = 0;
    last_ping_sent = none;
  }

  -- wake
  abbrev pub wake : Hole maps → Hole maps
  wake h = record h { wakes = true }

  -- Delete of each key of a Clone.
  unfoldable pub delete_all : List (ℕ × ℕ) → maps.Map → maps.Map
  delete_all [] m = m
  delete_all ((k, v) ∷ clone) m = delete_all clone (maps.delete k m).0

  -- The select that closes lockedCh once.
  unfoldable pub close_locked : Hole maps → Hole maps
  close_locked h = if h.locked_closes == 0 then record h { locked_closes = 1 } else h

  -- The steps of BeginLock, finalizeLock and Expire, which take no common lock: other goroutines may
  -- come in between. The two CompareAndSwap say whether they were made.
  unfoldable pub swap_in_locking : Hole maps → Hole maps × Bool
  swap_in_locking h = elim h.state [
    | state_idle ↦ (record h { state = state_in_locking }, true)
    | _ ↦ (h, false)
  ]

  unfoldable pub swap_locked : Hole maps → Hole maps × Bool
  swap_locked h = elim h.state [
    | state_in_locking ↦ (record h { state = state_locked }, true)
    | _ ↦ (h, false)
  ]

  abbrev pub store_start : ℕ → Hole maps → Hole maps
  store_start now h = record h { lock_start = now }

  abbrev pub store_expired : Hole maps → Hole maps
  store_expired h = record h { state = state_expired }

  abbrev pub clear_pings : Hole maps → Hole maps
  clear_pings h = record h { pings = delete_all (maps.entries h.pings) h.pings }

  abbrev pub close_conn : Hole maps → Hole maps
  close_conn h = record h { conn_open = false }

  -- BeginLock, when nothing comes between its steps.
  unfoldable pub begin_lock : ℕ → Hole maps → Hole maps × Bool
  begin_lock now h =
      let (h', swapped) = swap_in_locking h in
      if swapped then (wake (store_start now h'), true) else (h, false)

  -- finalizeLock, when nothing comes between its steps.
  unfoldable pub finalize_lock : Hole maps → Hole maps × Bool
  finalize_lock h =
      let (h', swapped) = swap_locked h in
      if swapped then (close_locked (close_conn (clear_pings h')), true) else (h, false)

  -- Expire, when nothing comes between its steps.
  unfoldable pub expire : Hole maps → Hole maps
  expire h =
      let told = close_locked (clear_pings (close_conn (store_expired h))) in
      wake (record told { expirations = suc told.expirations })

  -- handlePing
  unfoldable pub handle_ping : ℕ → PingEvent → Hole maps → Hole maps
  handle_ping now ev h =
      let seen : Hole maps = record h { last_ping = now } in
      let (pings', found) = maps.delete ev.nonce h.pings in
      if is_over h.state
      then h
      else if ev.pong
      then (if found then wake (record seen { pings = pings' }) else record seen { pings = pings' })
      else record seen { pongs_sent = seen.pongs_sent ++ (ev.nonce ∷ []) }

  -- drainEvents
  unfoldable pub drain_events : ℕ → List PingEvent → Hole maps → Hole maps
  drain_events now [] h = h
  drain_events now (ev ∷ evs) h = drain_events now evs (handle_ping now ev h)

  -- sendPing under a new nonce; whether the socket takes it is given.
  unfoldable pub send_ping : ℕ → ℕ → Hole maps → Hole maps
  send_ping now nonce h = record h { pings = maps.set nonce now h.pings }

  unfoldable pub expire_list : ℕ → ℕ → List (ℕ × ℕ) → maps.Map → maps.Map
  expire_list lifespan now [] m = m
  expire_list lifespan now ((k, ts) ∷ clone) m =
      expire_list lifespan now clone (if ltb lifespan (now - ts) then (maps.delete k m).0 else m)

  -- expirePings
  unfoldable pub expire_pings : Config → ℕ → Hole maps → Hole maps
  expire_pings c now h = record h {
    pings = expire_list c.ping_lifespan now (maps.entries h.pings) h.pings;
  }

  -- lockTimedOut
  unfoldable pub lock_timed_out : Config → ℕ → Hole maps → Bool
  lock_timed_out c now h = ltb c.lock_timeout (now - h.lock_start)

  -- The end of run.
  abbrev pub stop : Hole maps → Hole maps
  stop h = record h { running = false }

  abbrev is_due : Config → ℕ → Option ℕ → Bool
  is_due c now none = true
  is_due c now (some sent) = leb c.ping_interval (now - sent)

  -- run in state idle, after expirePings.
  unfoldable pub idle_round : Config → ℕ → ℕ → Bool → Hole maps → Hole maps
  idle_round c now nonce sent h =
      let tried = send_ping now nonce h in
      let failed : Hole maps = record tried { fail_count = suc tried.fail_count } in
      if ltb c.no_ping_timeout (now - h.last_ping)
      then stop (expire h)
      else if not (c.is_pinger && is_due c now h.last_ping_sent)
      then h
      else if sent
      then record tried { fail_count = 0; last_ping_sent = some now }
      else if leb c.max_ping_fails failed.fail_count
      then stop (expire failed)
      else failed

  -- run in state in_locking, after expirePings.
  unfoldable pub locking_round : Config → ℕ → Hole maps → Hole maps
  locking_round c now h =
      if maps.len h.pings == 0
      then stop (finalize_lock h).0
      else if lock_timed_out c now h
      then stop (expire h)
      else h

  -- The switch of run.
  unfoldable pub switch_state : Config → ℕ → ℕ → Bool → Hole maps → Hole maps
  switch_state c now nonce sent h = elim h.state [
    | state_idle ↦ idle_round c now nonce sent (expire_pings c now h)
    | state_in_locking ↦ locking_round c now (expire_pings c now h)
    | state_locked ↦ stop h
    | state_expired ↦ stop h
  ]

  -- A round of run down to its select, with the events that have come.
  unfoldable pub round : Config → ℕ → List PingEvent → ℕ → Bool → Hole maps → Hole maps
  round c now evs nonce sent h = switch_state c now nonce sent (drain_events now evs h)

  -- WaitLocked returns, with ErrHoleCantLock or without, or waits for lockedCh.
  unfoldable wait_locked : Hole maps → Option Bool
  wait_locked h = elim h.state [
    | state_locked ↦ some true
    | _ ↦ if h.locked_closes == 0 then none else some false
  ]

  -- IsIdle
  unfoldable is_idle : Hole maps → Bool
  is_idle h = elim h.state [ state_idle ↦ true | _ ↦ false ]

  -- IsExpired
  unfoldable is_expired : Hole maps → Bool
  is_expired h = elim h.state [ state_expired ↦ true | _ ↦ false ]

  -- IsLocked
  unfoldable is_locked : Hole maps → Bool
  is_locked h = elim h.state [ state_locked ↦ true | _ ↦ false ]
