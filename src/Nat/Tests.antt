-- ===== src/Nat/Tests.antt =====
-- A hole that is locked while a ping is outstanding, and a lock that races an expiry.
use astrald.Prelude.{◌++◌, ℕ, ◌<◌, ◌≡◌, refl, true, false, List, [], ◌∷◌, length, if◌then◌else◌}
use astrald.Nat.{
  has_key, without, PingMap, Config, Hole, new_hole, begin_lock, swap_in_locking, swap_locked,
  is_over, round,
}
use astrald.Nat.Interleaving.{
  Event, begins, finalizes, expires, advances, outside, can_follow, act, enter, start_locking,
  finish_locking, run, step, start,
}
use astrald.Nat.Interleaving.Safety.{run-new_hole}

abbrev set : ℕ → ℕ → List (ℕ × ℕ) → List (ℕ × ℕ)
set k v m = if has_key k m then m else (k, v) ∷ m

abbrev list_map : PingMap
list_map = record {
  Map = List (ℕ × ℕ);
  empty = [];
  entries = λ m. m;
  len = λ m. length m;
  set = set;
  delete = λ k m. (without k m, has_key k m);
  entries-empty = refl;
  len-entries = λ m. refl;
  entries-set = λ k v m. refl;
  entries-delete = λ k m. refl;
  delete_found = λ k m. refl;
}

abbrev config : Config
config = record {
  is_pinger = true;
  ping_interval = 10;
  no_ping_timeout = 150;
  ping_lifespan = 50;
  lock_timeout = 100;
  max_ping_fails = 5;
}

-- A ping under nonce 7 goes out, then the lock begins.
abbrev locking : Hole list_map
locking =
    (begin_lock list_map 1005 (round list_map config 1000 [] 7 true (new_hole list_map 990))).0

-- A lock begins and is finalized by one goroutine while another one expires the hole; both look at
-- lockedCh before one of them closes it.
abbrev race : List (Event list_map)
race =
    begins 0 5
    ∷ advances 0
    ∷ finalizes 1
    ∷ expires 2
    ∷ advances 1
    ∷ advances 2
    ∷ advances 1
    ∷ advances 2
    ∷ advances 1
    ∷ advances 2
    ∷ advances 1
    ∷ []

-- What the other goroutine does then.
abbrev race_end : List (Event list_map)
race_end = advances 2 ∷ advances 2 ∷ []

run-new_hole_example :
    let w = run list_map race (start list_map 0) in
    let h = w.hole in
    (h.conn_open ≡ false → is_over h.state ≡ true)
    × (0 < h.locked_closes → is_over h.state ≡ true)
    × (((i : ℕ) → w.threads i ≡ outside)
        → is_over h.state ≡ true
        → (h.conn_open ≡ false) × (0 < h.locked_closes))
    × (can_follow h.state (run list_map (race ++ race_end) (start list_map 0)).hole.state ≡ true)
run-new_hole_example = run-new_hole list_map 0 race race_end

-- The second close of lockedCh, which panics.
closed_twice : (run list_map (race ++ race_end) (start list_map 0)).hole.locked_closes ≡ 2
unfolding run step enter start_locking finish_locking act swap_in_locking swap_locked new_hole
closed_twice = refl
