-- ===== src/Nat/Lifecycle.antt =====
-- How locking ends, in a round of the loop with no other goroutine in between.
