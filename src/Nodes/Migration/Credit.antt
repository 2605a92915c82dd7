-- ===== src/Nodes/Migration/Credit.antt =====
-- The credit of a session across its migration. The sender's new send buffer starts without credit;
-- what it has when the session reopens is what Read frames on the old link gave it meanwhile, and
-- the peer's new buffer.
use astrald.Prelude.{ℕ, ◌+◌, ◌≡◌, ap, arith, Option, none, some, List, [], ◌∷◌, sum}
use astrald.Nodes.Callbacks.{Wire}
use astrald.Nodes.Buffers.Output
use astrald.Nodes.Session.{state_open, swap_state, set_state}
use astrald.Nodes.Session.Reader.{SessionReader}
use astrald.Nodes.Session.Writer
use astrald.Nodes.Session.Writer.{SessionWriter}
use astrald.Nodes.Mux.{SigMap, Mux}
use astrald.Nodes.Mux.Handlers.{handle_read}
use astrald.Nodes.Migration.{new_session_migrator, begin, begin_at, reopen, reopen_at}

abbrev pub credit : Option SessionWriter → ℕ
credit none = 0
credit (some w) = w.buf.wsize

module _ (maps : SigMap) {W : Type 0} (wire : Wire W) where
  -- Read frames for one nonce, in order of arrival.
  pub reads : ℕ → List ℕ → Mux maps W → Mux maps W
  reads k [] m = m
  reads k (n ∷ ns) m = reads k ns (handle_read maps wire k n m)

  begin_at-credit :
      (m : Mux maps W) (p : ℕ) (r : SessionReader) (w : SessionWriter)
      → (m.store p).state ≡ state_open
      → (m.store p).reader ≡ some r
      → (m.store p).writer ≡ some w
      → let m' = (begin_at p m).0 in
        (m'.sessions ≡ m.sessions)
        × ((m'.store p).writer
            ≡ some (Writer.swap_buf (m.store p).nonce Output.new (Writer.pause w)))
        × (credit (m'.store p).writer ≡ 0)
  unfolding begin_at new_session_migrator begin swap_state Writer.swap_buf Output.new
  begin_at-credit m p r w e f g = ground (arith, e, f, g)

  credit-reads :
      (m : Mux maps W) (k p : ℕ) (w : SessionWriter) (ns : List ℕ)
      → maps.get k m.sessions ≡ some p
      → (m.store p).writer ≡ some w
      → (w' : SessionWriter) × (((reads k ns m).store p).writer ≡ some w')
        × (w'.buf.wsize ≡ w.buf.wsize + sum ns)
  unfolding reads handle_read Writer.grow Output.grow
  credit-reads m k p w [] e f = (w, f, omega arith)
  credit-reads m k p w (n ∷ ns) e f =
      let m' = handle_read maps wire k n m in
      let (w', g, c) =
        credit-reads m' k p (Writer.grow n w) ns (ground (arith, e)) (ground (arith, e, f)) in
      (w', g, omega (arith, c))

  reopen_at-credit :
      (m : Mux maps W) (p n : ℕ) (w : SessionWriter)
      → (m.store p).writer ≡ some w
      → credit ((reopen_at p n m).store p).writer ≡ w.buf.wsize + n
  unfolding reopen_at reopen set_state Writer.resume Writer.grow Output.grow
  reopen_at-credit m p n w e = ground (arith, e)

  -- The credit with which an open session reopens after a migration is the size of the peer's new
  -- buffer and, on top of it, all that the Read frames gave which came over the old link after Begin.
  pub migration_credit :
      (m : Mux maps W) (k p n : ℕ) (r : SessionReader) (w : SessionWriter) (ns : List ℕ)
      → maps.get k m.sessions ≡ some p
      → (m.store p).state ≡ state_open
      → (m.store p).reader ≡ some r
      → (m.store p).writer ≡ some w
      → credit ((reopen_at p n (reads k ns (begin_at p m).0)).store p).writer ≡ n + sum ns
  migration_credit m k p n r w ns e o f g =
      let m' = (begin_at p m).0 in
      let (same, has, dry) = begin_at-credit m p r w o f g in
      let w0 = Writer.swap_buf (m.store p).nonce Output.new (Writer.pause w) in
      let (w', h, c) = credit-reads m' k p w0 ns (cc (same, e)) has in
      omega (arith, reopen_at-credit (reads k ns m') p n w' h, c, ap credit has, dry)
