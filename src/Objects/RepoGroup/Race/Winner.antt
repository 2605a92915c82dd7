-- ===== src/Objects/RepoGroup/Race/Winner.antt =====
-- Which answer a concurrent read returns.
use astrald.Prelude.{
  ℕ, ◌+◌, ◌≡◌, refl, sym, ap, ◌∙◌, ◌⊎◌, inl, inr, arith, true, Option, none, some, Option-cases,
  Bool-cases, List, [], ◌∷◌, ◌++◌, append-nil, append_assoc, length, ltb, ◌==◌,
}
use astrald.Objects.{ℤ, ObjectId, Error, not_found, hash_lookup_unsupported, Result, ok, err, Repo}
use astrald.Objects.RepoGroup.{LookupTally, new_tally, add, error_of, miss_err}
use astrald.Objects.RepoGroup.Answers.{is_ok, all_cannot, first, verdict, add_all, miss_err-tally}
use astrald.Objects.RepoGroup.Race.{
  Race, Event, answers, receives, sees_end, misses, closes, elapses, pick, hits, read_concurrent,
  sends, receive, close_readers, step, run, sent,
}
use astrald.Objects.RepoGroup.Race.Readers.{
  IsKept, length_none, step-IsKept, read_concurrent-IsKept,
}

module _ {A : Type 0} where
  first-append :
      (rs qs : List (Result A)) → first is_ok rs ≡ none → first is_ok (rs ++ qs) ≡ first is_ok qs
  first-append [] qs e = refl
  first-append (ok x ∷ rs) qs e = ground (arith, e)
  first-append (err d ∷ rs) qs e = first-append rs qs e

  first_stays :
      (rs qs : List (Result A)) (x : Result A)
      → first is_ok rs ≡ some x
      → first is_ok (rs ++ qs) ≡ some x
  first_stays [] qs x e = ground (arith, e)
  first_stays (ok y ∷ rs) qs x e = e
  first_stays (err d ∷ rs) qs x e = first_stays rs qs x e

  add_all-append :
      (rs : List (Result A)) (r : Result A) (t : LookupTally)
      → add_all (rs ++ (r ∷ [])) t ≡ add (error_of r) (add_all rs t)
  unfolding add_all
  add_all-append [] r t = refl
  add_all-append (q ∷ rs) r t = add_all-append rs r (add (error_of q) t)

verdict_error :
    {A : Type 0} (rs : List (Result A))
    → first is_ok rs ≡ none
    → (e : Error) × (verdict is_ok (err not_found) none rs ≡ err e)
unfolding verdict
verdict_error [] f = (not_found, refl)
verdict_error (r ∷ rs) f = elim (Bool-cases (all_cannot (r ∷ rs))) [
  | inl e ↦ (hash_lookup_unsupported, ground (arith, e, f))
  | inr e ↦ (not_found, ground (arith, e, f))
]

module _ {W R V : Type 0} (ctx_err : W → Option Error) (id : ObjectId) (offset limit : ℤ) where
  outcome_stays :
      (e : Event W) (s : Race W R V) (r : Result R)
      → s.outcome ≡ some r
      → (step ctx_err id offset limit e s).outcome ≡ some r
  unfolding step close_readers
  outcome_stays (answers i) s r o = ground (arith, o)
  outcome_stays receives s r o = ground (arith, o)
  outcome_stays sees_end s r o = ground (arith, o)
  outcome_stays misses s r o = ground (arith, o)
  outcome_stays closes s r o = ground (arith, o)
  outcome_stays (elapses f) s r o = ground (arith, o)

  all_sent :
      (e : Event W) (s : Race W R V)
      → s.running ≡ []
      → ((step ctx_err id offset limit e s).running ≡ []) × (sends ctx_err id offset limit e s ≡ [])
  unfolding step sends receive close_readers pick
  all_sent (answers i) s o = ground (arith, o)
  all_sent receives s o = ground (arith, o)
  all_sent sees_end s o = ground (arith, o)
  all_sent misses s o = ground (arith, o)
  all_sent closes s o = ground (arith, o)
  all_sent (elapses f) s o = ground (arith, o)

  -- Where a call stands when the workers have sent some answers; C holds of the context's errors.
  abbrev Standing : (Error → Type 0) → List (Result R) → Race W R V → Type 0
  Standing C log s =
      ((s.outcome ≡ none)
        × ((got : List (Result R)) × (log ≡ got ++ s.results)
            × (first is_ok got ≡ none)
            × (s.tally ≡ add_all got new_tally)))
      ⊎ ((x : R) × (s.outcome ≡ some (ok x)) × (first is_ok log ≡ some (ok x)))
      ⊎ ((e : Error) × (s.outcome ≡ some (err e))
          × (C e ⊎ ((s.running ≡ []) × (err e ≡ verdict is_ok (err not_found) none log))))

  miss_ended :
      (s : Race W R V) (e : Error)
      → (s.pending == 0) ≡ true
      → s.outcome ≡ none
      → ctx_err s.world ≡ some e
      → (step ctx_err id offset limit misses s).outcome ≡ some (err e)
  unfolding step miss_err
  miss_ended s e n o x = ground (arith, n, o, x)

  miss_dry :
      (s : Race W R V) (e : Error) (got : List (Result R))
      → (s.pending == 0) ≡ true
      → s.outcome ≡ none
      → ctx_err s.world ≡ none
      → s.tally ≡ add_all got new_tally
      → verdict is_ok (err not_found) none got ≡ err e
      → first is_ok got ≡ none
      → (step ctx_err id offset limit misses s).outcome ≡ some (err e)
  unfolding step verdict
  miss_dry s e got n o x t v f =
      let q : miss_err (ctx_err s.world) (err not_found) s.tally
          ≡ verdict is_ok (err not_found) none got =
        ground (arith, x, t, f, miss_err-tally none (err not_found) got) in
      ground (arith, n, o, q, v)

  module _ (C : Error → Type 0) where
    receives-Standing :
        (log got : List (Result R)) (s : Race W R V) (rs : List (Result R))
        → s.results ≡ rs
        → s.outcome ≡ none
        → s.pending ≡ length s.results + length s.running
        → log ≡ got ++ s.results
        → first is_ok got ≡ none
        → s.tally ≡ add_all got new_tally
        → Standing C log (step ctx_err id offset limit receives s)
    unfolding step receive
    receives-Standing log got s [] e o a l f t =
        inl (ground (arith, e, o), (got, ground (arith, e, o, l), f, ground (arith, e, o, t)))
    receives-Standing log got s (ok x ∷ rs) e o a l f t =
        inr (inl (x, ground (arith, e, o, a), cc (l, e, first-append got (ok x ∷ rs) f)))
    receives-Standing log got s (err d ∷ rs) e o a l f t = inl (
      ground (arith, e, o, a),
      (
        got ++ (err d ∷ []),
        ground (arith, e, o, a, l, append_assoc got (err d ∷ []) rs),
        cc (first-append got (err d ∷ []) f),
        ground (arith, e, o, a, t, add_all-append got (err d) new_tally),
      ),
    )

    answers-Standing :
        (i : ℕ) (log got : List (Result R)) (s : Race W R V)
        → s.outcome ≡ none
        → log ≡ got ++ s.results
        → first is_ok got ≡ none
        → s.tally ≡ add_all got new_tally
        → Standing C
            (log ++ sends ctx_err id offset limit (answers i) s)
            (step ctx_err id offset limit (answers i) s)
    unfolding step sends
    answers-Standing i log got s o l f t = inl (
      ground (arith, o),
      (
        got,
        ground (
          arith,
          l,
          append-nil log,
          append_assoc got s.results (sends ctx_err id offset limit (answers i) s),
        ),
        f,
        ground (arith, t),
      ),
    )

    sees_end-Standing :
        (log got : List (Result R)) (s : Race W R V)
        → s.outcome ≡ none
        → log ≡ got ++ s.results
        → first is_ok got ≡ none
        → s.tally ≡ add_all got new_tally
        → ((e : Error) → ctx_err s.world ≡ some e → C e)
        → Standing C log (step ctx_err id offset limit sees_end s)
    unfolding step
    sees_end-Standing log got s o l f t c = elim (Option-cases (ctx_err s.world)) [
      | inl x ↦
          inl (ground (arith, x, o), (got, ground (arith, x, o, l), f, ground (arith, x, o, t)))
      | inr (e, x) ↦ elim (Bool-cases (ltb 0 s.pending)) [
        | inl n ↦ inr (inr (e, ground (arith, n, x, o), inl (c e x)))
        | inr n ↦ inl (
          ground (arith, n, x, o),
          (got, ground (arith, n, x, o, l), f, ground (arith, n, x, o, t)),
        )
      ]
    ]

    miss-Standing :
        (log got : List (Result R)) (s : Race W R V) (h : List R)
        → IsKept h s
        → s.outcome ≡ none
        → log ≡ got ++ s.results
        → first is_ok got ≡ none
        → s.tally ≡ add_all got new_tally
        → ((e : Error) → ctx_err s.world ≡ some e → C e)
        → Standing C log (step ctx_err id offset limit misses s)
    unfolding step
    miss-Standing log got s h (k, a, i) o l f t c = elim (Bool-cases (s.pending == 0)) [
      | inr n ↦
          inl (ground (arith, n, o), (got, ground (arith, n, o, l), f, ground (arith, n, o, t)))
      | inl n ↦
          let empty = length_none s.results (ground (arith, n, o, a)) in
          let idle = length_none s.running (ground (arith, n, o, a)) in
          let same : log ≡ got = cc (l, empty, append-nil got) in
          elim (Option-cases (ctx_err s.world)) [
            | inr (e, x) ↦ inr (inr (e, miss_ended s e n o x, inl (c e x)))
            | inl x ↦
                let (e, v) = verdict_error log (ap (first is_ok) same ∙ f) in
                inr (
                  inr (
                    e,
                    miss_dry s e got n o x t (cc (ap (verdict is_ok (err not_found) none) same, v))
                        f,
                    inr (ground (arith, n, o, idle), sym v),
                  ))
          ]
    ]

    step-Standing :
        (e : Event W) (log : List (Result R)) (h : List R) (s : Race W R V)
        → IsKept h s
        → ((d : Error) → ctx_err s.world ≡ some d → C d)
        → Standing C log s
        → Standing C (log ++ sends ctx_err id offset limit e s) (step ctx_err id offset limit e s)
    unfolding step sends
    step-Standing e log h s k c (inr (inl (x, o, f))) = inr (
        inl (
          x,
          outcome_stays e s (ok x) o,
          first_stays log (sends ctx_err id offset limit e s) (ok x) f,
        ))
    step-Standing e log h s k c (inr (inr (d, o, inl y))) =
        inr (inr (d, outcome_stays e s (err d) o, inl y))
    step-Standing e log h s k c (inr (inr (d, o, inr (n, v)))) =
        let (n', q) = all_sent e s n in
        inr (inr (d, outcome_stays e s (err d) o, inr (n', cc (v, q, append-nil log))))
    step-Standing (answers i) log h s k c (inl (o, (got, l, f, t))) =
        answers-Standing i log got s o l f t
    step-Standing receives log h s (k, a, i) c (inl (o, (got, l, f, t))) =
        receives-Standing (log ++ []) got s s.results refl o (ground (arith, o, a))
          (append-nil log ∙ l) f t
    step-Standing sees_end log h s k c (inl (o, (got, l, f, t))) =
        sees_end-Standing (log ++ []) got s o (append-nil log ∙ l) f t c
    step-Standing misses log h s k c (inl (o, (got, l, f, t))) =
        miss-Standing (log ++ []) got s h k o (append-nil log ∙ l) f t c
    step-Standing closes log h s (k, a, i) c (inl (o, (got, l, f, t))) =
        let (shut, none_left) = i o in
        inl (
          ground (arith, o, none_left),
          (got, ground (arith, l, none_left, append-nil log), f, ground (arith, t, none_left)),
        )
    step-Standing (elapses g) log h s k c (inl (o, (got, l, f, t))) =
        inl (o, (got, append-nil log ∙ l, f, t))

    run-Standing :
        (es : List (Event W)) (log : List (Result R)) (h : List R) (s : Race W R V)
        → IsKept h s
        → ((es1 es2 : List (Event W)) (d : Error)
            → es ≡ es1 ++ es2
            → ctx_err (run ctx_err id offset limit es1 s).world ≡ some d
            → C d)
        → Standing C log s
        → Standing C (log ++ sent ctx_err id offset limit es s) (run ctx_err id offset limit es s)
    unfolding run sent
    run-Standing [] log h s k c st = rw (append-nil log) st
    run-Standing (e ∷ es) log h s k c st =
        let s' = step ctx_err id offset limit e s in
        let now = sends ctx_err id offset limit e s in
        let later = sent ctx_err id offset limit es s' in
        rw (← append_assoc log now later) (
          run-Standing es (log ++ now) (h ++ hits now) s'
            (step-IsKept ctx_err id offset limit e h s k)
            (λ es1 es2 d q x. c (e ∷ es1) es2 d (ap (◌∷◌ e) q) x)
            (step-Standing e log h s k (λ d x. c [] (e ∷ es) d refl x) st))

  read_concurrent-Standing :
      (C : Error → Type 0) (repos : List (Repo W R V)) (w : W)
      → ((d : Error) → ctx_err w ≡ some d → C d)
      → Standing C [] (read_concurrent ctx_err id offset limit repos w)
  unfolding read_concurrent add_all
  read_concurrent-Standing C repos w c = elim (Option-cases (ctx_err w)) [
    | inl x ↦ inl (ground (arith, x), ([], ground (arith, x), refl, ground (arith, x)))
    | inr (d, x) ↦ inr (inr (d, ground (arith, x), inl (c d x)))
  ]

  start_world :
      (repos : List (Repo W R V)) (w : W)
      → (run ctx_err id offset limit [] (read_concurrent ctx_err id offset limit repos w)).world ≡ w
  unfolding read_concurrent run
  start_world repos w = ground arith

  -- When a concurrent read has returned a reader, it is that of the first hit that the members have
  -- sent. When it has returned an error, this is the error of the context at some point of the call,
  -- or every member has answered, none with a hit, and the error is the one that a group makes of
  -- these answers.
  pub race_winner :
      (repos : List (Repo W R V)) (w : W) (es : List (Event W)) (r : Result R)
      → let s0 = read_concurrent ctx_err id offset limit repos w in
        let s = run ctx_err id offset limit es s0 in
        let log = sent ctx_err id offset limit es s0 in
        s.outcome ≡ some r
        → ((x : R) × (r ≡ ok x) × (first is_ok log ≡ some (ok x)))
          ⊎ ((d : Error) × (r ≡ err d)
              × (((es1 es2 : List (Event W)) × (es ≡ es1 ++ es2)
                    × (ctx_err (run ctx_err id offset limit es1 s0).world ≡ some d))
                  ⊎ ((s.running ≡ []) × (err d ≡ verdict is_ok (err not_found) none log))))
  race_winner repos w es r o =
      let s0 = read_concurrent ctx_err id offset limit repos w in
      let C : Error → Type 0 = λ d.
        ((es1 es2 : List (Event W)) × (es ≡ es1 ++ es2)
          × (ctx_err (run ctx_err id offset limit es1 s0).world ≡ some d)) in
      elim (run-Standing C es [] [] s0 (read_concurrent-IsKept ctx_err id offset limit repos w)
        (λ es1 es2 d q x. (es1, es2, q, x))
        (read_concurrent-Standing C repos w
          (λ d x. ([], es, refl, ap ctx_err (start_world repos w) ∙ x)))) [
            | inl (n, rest) ↦ ground (arith, n, o)
            | inr (inl (x, q, f)) ↦ inl (x, ground (arith, q, o), f)
            | inr (inr (d, q, y)) ↦ inr (d, ground (arith, q, o), y)
          ]
