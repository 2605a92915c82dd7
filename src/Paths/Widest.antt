-- ===== src/Paths/Widest.antt =====
-- WidestRoots: what it keeps covers as much as all the roots, with none of them under another.
use astrald.Prelude.{
  ℕ, zero, suc, ◌≤◌, ◌<◌, ◌≡◌, ◌≢◌, refl, ◌⊎◌, inl, inr, arith, Bool, true, false, not, ◌&&◌, ◌||◌,
  List, [], ◌∷◌, ◌++◌, length, length-append, if◌then◌else◌, Bool-cases,
}
use astrald.Paths.{
  same, same_iff, same_refl, has_prefix, path_under, under_other, widest_loop, widest_roots,
}

abbrev pub has : List ℕ → List (List ℕ) → Bool
has r [] = false
has r (x ∷ xs) = same x r || has r xs

-- A root's depth: nothing is above the separator alone.
abbrev rank : ℕ → List ℕ → ℕ
rank sep r = if same r (sep ∷ []) then 0 else length r

has_prefix_trans :
    (a b c : List ℕ) → has_prefix a b ≡ true → has_prefix b c ≡ true → has_prefix a c ≡ true
has_prefix_trans [] b c h k = refl
has_prefix_trans (x ∷ a) [] c h k = cc h
has_prefix_trans (x ∷ a) (y ∷ b) [] h k = cc k
has_prefix_trans (x ∷ a) (y ∷ b) (z ∷ c) h k = ground (arith, has_prefix_trans a b c)

has_prefix-append : (a b c : List ℕ) → has_prefix (a ++ b) c ≡ true → has_prefix a c ≡ true
has_prefix-append [] b c h = refl
has_prefix-append (x ∷ a) b [] h = cc h
has_prefix-append (x ∷ a) b (z ∷ c) h = ground (arith, has_prefix-append a b c)

length-has_prefix : (a b : List ℕ) → has_prefix a b ≡ true → length a ≤ length b
length-has_prefix [] b h = omega arith
length-has_prefix (x ∷ a) [] h = cc h
length-has_prefix (x ∷ a) (y ∷ b) h = ground (arith, length-has_prefix a b)

nil_or_longer : (r : List ℕ) → (r ≡ []) ⊎ (0 < length r)
nil_or_longer [] = inl refl
nil_or_longer (x ∷ r) = inr (omega arith)

-- Why one path is under another.
path_under_why :
    (p r : List ℕ) (sep : ℕ)
    → path_under p r sep ≡ true
    → (p ≡ r) ⊎ (r ≡ sep ∷ []) ⊎ (has_prefix (r ++ (sep ∷ [])) p ≡ true)
unfolding path_under
path_under_why p r sep h = ground (arith, same_iff p r, same_iff r (sep ∷ []))

path_under_refl : (p : List ℕ) (sep : ℕ) → path_under p p sep ≡ true
unfolding path_under
path_under_refl p sep = ground (arith, same_refl p)

path_under_top : (p : List ℕ) (sep : ℕ) → path_under p (sep ∷ []) sep ≡ true
unfolding path_under
path_under_top p sep = ground (arith, same_refl (sep ∷ []))

path_under_prefix :
    (p r : List ℕ) (sep : ℕ) → has_prefix (r ++ (sep ∷ [])) p ≡ true → path_under p r sep ≡ true
unfolding path_under
path_under_prefix p r sep h = ground arith

prefix_of_top : (o : List ℕ) (sep : ℕ) → has_prefix (o ++ (sep ∷ [])) (sep ∷ []) ≡ true → o ≡ []
prefix_of_top o sep h = elim (nil_or_longer o) [
  | inl e ↦ e
  | inr long ↦
      absurd (
        omega (arith, length-has_prefix (o ++ (sep ∷ [])) (sep ∷ []) h, length-append o (sep ∷ [])))
]

path_under_trans :
    (p r o : List ℕ) (sep : ℕ)
    → o ≢ []
    → path_under p r sep ≡ true
    → path_under r o sep ≡ true
    → path_under p o sep ≡ true
path_under_trans p r o sep ne h k = elim (path_under_why r o sep k) [
  | inl e ↦ cc (h, e)
  | inr (inl e) ↦ cc (path_under_top p sep, e)
  | inr (inr e) ↦ elim (path_under_why p r sep h) [
    | inl d ↦ cc (k, d)
    | inr (inl d) ↦ absurd (ne (prefix_of_top o sep (cc (e, d))))
    | inr (inr d) ↦
        path_under_prefix p o sep
          (has_prefix_trans (o ++ (sep ∷ [])) r p e (has_prefix-append r (sep ∷ []) p d))
  ]
]

rank_less :
    (r o : List ℕ) (sep : ℕ)
    → r ≢ []
    → o ≢ []
    → same r o ≡ false
    → path_under r o sep ≡ true
    → rank sep o < rank sep r
rank_less r o sep hr ho differ h = elim (path_under_why r o sep h) [
  | inl e ↦ absurd (ground (arith, e, same_iff r o))
  | inr (inl e) ↦
      ground (arith, same_iff r (sep ∷ []), same_iff o (sep ∷ []), same_iff r o, nil_or_longer r, e)
  | inr (inr e) ↦ elim (Bool-cases (same r (sep ∷ []))) [
    | inl t ↦ absurd (ho (prefix_of_top o sep (ground (arith, same_iff r (sep ∷ []), e, t))))
    | inr t ↦ ground (
      arith,
      length-has_prefix (o ++ (sep ∷ [])) r e,
      length-append o (sep ∷ []),
      nil_or_longer r,
    )
  ]
]

under_other_why :
    (sep : ℕ) (root : List ℕ) (roots : List (List ℕ))
    → under_other sep root roots ≡ true
    → (o : List ℕ) × (has o roots ≡ true) × (same root o ≡ false) × (path_under root o sep ≡ true)
unfolding under_other
under_other_why sep root [] h = cc h
under_other_why sep root (x ∷ xs) h =
    elim (Bool-cases (not (same root x) && path_under root x sep)) [
      | inl e ↦ (x, ground (arith, same_refl x), ground arith, ground arith)
      | inr e ↦
          let (o, m, d, u) = under_other_why sep root xs (ground (arith, h)) in
          (o, ground arith, d, u)
    ]

under_other_from :
    (sep : ℕ) (root o : List ℕ) (roots : List (List ℕ))
    → has o roots ≡ true
    → same root o ≡ false
    → path_under root o sep ≡ true
    → under_other sep root roots ≡ true
unfolding under_other
under_other_from sep root o [] m d u = cc m
under_other_from sep root o (x ∷ xs) m d u =
    ground (arith, under_other_from sep root o xs, same_iff x o)

has-append : (r : List ℕ) (xs ys : List (List ℕ)) → has r (xs ++ ys) ≡ has r xs || has r ys
has-append r [] ys = refl
has-append r (x ∷ xs) ys = ground (arith, has-append r xs ys)

has-widest_loop :
    (sep : ℕ) (r : List ℕ) (all rest w : List (List ℕ))
    → has r (widest_loop sep all rest w) ≡ has r w || (has r rest && not (under_other sep r all))
unfolding widest_loop
has-widest_loop sep r all [] w = ground arith
has-widest_loop sep r all (x ∷ xs) w = elim (Bool-cases (under_other sep x all)) [
  | inl e ↦ ground (arith, has-widest_loop sep r all xs w, same_iff x r)
  | inr e ↦
      ground
        (arith, has-widest_loop sep r all xs (w ++ (x ∷ [])), has-append r w (x ∷ []), same_iff x r)
]

has-widest_roots :
    (sep : ℕ) (r : List ℕ) (roots : List (List ℕ))
    → has r (widest_roots sep roots) ≡ has r roots && not (under_other sep r roots)
unfolding widest_roots
has-widest_roots sep r roots = has-widest_loop sep r roots roots []

widen :
    (n sep : ℕ) (p r : List ℕ) (roots : List (List ℕ))
    → has [] roots ≡ false
    → rank sep r < n
    → has r roots ≡ true
    → path_under p r sep ≡ true
    → (w : List ℕ) × (has w (widest_roots sep roots) ≡ true) × (path_under p w sep ≡ true)
widen zero sep p r roots full h m u = absurd (omega arith)
widen (suc n) sep p r roots full h m u = elim (Bool-cases (under_other sep r roots)) [
  | inr e ↦ (r, ground (arith, has-widest_roots sep r roots), u)
  | inl e ↦
      let (o, mo, d, uo) = under_other_why sep r roots e in
      let ne : (s : List ℕ) → has s roots ≡ true → s ≢ [] = λ s hs z. cc in
      widen n sep p o roots full (omega (arith, rank_less r o sep (ne r m) (ne o mo) d uo)) mo
        (path_under_trans p r o sep (ne o mo) u uo)
]

-- WidestRoots of roots of which none is the empty string keeps some of the roots; a path under one
-- of the roots is under one of those kept; and no kept root is under another one.
pub widest_roots_cover :
    (sep : ℕ) (roots : List (List ℕ))
    → has [] roots ≡ false
    → ((r : List ℕ) → has r (widest_roots sep roots) ≡ true → has r roots ≡ true)
      × ((p r : List ℕ)
          → has r roots ≡ true
          → path_under p r sep ≡ true
          → (w : List ℕ) × (has w (widest_roots sep roots) ≡ true) × (path_under p w sep ≡ true))
      × ((r s : List ℕ)
          → has r (widest_roots sep roots) ≡ true
          → has s (widest_roots sep roots) ≡ true
          → path_under r s sep ≡ true
          → r ≡ s)
widest_roots_cover sep roots full = (
  λ r h. ground (arith, has-widest_roots sep r roots),
  λ p r m u. widen (suc (rank sep r)) sep p r roots full (omega arith) m u,
  λ r s hr hs u. ground (
    arith,
    has-widest_roots sep r roots,
    has-widest_roots sep s roots,
    under_other_from sep r s roots,
    same_iff r s,
  ),
)
