-- ===== src/Paths/Clean.antt =====
-- On clean absolute paths (no empty, "." or ".." segment, no separator at the end) PathTrie and
-- PathUnder agree.
use astrald.Prelude.{
  ℕ, ◌≡◌, refl, inl, inr, arith, Bool, true, false, ◌&&◌, ◌||◌, some, List, [], ◌∷◌, ◌++◌,
  append_assoc, append-nil, is_nil, contains, All,
}
use astrald.Paths.{same, same_iff, same_refl, has_prefix, path_under}
use astrald.Paths.PathTrie.{
  PathTrie, is_absolute, split, dot, dot_dot, add_part, normalize, new_path_trie, covers,
}
use astrald.Paths.Coverage.{segments, begins, is_covered, all_absolute, new_path_trie-covers}

abbrev pub IsClean : ℕ → List ℕ → Type 0
IsClean sep part =
    (is_nil part ≡ false)
    × (same part dot ≡ false)
    × (same part dot_dot ≡ false)
    × (contains part sep ≡ false)

-- The segments, each behind a separator.
abbrev pub body : ℕ → List (List ℕ) → List ℕ
body sep [] = []
body sep (p ∷ ps) = sep ∷ (p ++ body sep ps)

-- The clean path of these segments.
abbrev pub join : ℕ → List (List ℕ) → List ℕ
join sep [] = sep ∷ []
join sep (p ∷ ps) = body sep (p ∷ ps)

abbrev pub joins : ℕ → List (List (List ℕ)) → List (List ℕ)
joins sep [] = []
joins sep (b ∷ bs) = join sep b ∷ joins sep bs

-- Whether PathUnder puts the path under one of the roots.
abbrev pub under_any : ℕ → List ℕ → List (List ℕ) → Bool
under_any sep path [] = false
under_any sep path (r ∷ rs) = path_under path r sep || under_any sep path rs

split-body :
    (sep : ℕ) (p : List ℕ) (ps : List (List ℕ))
    → contains p sep ≡ false
    → All (IsClean sep) ps
    → split sep (p ++ body sep ps) ≡ p ∷ ps
unfolding split
split-body sep [] [] h hs = refl
split-body sep [] (q ∷ qs) h hs = ground (arith, split-body sep q qs hs.0.3 hs.1)
split-body sep (c ∷ p) ps h hs = ground (arith, split-body sep p ps (ground arith) hs)

normalize-clean :
    (sep : ℕ) (acc ps : List (List ℕ)) → All (IsClean sep) ps → normalize acc ps ≡ acc ++ ps
unfolding normalize add_part
normalize-clean sep acc [] h = ground (arith, append-nil acc)
normalize-clean sep acc (p ∷ ps) h =
    ground (arith, h.0, normalize-clean sep (acc ++ (p ∷ [])) ps h.1, append_assoc acc (p ∷ []) ps)

segments-join :
    (sep : ℕ) (ps : List (List ℕ)) → All (IsClean sep) ps → segments sep (join sep ps) ≡ ps
unfolding normalize add_part split
segments-join sep [] h = ground arith
segments-join sep (p ∷ ps) h =
    ground (arith, split-body sep p ps h.0.3 h.1, normalize-clean sep [] (p ∷ ps) h)

-- What can follow a segment.
abbrev IsTail : ℕ → List ℕ → Type 0
IsTail sep [] = Unit {0}
IsTail sep (x ∷ xs) = x ≡ sep

body-IsTail : (sep : ℕ) (ps : List (List ℕ)) → IsTail sep (body sep ps)
body-IsTail sep [] = tt
body-IsTail sep (p ∷ ps) = refl

same-append :
    (sep : ℕ) (p q s t : List ℕ)
    → contains p sep ≡ false
    → contains q sep ≡ false
    → IsTail sep s
    → IsTail sep t
    → same (p ++ s) (q ++ t) ≡ same p q && same s t
same-append sep [] [] s t hp hq hs ht = refl
same-append sep [] (y ∷ q) [] t hp hq hs ht = refl
same-append sep [] (y ∷ q) (x ∷ s) t hp hq hs ht = ground (arith, hs)
same-append sep (x ∷ p) [] s [] hp hq hs ht = refl
same-append sep (x ∷ p) [] s (y ∷ t) hp hq hs ht = ground (arith, ht)
same-append sep (x ∷ p) (y ∷ q) s t hp hq hs ht =
    ground (arith, same-append sep p q s t (ground arith) (ground arith) hs ht)

has_prefix-segment :
    (sep : ℕ) (q p t s : List ℕ)
    → contains p sep ≡ false
    → contains q sep ≡ false
    → IsTail sep s
    → has_prefix (q ++ (sep ∷ t)) (p ++ s) ≡ same p q && has_prefix (sep ∷ t) s
has_prefix-segment sep [] [] t s hp hq hs = refl
has_prefix-segment sep [] (x ∷ p) t s hp hq hs = ground arith
has_prefix-segment sep (y ∷ q) [] t [] hp hq hs = refl
has_prefix-segment sep (y ∷ q) [] t (x ∷ s) hp hq hs = ground (arith, hs)
has_prefix-segment sep (y ∷ q) (x ∷ p) t s hp hq hs =
    ground (arith, has_prefix-segment sep q p t s (ground arith) (ground arith) hs)

-- The body of a path, with the separator that PathUnder puts behind it, begins with a separator.
closed_body : (sep : ℕ) (ps : List (List ℕ)) → (t : List ℕ) × (body sep ps ++ (sep ∷ []) ≡ sep ∷ t)
closed_body sep [] = ([], refl)
closed_body sep (p ∷ ps) = ((p ++ body sep ps) ++ (sep ∷ []), refl)

under_body :
    (sep : ℕ) (a b : List (List ℕ))
    → All (IsClean sep) a
    → All (IsClean sep) b
    → same (body sep a) (body sep b) || has_prefix (body sep b ++ (sep ∷ [])) (body sep a)
      ≡ begins b a
under_body sep [] [] ha hb = refl
under_body sep (p ∷ a) [] ha hb = ground arith
under_body sep [] (q ∷ b) ha hb = refl
under_body sep (p ∷ a) (q ∷ b) ha hb =
    let (t, e) = closed_body sep b in
    ground (
      arith,
      ha.0,
      hb.0,
      e,
      under_body sep a b ha.1 hb.1,
      append_assoc q (body sep b) (sep ∷ []),
      same-append sep p q (body sep a) (body sep b) ha.0.3 hb.0.3 (body-IsTail sep a)
          (body-IsTail sep b),
      has_prefix-segment sep q p t (body sep a) ha.0.3 hb.0.3 (body-IsTail sep a),
      same_iff p q,
      same_iff q p,
    )

path_under-join :
    (sep : ℕ) (a b : List (List ℕ))
    → All (IsClean sep) a
    → All (IsClean sep) b
    → path_under (join sep a) (join sep b) sep ≡ begins b a
unfolding path_under
path_under-join sep a [] ha hb = ground (arith, same_refl (sep ∷ []))
path_under-join sep [] ([] ∷ b) ha hb = cc hb.0.0
path_under-join sep [] ((y ∷ q) ∷ b) ha hb = ground arith
path_under-join sep (p ∷ a) ([] ∷ b) ha hb = cc hb.0.0
path_under-join sep (p ∷ a) ((y ∷ q) ∷ b) ha hb =
    ground (arith, under_body sep (p ∷ a) ((y ∷ q) ∷ b) ha hb)

is_absolute-join : (sep : ℕ) (a : List (List ℕ)) → is_absolute sep (join sep a) ≡ true
unfolding is_absolute
is_absolute-join sep [] = ground arith
is_absolute-join sep (p ∷ a) = ground arith

all_absolute-joins : (sep : ℕ) (bs : List (List (List ℕ))) → all_absolute sep (joins sep bs) ≡ true
all_absolute-joins sep [] = refl
all_absolute-joins sep (b ∷ bs) = ground (arith, is_absolute-join sep b, all_absolute-joins sep bs)

is_covered-joins :
    (sep : ℕ) (bs : List (List (List ℕ))) (a : List (List ℕ))
    → All (All (IsClean sep)) bs
    → All (IsClean sep) a
    → is_covered sep (joins sep bs) (join sep a) ≡ under_any sep (join sep a) (joins sep bs)
is_covered-joins sep [] a hb ha = refl
is_covered-joins sep (b ∷ bs) a hb ha = ground (
  arith,
  segments-join sep b hb.0,
  segments-join sep a ha,
  path_under-join sep a b ha hb.0,
  is_covered-joins sep bs a hb.1 ha,
)

-- Over clean absolute paths a PathTrie is PathUnder made fast: NewPathTrie of such roots succeeds,
-- and Covers of such a path says whether PathUnder puts it under one of them, so a root "/ab" covers
-- "/ab/c" and not "/abc".
pub new_path_trie-path_under :
    (sep : ℕ) (bs : List (List (List ℕ))) (a : List (List ℕ))
    → All (All (IsClean sep)) bs
    → All (IsClean sep) a
    → (t : PathTrie) × (new_path_trie (joins sep bs) sep ≡ some t)
      × (covers sep (join sep a) t ≡ some (under_any sep (join sep a) (joins sep bs)))
new_path_trie-path_under sep bs a hb ha = elim (new_path_trie-covers sep (joins sep bs)) [
  | inl (bad, e) ↦ cc (bad, all_absolute-joins sep bs)
  | inr (good, (t, e, h)) ↦ (
    t,
    e,
    ground (arith, h (join sep a), is_absolute-join sep a, is_covered-joins sep bs a hb ha),
  )
]
