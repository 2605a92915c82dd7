-- ===== src/Paths/Coverage.antt =====
-- What a PathTrie covers: the paths whose segments begin with those of an inserted path.
use astrald.Prelude.{
  ℕ, ◌≡◌, refl, ◌⊎◌, inl, inr, arith, Bool, true, false, ◌&&◌, ◌||◌, none, some, List, [], ◌∷◌,
  ◌++◌, is_nil, if◌then◌else◌, All, Bool-cases, Option-cases,
}
use astrald.Paths.{same, same_iff}
use astrald.Paths.PathTrie.{
  PathTrie, Children, trie, no_child, child, is_end, covers_all, children, new, or_new, find, store,
  is_absolute, split, dot, dot_dot, drop_last, add_part, normalize, split_path, insert_parts,
  is_root, insert, insert_all, new_path_trie, covers_parts, covers,
}

-- The segments of an absolute path.
abbrev pub segments : ℕ → List ℕ → List (List ℕ)
segments sep path = normalize [] (split sep path)

abbrev pub begins : List (List ℕ) → List (List ℕ) → Bool
begins [] q = true
begins (s ∷ p) [] = false
begins (s ∷ p) (r ∷ q) = same s r && begins p q

-- Whether one of the paths is `path` or above it, segment by segment.
abbrev pub is_covered : ℕ → List (List ℕ) → List ℕ → Bool
is_covered sep [] path = false
is_covered sep (p ∷ ps) path = begins (segments sep p) (segments sep path) || is_covered sep ps path

abbrev pub all_absolute : ℕ → List (List ℕ) → Bool
all_absolute sep [] = true
all_absolute sep (p ∷ ps) = is_absolute sep p && all_absolute sep ps

abbrev IsPart : List ℕ → Type 0
IsPart part = is_nil part ≡ false

drop_last-parts : (xs : List (List ℕ)) → All IsPart xs → All IsPart (drop_last xs)
drop_last-parts [] h = h
drop_last-parts (x ∷ []) h = h.1
drop_last-parts (x ∷ y ∷ ys) h = (h.0, drop_last-parts (y ∷ ys) h.1)

snoc-parts :
    (xs : List (List ℕ)) (p : List ℕ) → All IsPart xs → IsPart p → All IsPart (xs ++ (p ∷ []))
snoc-parts [] p h hp = (hp, h)
snoc-parts (x ∷ xs) p h hp = (h.0, snoc-parts xs p h.1 hp)

add_part-parts : (xs : List (List ℕ)) (p : List ℕ) → All IsPart xs → All IsPart (add_part xs p)
unfolding add_part
add_part-parts xs p h = elim (Bool-cases (is_nil p)) [
  | inl e ↦ rw (e, add_part) h
  | inr e ↦ elim (Bool-cases (same p dot)) [
    | inl d ↦ rw (e, add_part, d) h
    | inr d ↦ elim (Bool-cases (same p dot_dot)) [
      | inl dd ↦ rw (e, add_part, d, dd) (drop_last-parts xs h)
      | inr dd ↦ rw (e, add_part, d, dd) (snoc-parts xs p h e)
    ]
  ]
]

normalize-parts : (xs ps : List (List ℕ)) → All IsPart xs → All IsPart (normalize xs ps)
unfolding normalize
normalize-parts xs [] h = h
normalize-parts xs (p ∷ ps) h = normalize-parts (add_part xs p) ps (add_part-parts xs p h)

find-store :
    (s r : List ℕ) (t : PathTrie) (c : Children)
    → find r (store s t c) ≡ (if same s r then some t else find r c)
unfolding find store
find-store s r t no_child = refl
find-store s r t (child name u rest) =
    ground (arith, find-store s r t rest, same_iff name s, same_iff name r, same_iff s r)

covers_parts-new : (q : List (List ℕ)) → covers_parts q new ≡ false
unfolding covers_parts find
covers_parts-new [] = refl
covers_parts-new (r ∷ q) = ground (arith, covers_parts-new q)

-- A child that is not there is as good as a new one.
below_new :
    (r : List ℕ) (q : List (List ℕ)) (c : Children)
    → covers_parts q (or_new (find r c))
      ≡ elim (find r c) [ none ↦ false | some u ↦ covers_parts q u ]
below_new r q c = elim (Option-cases (find r c)) [
  | inl e ↦ rw e (covers_parts-new q)
  | inr (u, e) ↦ rw e
]

covers_parts-insert_parts :
    (p q : List (List ℕ)) (t : PathTrie)
    → All IsPart p
    → All IsPart q
    → covers_parts q (insert_parts p t) ≡ begins p q || covers_parts q t
unfolding insert_parts covers_parts
covers_parts-insert_parts [] [] (trie e a c) hp hq = refl
covers_parts-insert_parts [] (r ∷ q) (trie e a c) hp hq = ground (arith, hq.0)
covers_parts-insert_parts (s ∷ p) [] (trie e a c) hp hq = ground (arith, hp.0)
covers_parts-insert_parts (s ∷ p) (r ∷ q) (trie e a c) hp hq =
    let node = or_new (find s c) in
    ground (
      arith,
      hp.0,
      hq.0,
      find-store s r (insert_parts p node) c,
      covers_parts-insert_parts p q node hp.1 hq.1,
      below_new s q c,
      same_iff s r,
    )

abbrev is_in : PathTrie → List (List ℕ) → Bool
is_in t q = covers_all t || covers_parts q t

segments-parts : (sep : ℕ) (path : List ℕ) → All IsPart (segments sep path)
segments-parts sep path = normalize-parts [] (split sep path) tt

is_root-parts : (p : List (List ℕ)) → All IsPart p → is_root p ≡ is_nil p
is_root-parts [] h = refl
is_root-parts ([] ∷ p) h = cc h.0
is_root-parts ((x ∷ s) ∷ p) h = refl

insert_parts-covers_all :
    (p : List (List ℕ)) (t : PathTrie) → covers_all (insert_parts p t) ≡ covers_all t
unfolding insert_parts
insert_parts-covers_all [] t = refl
insert_parts-covers_all (s ∷ p) t = ground (arith, insert_parts-covers_all p t)

abbrev placed : List (List ℕ) → PathTrie → PathTrie
placed p t = if is_root p then trie (is_end t) true (children t) else insert_parts p t

placed_in :
    (p q : List (List ℕ)) (t : PathTrie)
    → All IsPart p
    → All IsPart q
    → is_in (placed p t) q ≡ begins p q || is_in t q
placed_in [] q t hp hq = refl
placed_in (s ∷ p) q t hp hq = ground (
  arith,
  is_root-parts (s ∷ p) hp,
  insert_parts-covers_all (s ∷ p) t,
  covers_parts-insert_parts (s ∷ p) q t hp hq,
)

insert-placed :
    (sep : ℕ) (path : List ℕ) (t : PathTrie)
    → insert sep path t
      ≡ (if is_absolute sep path then some (placed (segments sep path) t) else none)
unfolding insert split_path
insert-placed sep path t = ground arith

insert_all_outcomes :
    (sep : ℕ) (ps : List (List ℕ)) (t : PathTrie)
    → ((all_absolute sep ps ≡ false) × (insert_all sep ps t ≡ none))
      ⊎ ((all_absolute sep ps ≡ true)
          × ((t' : PathTrie) × (insert_all sep ps t ≡ some t')
              × ((path : List ℕ)
                  → is_in t' (segments sep path)
                    ≡ is_covered sep ps path || is_in t (segments sep path))))
unfolding insert_all
insert_all_outcomes sep [] t = inr (refl, (t, refl, λ path. refl))
insert_all_outcomes sep (p ∷ ps) t = elim (Bool-cases (is_absolute sep p)) [
  | inr off ↦ inl (ground arith, ground (arith, insert-placed sep p t))
  | inl on ↦ elim (insert_all_outcomes sep ps (placed (segments sep p) t)) [
    | inl (bad, e) ↦ inl (ground arith, ground (arith, insert-placed sep p t, e))
    | inr (good, (t', e, h)) ↦ inr (
      ground arith,
      (
        t',
        ground (arith, insert-placed sep p t, e),
        λ path. ground (
          arith,
          h path,
          placed_in (segments sep p) (segments sep path) t (segments-parts sep p)
              (segments-parts sep path),
        ),
      ),
    )
  ]
]

covers-is_in :
    (sep : ℕ) (path : List ℕ) (t : PathTrie)
    → covers sep path t
      ≡ (if is_absolute sep path then some (is_in t (segments sep path)) else none)
unfolding covers split_path
covers-is_in sep path t = ground arith

-- NewPathTrie fails exactly if one of the paths is relative. Otherwise Covers of its trie fails
-- exactly on a relative path, and says of an absolute one whether the normalized segments of one of
-- the paths are the first of its own; the order and the repetition of the paths do not matter.
pub new_path_trie-covers :
    (sep : ℕ) (ps : List (List ℕ))
    → ((all_absolute sep ps ≡ false) × (new_path_trie ps sep ≡ none))
      ⊎ ((all_absolute sep ps ≡ true)
          × ((t : PathTrie) × (new_path_trie ps sep ≡ some t)
              × ((path : List ℕ)
                  → covers sep path t
                    ≡ (if is_absolute sep path then some (is_covered sep ps path) else none))))
unfolding new_path_trie
new_path_trie-covers sep ps = elim (insert_all_outcomes sep ps new) [
  | inl bad ↦ inl bad
  | inr (good, (t, e, h)) ↦ inr (
    good,
    (
      t,
      e,
      λ path. ground (arith, covers-is_in sep path t, h path, covers_parts-new (segments sep path)),
    ),
  )
]
