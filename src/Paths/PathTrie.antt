-- ===== src/Paths/PathTrie.antt =====
-- lib/paths/paths.go: PathTrie. A trie is owned by whoever built it, so insert returns the new one;
-- `sep`, which every node holds a copy of, is an argument. The children's map is a list of entries.
use astrald.Prelude.{
  ℕ, Bool, true, false, ◌||◌, Option, none, some, List, [], ◌∷◌, ◌++◌, is_nil, if◌then◌else◌, ◌==◌,
}
use astrald.Paths.{same}

mutual
  -- `trie is_end covers_all children`
  pub data PathTrie : Type 0 where
    trie : Bool → Bool → Children → PathTrie

  pub data Children : Type 0 where
    no_child : Children
    child : List ℕ → PathTrie → Children → Children

abbrev pub is_end : PathTrie → Bool
is_end (trie e a c) = e

abbrev pub covers_all : PathTrie → Bool
covers_all (trie e a c) = a

abbrev pub children : PathTrie → Children
children (trie e a c) = c

abbrev pub new : PathTrie
new = trie false false no_child

abbrev pub or_new : Option PathTrie → PathTrie
or_new none = new
or_new (some t) = t

-- children[part]
unfoldable pub find : List ℕ → Children → Option PathTrie
find part no_child = none
find part (child name t rest) =
    let later = find part rest in if same name part then some t else later

-- children[part] = t
unfoldable pub store : List ℕ → PathTrie → Children → Children
store part t no_child = child part t no_child
store part t (child name u rest) =
    let later = store part t rest in
    if same name part then child name t rest else child name u later

-- isAbsolute
unfoldable pub is_absolute : ℕ → List ℕ → Bool
is_absolute sep [] = false
is_absolute sep (c ∷ path) = c == sep

abbrev to_first : ℕ → List (List ℕ) → List (List ℕ)
to_first c [] = (c ∷ []) ∷ []
to_first c (part ∷ parts) = (c ∷ part) ∷ parts

-- strings.Split at one byte.
unfoldable pub split : ℕ → List ℕ → List (List ℕ)
split sep [] = [] ∷ []
split sep (c ∷ s) = let parts = split sep s in if c == sep then [] ∷ parts else to_first c parts

abbrev pub dot : List ℕ
dot = 46 ∷ []

abbrev pub dot_dot : List ℕ
dot_dot = 46 ∷ 46 ∷ []

-- normalized[:len(normalized)-1], and nothing of an empty one.
abbrev pub drop_last : List (List ℕ) → List (List ℕ)
drop_last [] = []
drop_last (x ∷ []) = []
drop_last (x ∷ y ∷ ys) = x ∷ drop_last (y ∷ ys)

-- One round of the loop of splitPath.
unfoldable pub add_part : List (List ℕ) → List ℕ → List (List ℕ)
add_part normalized part =
    if is_nil part || same part dot
    then normalized
    else if same part dot_dot
    then drop_last normalized
    else normalized ++ (part ∷ [])

unfoldable pub normalize : List (List ℕ) → List (List ℕ) → List (List ℕ)
normalize normalized [] = normalized
normalize normalized (part ∷ parts) = normalize (add_part normalized part) parts

-- splitPath; none is ErrNotAbsolute.
unfoldable pub split_path : ℕ → List ℕ → Option (List (List ℕ))
split_path sep path = if is_absolute sep path then some (normalize [] (split sep path)) else none

-- The loop of insert.
unfoldable pub insert_parts : List (List ℕ) → PathTrie → PathTrie
insert_parts [] t = trie true (covers_all t) (children t)
insert_parts (part ∷ parts) t =
    let node = or_new (find part (children t)) in
    let below = insert_parts parts node in
    let skipped = insert_parts parts t in
    if is_nil part then skipped else trie (is_end t) (covers_all t) (store part below (children t))

abbrev pub is_root : List (List ℕ) → Bool
is_root [] = true
is_root ([] ∷ [] ∷ []) = true
is_root _ = false

-- insert; none is ErrNotAbsolute.
unfoldable pub insert : ℕ → List ℕ → PathTrie → Option PathTrie
insert sep path t = elim (split_path sep path) [
  | none ↦ none
  | some parts ↦
      if is_root parts
      then some (trie (is_end t) true (children t))
      else some (insert_parts parts t)
]

unfoldable pub insert_all : ℕ → List (List ℕ) → PathTrie → Option PathTrie
insert_all sep [] t = some t
insert_all sep (path ∷ paths) t = elim (insert sep path t) [
  | none ↦ none
  | some t' ↦ insert_all sep paths t'
]

-- NewPathTrie; none is the error.
unfoldable pub new_path_trie : List (List ℕ) → ℕ → Option PathTrie
new_path_trie paths sep = insert_all sep paths new

-- The loop of Covers.
unfoldable pub covers_parts : List (List ℕ) → PathTrie → Bool
covers_parts [] t = is_end t
covers_parts (part ∷ parts) t =
    let skipped = covers_parts parts t in
    let below : Bool = elim (find part (children t)) [
      | none ↦ false
      | some u ↦ covers_parts parts u
    ] in
    if is_nil part then skipped else if is_end t then true else below

-- Covers; none is ErrNotAbsolute.
unfoldable pub covers : ℕ → List ℕ → PathTrie → Option Bool
covers sep path t = elim (split_path sep path) [
  | none ↦ none
  | some parts ↦ if covers_all t then some true else some (covers_parts parts t)
]
