-- ===== src/Objects.antt =====
-- mod/objects: the window of a read (read_limit.go), the interface of a repository (repository.go),
-- the repository in memory (mem), and groups of repositories (src/repo_group.go).
pub mod Memory
pub mod RepoGroup
pub mod Registry
mod Tests
use astrald.Prelude.{
  ℕ, ◌-◌, ◌^◌, min, ◌==◌, ltb, Bool, true, false, Option, none, some, if◌then◌else◌,
}

-- An int64 argument: pos n is n, negsuc n is -(n + 1).
pub data ℤ : Type 0 where
  pos negsuc : ℕ → ℤ

-- An object's ID; size 0 marks a partial one.
pub record ObjectId : Type 0 where
  pub size : ℕ
  pub hash : ℕ

-- The last two are a group's: no member is registered, and errors.Join.
pub data Error : Type 0 where
  not_found out_of_bounds zone_excluded closed_pipe no_space_left : Error
  hash_lookup_unsupported canceled deadline_exceeded group_empty : Error
  joined : Error → Error → Error

pub data Result (A : Type 0) : Type 0 where
  ok : A → Result A
  err : Error → Result A

abbrev pub max_int64 : ℕ
max_int64 = 9223372036854775807

-- ResolveReadLimit
unfoldable pub resolve_read_limit : ObjectId → ℤ → ℤ → Result ℕ
resolve_read_limit id (negsuc o) limit = err out_of_bounds
resolve_read_limit id (pos o) (negsuc l) = err out_of_bounds
resolve_read_limit id (pos o) (pos l) =
    if ltb max_int64 id.size
    then err out_of_bounds
    else if ltb id.size o
    then err out_of_bounds
    else if l == 0
    then ok (id.size - o)
    else ok (min l (id.size - o))

-- Repository, an interface, whose methods run in a world of type W and hand out readers of type R and
-- writers of type V. Free answers -1 when it does not know. Scan streams IDs and is left out.
pub record Repo (W R V : Type 0) : Type 0 where
  pub create : Option ℕ → W → W × Result V
  pub contains : ObjectId → W → W × Result Bool
  pub delete : ObjectId → W → W × Result Unit
  pub read : ObjectId → ℤ → ℤ → W → W × Result R
  pub free : W → W × Result ℤ
