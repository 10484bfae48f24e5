-- ===== src/Sweep/Disk.antt =====
-- What scripts/sweep_scratch.py reads of a disk, and `_lineage`, `_holds` and `_overlaps` over it.
use agentic_dev_kit.Base.{
  ℕ, suc, String, Bool, true, false, ◌&&◌, ◌||◌, Option, none, some, List, [], ◌∷◌, if◌then◌else◌,
  eqb, starts_with, concat, ◌==◌,
}
use agentic_dev_kit.Sweep.Paths.{size, ancestors_on}

-- `(st_dev, st_ino)`
pub record Identity : Type 0 where
  pub device : ℕ
  pub inode : ℕ

pub data Kind : Type 0 where
  directory regular symlink other : Kind

-- an `lstat`: `changed` is `_stamp`, the later of the two times, and `usage` is `_usage`
pub record Stat : Type 0 where
  pub identity : Identity
  pub kind : Kind
  pub changed : ℕ
  pub usage : ℕ

-- a read: what is found, a missing path, or any other failure
pub data Look {ℓ} (A : Type ℓ) : Type ℓ where
  found : A → Look A
  gone : Look A
  blocked : Look A

-- One name that `os.walk` gives below an entry: its path, its own name, the parts of its path below
-- the entry, and its `lstat`; or a path that could not be read.
pub data Step : Type 0 where
  unreadable : String → Step
  child : String → String → List String → Stat → Step

-- The disk at one moment. The last four fields are what the probes of a git directory find: the
-- reason of `_linked_gitdir_reason` with the git directories it adds to `inner`, and those of
-- `_main_repo_reason`, `_detached_git_dir` and `_detached_reason`.
pub record Disk : Type 0 where
  pub identity : String → Look Identity
  pub lstat : String → Option Stat
  pub realpath : String → String
  pub walk : String → List Step
  pub looks_like_git_dir : String → Bool
  pub linked_gitdir : String → String → Option String × List String
  pub main_repo : String → String → Option String
  pub detached_git_dir : String → String
  pub detached : String → String → List String → Option String

unfoldable pub same_identity : Identity → Identity → Bool
same_identity a b = eqb a.device b.device && eqb a.inode b.inode

-- whether a list of reads holds an identity; a read that fails decides by its failure
unfoldable pub among : Disk → Identity → List String → Look Bool
unfolding same_identity
among disk i [] = found false
among disk i (p ∷ ps) = elim (disk.identity p) [
  | gone ↦ gone
  | blocked ↦ blocked
  | found j ↦ elim (among disk i ps) [
    | gone ↦ gone
    | blocked ↦ blocked
    | found b ↦ found (same_identity i j || b)
  ]
]

-- the paths of `_lineage(p)`
unfoldable pub lineage : String → List String
lineage p = elim (ancestors_on (suc (size p)) p) [ none ↦ [] | some ps ↦ ps ]

-- `_holds(outer, inner)`; `none` for unknown
unfoldable pub holds : Disk → String → String → Option Bool
holds disk outer inner =
    if outer == inner || starts_with inner (concat (outer ∷ "/" ∷ []))
    then some true
    else elim (disk.identity outer) [
      | gone ↦ some false
      | blocked ↦ none
      | found i ↦ elim (among disk i (lineage inner)) [
        | gone ↦ some false
        | blocked ↦ none
        | found b ↦ some b
      ]
    ]

-- `_overlaps(a, b)`
unfoldable pub either : Option Bool → Option Bool → Option Bool
either (some true) _ = some true
either _ (some true) = some true
either (some false) (some false) = some false
either _ _ = none

unfoldable pub overlaps : Disk → String → String → Option Bool
unfolding either
overlaps disk a b = either (holds disk a b) (holds disk b a)
