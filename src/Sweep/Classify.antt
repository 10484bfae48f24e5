-- ===== src/Sweep/Classify.antt =====
-- `scan` and `classify` of scripts/sweep_scratch.py. A reason is a value in place of its message.
pub mod Safety
use agentic_dev_kit.Base.{
  ℕ, ◌+◌, ◌-◌, ◌/◌, String, Bool, true, false, ◌&&◌, ◌||◌, not, Option, none, some, List, [], ◌∷◌,
  ◌++◌, if◌then◌else◌, max, ltb, eqb, elem, is_nil, is_some, ◌==◌,
}
use agentic_dev_kit.Sweep.Disk.{
  Identity, Kind, directory, regular, symlink, other, Stat, Step, unreadable, child, Disk, holds,
  overlaps,
}

-- `_Scan`, with the variables of the walk
pub record Scan : Type 0 where
  pub size : ℕ
  pub newest : ℕ
  pub problems : List String
  pub linked : Option String
  pub inner : List String
  pub detached : List String

unfoldable pub is_directory : Kind → Bool
is_directory directory = true
is_directory _ = false

unfoldable pub is_regular : Kind → Bool
is_regular regular = true
is_regular _ = false

module _ (disk : Disk) (entry : String) where
  -- the git probes of one child, made only until a reason is found
  unfoldable pub probe : Scan → String → String → List String → Stat → Scan
  unfolding is_directory is_regular
  probe s path name parts st =
      if is_some s.linked
      then s
      else if name == ".git" && is_regular st.kind
      then record s {
        linked = (disk.linked_gitdir path entry).0;
        inner = s.inner ++ (disk.linked_gitdir path entry).1;
      }
      else if name == ".git" && is_directory st.kind
      then record s { linked = disk.main_repo path entry }
      else if is_directory st.kind && (not (elem ".git" parts) && disk.looks_like_git_dir path)
      then record s { detached = s.detached ++ path ∷ [] }
      else s

  -- one name of the walk; `device` is that of the entry
  unfoldable pub scan_step : ℕ → Scan → Step → Scan
  scan_step device s (unreadable path) = record s { problems = s.problems ++ path ∷ [] }
  scan_step device s (child path name parts st) =
      probe
        (record s {
          size = s.size + st.usage;
          newest = max s.newest st.changed;
          problems = if eqb st.identity.device device then s.problems else s.problems ++ path ∷ [];
        })
        path name parts st

  unfoldable pub scan_steps : ℕ → Scan → List Step → Scan
  scan_steps device s [] = s
  scan_steps device s (x ∷ xs) = scan_steps device (scan_step device s x) xs

  -- the loop over the git directories that no `.git` of the entry holds
  unfoldable pub judge_detached : List String → List String → Option String
  judge_detached inner [] = none
  judge_detached inner (g ∷ gs) =
      let rest = judge_detached inner gs in
      elim (disk.detached g entry inner) [ some why ↦ some why | none ↦ rest ]

  -- `scan(entry, top)`
  unfoldable pub scan : Stat → Scan
  scan top =
      let start : Scan = record {
        size = top.usage;
        newest = top.changed;
        problems = [];
        linked = if disk.looks_like_git_dir entry then some (disk.detached_git_dir entry) else none;
        inner = [];
        detached = [];
      } in
      let s = scan_steps top.identity.device start (disk.walk entry) in
      if is_directory top.kind
      then (if is_some s.linked then s else record s { linked = judge_detached s.inner s.detached })
      else record start { linked = none }

pub data Owner : Type 0 where
  live grace stale unclassified : Owner

unfoldable pub is_stale : Owner → Bool
is_stale stale = true
is_stale _ = false

pub data Reason : Type 0 where
  cannot_stat is_symlink not_file mount_point : Reason
  holds_root cannot_compare overlaps_worktree overlaps_store : String → Reason
  scan_problems : List String → Reason
  linked_git : String → Reason
  inside_grace : ℕ → Reason

pub record Entry : Type 0 where
  pub path : String
  pub owner : Owner
  pub size : ℕ
  pub age : Option ℕ
  pub reason : Option Reason
  pub identity : Option Identity

abbrev pub unreadable_entry : String → Entry
unreadable_entry entry = record {
  path = entry;
  owner = unclassified;
  size = 0;
  age = none;
  reason = some cannot_stat;
  identity = none;
}

-- the first path that the entry overlaps, or that it cannot be compared with
unfoldable pub first_overlap :
    (String → Option Bool) → (String → Reason) → List String → Option Reason
first_overlap test why [] = none
first_overlap test why (p ∷ ps) =
    let rest = first_overlap test why ps in
    elim (test p) [ none ↦ some (cannot_compare p) | some b ↦ if b then some (why p) else rest ]

-- what a classification rests on: the disk and the time of the read, what Git registers, the other
-- roots, the root's device, the grace window, and the ticks of a second
pub record Moment : Type 0 where
  pub disk : Disk
  pub now : ℕ
  pub second : ℕ
  pub worktrees : List String
  pub stores : List String

module _ (m : Moment) (roots : List String) (grace_ticks : ℕ) (entry : String) where
  unfoldable pub configured_root_reason : Option Reason
  configured_root_reason = first_overlap (holds m.disk entry) holds_root roots

  -- `live_worktree_reason(...) or repository_store_reason(...)`
  unfoldable pub live_reason : Option Reason
  live_reason = elim (first_overlap (overlaps m.disk entry) overlaps_worktree m.worktrees) [
    | some why ↦ some why
    | none ↦ first_overlap (overlaps m.disk entry) overlaps_store m.stores
  ]

  -- `grace_reason(now - newest, grace_seconds)`
  unfoldable pub grace_reason : ℕ → Option Reason
  grace_reason newest =
      if ltb m.now (newest + grace_ticks) then some (inside_grace (m.now - newest)) else none

  unfoldable pub refuse : Identity → Reason → Entry
  refuse i why = record {
    path = entry;
    owner = unclassified;
    size = 0;
    age = none;
    reason = some why;
    identity = some i;
  }

  unfoldable pub judged : Identity → Scan → Owner → Option Reason → Entry
  judged i s owner why = record {
    path = entry;
    owner = owner;
    size = s.size;
    age = some ((m.now - s.newest) / m.second);
    reason = why;
    identity = some i;
  }

  -- the tests on a scanned entry, in their order
  unfoldable pub judge : Identity → Scan → Entry
  unfolding judged configured_root_reason live_reason grace_reason
  judge i s = elim configured_root_reason [
    | some why ↦ judged i s unclassified (some why)
    | none ↦ elim live_reason [
      | some why ↦ judged i s live (some why)
      | none ↦
          if not (is_nil s.problems)
          then judged i s unclassified (some (scan_problems s.problems))
          else elim s.linked [
            | some why ↦ judged i s live (some (linked_git why))
            | none ↦ elim (grace_reason s.newest) [
              | some why ↦ judged i s grace (some why)
              | none ↦ judged i s stale none
            ]
          ]
    ]
  ]

  -- the tests on the `lstat`, in their order
  unfoldable pub classify_kind : Kind → ℕ → Stat → Entry
  unfolding refuse
  classify_kind symlink device st = refuse st.identity is_symlink
  classify_kind other device st = refuse st.identity not_file
  classify_kind _ device st =
      if eqb st.identity.device device
      then judge st.identity (scan m.disk entry st)
      else refuse st.identity mount_point

  unfoldable pub classify_found : Option Stat → ℕ → Entry
  classify_found none device = unreadable_entry entry
  classify_found (some st) device = classify_kind st.kind device st

  -- `classify(entry, device=…)`
  unfoldable pub classify : ℕ → Entry
  unfolding classify_found
  classify device = classify_found (m.disk.lstat entry) device
