-- ===== src/Sweep/Apply.antt =====
-- `remove_entry` and `apply` of scripts/sweep_scratch.py.
pub mod Warrant
pub mod Removed
use agentic_dev_kit.Base.{
  ℕ, zero, suc, String, Bool, true, false, ◌&&◌, ◌||◌, not, Option, none, some, List, [], ◌∷◌, ◌++◌,
  if◌then◌else◌, leb, elem, filter, starts_with, ◌==◌,
}
use agentic_dev_kit.Sweep.Paths.{dirname, basename}
use agentic_dev_kit.Sweep.Disk.{
  Identity, Kind, directory, regular, symlink, other, Stat, Disk, same_identity,
}
use agentic_dev_kit.Sweep.Classify.{Entry, Owner, Reason, is_stale, Moment, classify}

pub data Refusal : Type 0 where
  not_child unresolved cannot_stat is_symlink replaced unsafe_rmtree not_file : Refusal

-- how `remove_entry` ends; `errored` is an `OSError` of the removal itself
pub data Removal : Type 0 where
  done errored : Removal
  refused : Refusal → Removal

unfoldable pub same_as : Option Identity → Identity → Bool
unfolding same_identity
same_as none j = false
same_as (some i) j = same_identity j i

-- What the removal of one entry meets: the disk, whether `shutil.rmtree` is safe from symlink
-- attacks, and whether the call that deletes succeeds.
pub record Final : Type 0 where
  pub disk : Disk
  pub safe_rmtree : Bool
  pub deleted : Bool

unfoldable pub delete : Final → Removal
delete f = if f.deleted then done else errored

unfoldable pub remove_kind : Final → Kind → Removal
unfolding delete
remove_kind f directory = if f.safe_rmtree then delete f else refused unsafe_rmtree
remove_kind f regular = delete f
remove_kind f _ = refused not_file

unfoldable pub is_link : Kind → Bool
is_link symlink = true
is_link _ = false

unfoldable pub remove_found : Final → Option Identity → Option Stat → Removal
unfolding same_as is_link
remove_found f identity none = refused cannot_stat
remove_found f identity (some st) =
    if is_link st.kind
    then refused is_symlink
    else if not (same_as identity st.identity)
    then refused replaced
    else remove_kind f st.kind

-- `remove_entry(entry, root, identity)`
unfoldable pub remove_entry : Final → String → String → Option Identity → Removal
unfolding remove_found
remove_entry f entry root identity =
    if entry == root
      || (elem (basename entry) ("" ∷ "." ∷ ".." ∷ []) || not (dirname entry == root))
    then refused not_child
    else if not (f.disk.realpath root == root) || not (f.disk.realpath (dirname entry) == root)
    then refused unresolved
    else remove_found f identity (f.disk.lstat entry)

pub record RootReport : Type 0 where
  pub root : String
  pub is_ok : Bool
  pub entries : List Entry
  pub device : Option ℕ

-- why an entry was kept: a `ConfigError`, its new class, or another identity
pub data Keep : Type 0 where
  registry_error replaced_entry : Keep
  now_is : Owner → Option Reason → Keep

pub data Action : Type 0 where
  removed failed : Action
  denied : Refusal → Action
  kept : Keep → Action

pub record Outcome : Type 0 where
  pub path : String
  pub action : Action

-- What one entry's turn in `apply` reads: the worktrees and stores of a fresh read with the disk and
-- the clock, `none` for a `ConfigError`; and then what the removal meets.
pub record Turn : Type 0 where
  pub moment : Option Moment
  pub final : Final

unfoldable pub is_aged : ℕ → Option ℕ → Bool
is_aged older_than none = false
is_aged older_than (some age) = leb older_than age

unfoldable pub same_option : Option Identity → Option Identity → Bool
unfolding same_identity
same_option none none = true
same_option (some i) (some j) = same_identity i j
same_option _ _ = false

unfoldable pub removal_action : Removal → Action
removal_action done = removed
removal_action errored = failed
removal_action (refused why) = denied why

-- the entries that `apply` acts on
unfoldable pub is_due : ℕ → Entry → Bool
unfolding is_stale is_aged
is_due older_than e = is_stale e.owner && is_aged older_than e.age

-- the settings, and one root's part of the reports
module _ (grace_ticks older_than : ℕ) (others : List String) (root : String) (device : ℕ) where
  unfoldable pub judge_fresh : Final → Entry → Entry → Action
  unfolding is_due same_option removal_action
  judge_fresh final entry fresh =
      if not (is_due older_than fresh)
      then kept (now_is fresh.owner fresh.reason)
      else if not (same_option fresh.identity entry.identity)
      then kept replaced_entry
      else removal_action (remove_entry final entry.path root fresh.identity)

  unfoldable pub act_at : Final → Entry → Option Moment → Action
  unfolding judge_fresh
  act_at final entry none = kept registry_error
  act_at final entry (some m) =
      judge_fresh final entry (classify m others grace_ticks entry.path device)

  unfoldable pub act : Turn → Entry → Outcome
  unfolding act_at
  act t entry = record { path = entry.path; action = act_at t.final entry t.moment }

  -- the inner loop; the entries that are due take their turns in order
  unfoldable pub apply_entries : (ℕ → Turn) → ℕ → List Entry → List Outcome × ℕ
  unfolding act
  apply_entries turns n [] = ([], n)
  apply_entries turns n (e ∷ es) =
      let skipped = apply_entries turns n es in
      let taken = apply_entries turns (suc n) es in
      if is_due older_than e then (act (turns n) e ∷ taken.0, taken.1) else skipped

unfoldable pub others_of : List String → String → List String
others_of protected root = filter (λ r. not (r == root)) protected

-- the outer loop
module _ (grace_ticks older_than : ℕ) (protected : List String) where
  unfoldable pub apply_root : (ℕ → Turn) → ℕ → RootReport → Option ℕ → List Outcome × ℕ
  unfolding others_of
  apply_root turns n r none = ([], n)
  apply_root turns n r (some device) =
      if r.is_ok
      then apply_entries grace_ticks older_than (others_of protected r.root) r.root device turns n
          r.entries
      else ([], n)

  unfoldable pub apply_roots : (ℕ → Turn) → ℕ → List RootReport → List Outcome
  unfolding apply_root
  apply_roots turns n [] = []
  apply_roots turns n (r ∷ rs) =
      let here = apply_root turns n r r.device in here.0 ++ apply_roots turns here.1 rs

-- the roots with an absolute path
unfoldable pub protected_roots : List RootReport → List String
protected_roots [] = []
protected_roots (r ∷ rs) =
    let rest = protected_roots rs in if starts_with r.root "/" then r.root ∷ rest else rest

-- `apply(reports, settings, older_than=…)`
unfoldable pub apply : ℕ → ℕ → (ℕ → Turn) → List RootReport → List Outcome
unfolding apply_roots protected_roots
apply grace_ticks older_than turns reports =
    apply_roots grace_ticks older_than (protected_roots reports) turns 0 reports
