-- ===== src/Sweep/Apply/Removed.antt =====
-- The paths that `apply` of scripts/sweep_scratch.py removes, over all roots and turns.
use agentic_dev_kit.Base.{
  ℕ, suc, String, ◌≡◌, refl, ap, ◌∙◌, Option, none, some, List, [], ◌∷◌, ◌++◌, if◌then◌else◌, arith,
}
use agentic_dev_kit.Sweep.Classify.{Entry}
use agentic_dev_kit.Sweep.Apply.{
  RootReport, Outcome, Turn, is_due, act, apply_entries, apply_root, apply_roots, apply, others_of,
  protected_roots,
}
use agentic_dev_kit.Sweep.Apply.Warrant.{warranted_at, is_removed, act_at_iff}

-- an entry of an ok report that is due, with its root and the root's device
pub record Task : Type 0 where
  pub root : String
  pub device : ℕ
  pub entry : Entry

due_of : ℕ → String → ℕ → List Entry → List Task
due_of older_than root device [] = []
due_of older_than root device (e ∷ es) =
    let rest = due_of older_than root device es in
    if is_due older_than e
    then (record { root = root; device = device; entry = e }) ∷ rest
    else rest

tasks_of : ℕ → RootReport → Option ℕ → List Task
tasks_of older_than r none = []
tasks_of older_than r (some device) =
    if r.is_ok then due_of older_than r.root device r.entries else []

-- the due entries of the reports, in their order
unfoldable pub tasks : ℕ → List RootReport → List Task
unfolding tasks_of due_of
tasks older_than [] = []
tasks older_than (r ∷ rs) = tasks_of older_than r r.device ++ tasks older_than rs

-- the paths of the entries whose own turn warrants the removal
unfoldable pub warranted_paths : ℕ → ℕ → List String → (ℕ → Turn) → ℕ → List Task → List String
unfolding warranted_at others_of
warranted_paths grace_ticks older_than protected turns n [] = []
warranted_paths grace_ticks older_than protected turns n (t ∷ ts) =
    let rest = warranted_paths grace_ticks older_than protected turns (suc n) ts in
    if warranted_at grace_ticks older_than (others_of protected t.root) t.root t.device
      (turns n).final t.entry (turns n).moment
    then t.entry.path ∷ rest
    else rest

unfoldable pub removed_paths : List Outcome → List String
unfolding is_removed
removed_paths [] = []
removed_paths (o ∷ os) =
    let rest = removed_paths os in if is_removed o.action then o.path ∷ rest else rest

removed_paths-append :
    (os qs : List Outcome) → removed_paths (os ++ qs) ≡ removed_paths os ++ removed_paths qs
unfolding removed_paths
removed_paths-append [] qs = refl
removed_paths-append (o ∷ os) qs = ground (arith, removed_paths-append os qs)

-- the entries of one root, and the tasks after them
entries_removed :
    (grace_ticks older_than : ℕ) (protected : List String) (root : String) (device : ℕ)
    (turns : ℕ → Turn) (n : ℕ) (es : List Entry) (ts : List Task)
    → let here =
        apply_entries grace_ticks older_than (others_of protected root) root device turns n es in
      removed_paths here.0 ++ warranted_paths grace_ticks older_than protected turns here.1 ts
      ≡ warranted_paths grace_ticks older_than protected turns n
          (due_of older_than root device es ++ ts)
unfolding apply_entries removed_paths warranted_paths due_of act
entries_removed grace_ticks older_than protected root device turns n [] ts = refl
entries_removed grace_ticks older_than protected root device turns n (e ∷ es) ts = ground (
  arith,
  entries_removed grace_ticks older_than protected root device turns n es ts,
  entries_removed grace_ticks older_than protected root device turns (suc n) es ts,
  act_at_iff grace_ticks older_than (others_of protected root) root device (turns n).final e
      (turns n).moment,
)

root_removed :
    (grace_ticks older_than : ℕ) (protected : List String) (turns : ℕ → Turn) (n : ℕ)
    (r : RootReport) (o : Option ℕ) (ts : List Task)
    → let here = apply_root grace_ticks older_than protected turns n r o in
      removed_paths here.0 ++ warranted_paths grace_ticks older_than protected turns here.1 ts
      ≡ warranted_paths grace_ticks older_than protected turns n (tasks_of older_than r o ++ ts)
unfolding apply_root tasks_of removed_paths
root_removed grace_ticks older_than protected turns n r none ts = refl
root_removed grace_ticks older_than protected turns n r (some device) ts =
    ground
      (arith, entries_removed grace_ticks older_than protected r.root device turns n r.entries ts)

roots_removed :
    (grace_ticks older_than : ℕ) (protected : List String) (turns : ℕ → Turn) (n : ℕ)
    (rs : List RootReport)
    → removed_paths (apply_roots grace_ticks older_than protected turns n rs)
      ≡ warranted_paths grace_ticks older_than protected turns n (tasks older_than rs)
unfolding apply_roots tasks removed_paths warranted_paths
roots_removed grace_ticks older_than protected turns n [] = refl
roots_removed grace_ticks older_than protected turns n (r ∷ rs) =
    let here = apply_root grace_ticks older_than protected turns n r r.device in
    removed_paths-append here.0 (apply_roots grace_ticks older_than protected turns here.1 rs)
    ∙ (ap (λ ps. removed_paths here.0 ++ ps)
          (roots_removed grace_ticks older_than protected turns here.1 rs)
        ∙ root_removed grace_ticks older_than protected turns n r r.device (tasks older_than rs))

-- `apply` removes, in the order of the reports, exactly the due entries whose own turn warrants it: a
-- fresh read finds the entry stale, old enough and with the identity of the report, and at the
-- deletion it is a direct child of its root with that identity still, and the deletion succeeds.
pub apply_removed :
    (grace_ticks older_than : ℕ) (turns : ℕ → Turn) (reports : List RootReport)
    → removed_paths (apply grace_ticks older_than turns reports)
      ≡ warranted_paths grace_ticks older_than
          (protected_roots reports)
          turns
          0
          (tasks older_than reports)
unfolding apply
apply_removed grace_ticks older_than turns reports =
    roots_removed grace_ticks older_than (protected_roots reports) turns 0 reports
