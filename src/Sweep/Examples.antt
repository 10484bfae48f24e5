-- ===== src/Sweep/Examples.antt =====
-- One abandoned directory of a scratch root, and the sweep's theorems at it.
use agentic_dev_kit.Base.{
  all, any, concat, contains, elem, ends_with, filter, find?, join, lower, show, sorted, sorted_set,
  squeeze, starts_with, strip, take_chars, text_le, upper, without_suffix,
}
use agentic_dev_kit.Sweep.Paths.{after_slash, basename, dirname, strip_slashes, through_slash}
use agentic_dev_kit.Sweep.Disk.{among, either, holds, lineage, overlaps, same_identity}
use agentic_dev_kit.Sweep.Classify.{
  classify_found, classify_kind, configured_root_reason, first_overlap, grace_reason, is_regular,
  judge, judge_detached, judged, live_reason, probe, refuse, scan, scan_step, scan_steps,
}
use agentic_dev_kit.Sweep.Apply.{
  act, act_at, apply_entries, apply_root, apply_roots, delete, is_aged, is_due, is_link,
  judge_fresh, others_of, removal_action, remove_found, remove_kind, same_as, same_option,
}
use agentic_dev_kit.Sweep.Apply.Warrant.{is_removed, warranted_at}
use agentic_dev_kit.Base.{
  ℕ, ◌+◌, ◌≤◌, ◌&&◌, ◌≡◌, refl, true, false, none, some, List, [], ◌∷◌, if◌then◌else◌, is_some,
  ◌==◌, arith,
}
use agentic_dev_kit.Sweep.Paths.{size, ancestors_on, ancestors_on-is_some}
use agentic_dev_kit.Sweep.Disk.{directory, regular, Stat, found, child, Disk}
use agentic_dev_kit.Sweep.Classify.{is_stale, is_directory, Moment, classify}
use agentic_dev_kit.Sweep.Classify.Safety.{abandoned_at, quiet, classify_stale_iff, stale_untouched}
use agentic_dev_kit.Sweep.Apply.{Final, RootReport, Turn, remove_entry, apply, protected_roots}
use agentic_dev_kit.Sweep.Apply.Warrant.{is_done, fits, is_child, remove_entry_iff}
use agentic_dev_kit.Sweep.Apply.Removed.{removed_paths, warranted_paths, tasks, apply_removed}

abbrev lane : Stat
lane = record {
  identity = record { device = 1; inode = 7 };
  kind = directory;
  changed = 100;
  usage = 4096;
}

abbrev note : Stat
note = record {
  identity = record { device = 1; inode = 8 };
  kind = regular;
  changed = 120;
  usage = 512;
}

abbrev disk : Disk
disk = record {
  identity = λ p. found (
      if p == "/t/a"
      then record { device = 1; inode = 7 }
      else if p == "/repo"
      then record { device = 1; inode = 9 }
      else record { device = 1; inode = 2 });
  lstat = λ p. if p == "/t/a" then some lane else none;
  realpath = λ p. p;
  walk = λ p. child "/t/a/n" "n" ("n" ∷ []) note ∷ [];
  looks_like_git_dir = λ p. false;
  linked_gitdir = λ p q. (none, []);
  main_repo = λ p q. none;
  detached_git_dir = λ p. p;
  detached = λ p q ps. none;
}

abbrev moment : Moment
moment = record { disk = disk; now = 1000; second = 10; worktrees = "/repo" ∷ []; stores = [] }

abbrev final : Final
final = record { disk = disk; safe_rmtree = true; deleted = true }

abbrev turns : ℕ → Turn
turns n = record { moment = some moment; final = final }

abbrev reports : List RootReport
reports =
    (record {
      root = "/t";
      is_ok = true;
      entries = classify moment [] 500 "/t/a" 1 ∷ [];
      device = some 1;
    })
    ∷ []

ancestors_on-is_some_example : is_some (ancestors_on 20 "/t/a/b") ≡ true
ancestors_on-is_some_example = ancestors_on-is_some 20 "/t/a/b" (unfold size in omega arith)

classify_stale_iff_example :
    is_stale (classify moment [] 500 "/t/a" 1).owner
    ≡ abandoned_at moment [] 500 "/t/a" 1 (some lane)
classify_stale_iff_example = classify_stale_iff moment [] 500 "/t/a" 1

is_stale_lane : is_stale (classify moment [] 500 "/t/a" 1).owner ≡ true
unfolding any all filter find? elem lower upper concat join strip starts_with contains ends_with
    text_le without_suffix take_chars squeeze show sorted_set sorted size through_slash
    strip_slashes after_slash dirname basename ancestors_on same_identity among lineage holds either
    overlaps is_directory is_regular probe scan_step scan_steps judge_detached scan is_stale
    first_overlap configured_root_reason live_reason grace_reason refuse judged judge classify_kind
    classify_found classify same_as delete remove_kind is_link remove_found remove_entry is_aged
    same_option removal_action is_due judge_fresh act_at act apply_entries others_of apply_root
    apply_roots protected_roots apply is_done fits is_child warranted_at is_removed tasks
    warranted_paths removed_paths
is_stale_lane = refl

stale_untouched_example :
    (lane.identity.device ≡ 1)
    × ((lane.changed + 500 ≤ 1000)
        × ((is_directory lane.kind ≡ true) → quiet 1 500 1000 (disk.walk "/t/a") ≡ true))
stale_untouched_example = stale_untouched moment [] 500 "/t/a" 1 lane refl is_stale_lane

remove_entry_iff_example :
    is_done (remove_entry final "/t/a" "/t" (some lane.identity))
    ≡ (is_child disk "/t/a" "/t" && fits final (some lane.identity) (some lane))
remove_entry_iff_example = remove_entry_iff final "/t/a" "/t" (some lane.identity)

apply_removed_example :
    removed_paths (apply 500 10 turns reports)
    ≡ warranted_paths 500 10 (protected_roots reports) turns 0 (tasks 10 reports)
apply_removed_example = apply_removed 500 10 turns reports

-- the lane is removed
apply_lane : removed_paths (apply 500 10 turns reports) ≡ "/t/a" ∷ []
unfolding any all filter find? elem lower upper concat join strip starts_with contains ends_with
    text_le without_suffix take_chars squeeze show sorted_set sorted size through_slash
    strip_slashes after_slash dirname basename ancestors_on same_identity among lineage holds either
    overlaps is_directory is_regular probe scan_step scan_steps judge_detached scan is_stale
    first_overlap configured_root_reason live_reason grace_reason refuse judged judge classify_kind
    classify_found classify same_as delete remove_kind is_link remove_found remove_entry is_aged
    same_option removal_action is_due judge_fresh act_at act apply_entries others_of apply_root
    apply_roots protected_roots apply is_done fits is_child warranted_at is_removed tasks
    warranted_paths removed_paths
apply_lane = refl
