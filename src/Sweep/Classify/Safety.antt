-- ===== src/Sweep/Classify/Safety.antt =====
-- What a stale entry is: nothing that is in use, and nothing that changed inside the grace window.
use agentic_dev_kit.Base.{
  ℕ, ◌+◌, ◌≤◌, String, ◌≡◌, refl, ap, sym, ◌∙◌, Bool, true, false, ◌&&◌, not, Option, none, some,
  List, [], ◌∷◌, ◌++◌, arith, if◌then◌else◌, max, leb, eqb, is_nil, is_some, all, &&-right,
}
use mathlib.Core.Bool.{false≢true}
use agentic_dev_kit.Sweep.Disk.{
  Identity, Kind, directory, regular, symlink, other, Stat, Step, unreadable, child, Disk, holds,
  overlaps,
}
use agentic_dev_kit.Sweep.Classify.{
  Scan, is_directory, probe, scan_step, scan_steps, scan, is_stale, Reason, Moment, first_overlap,
  configured_root_reason, live_reason, grace_reason, judge, judged, classify_kind, classify_found,
  classify,
}

-- the comparison succeeded, and found nothing shared
unfoldable pub is_apart : Option Bool → Bool
is_apart (some false) = true
is_apart _ = false

first_overlap-all :
    (test : String → Option Bool) (why : String → Reason) (ps : List String)
    → not (is_some (first_overlap test why ps)) ≡ all (λ p. is_apart (test p)) ps
unfolding first_overlap all is_apart
first_overlap-all test why [] = refl
first_overlap-all test why (p ∷ ps) = go (test p) (first_overlap-all test why ps)
  where
    go :
        (o : Option Bool)
        → not (is_some (first_overlap test why ps)) ≡ all (λ q. is_apart (test q)) ps
        → not (
            is_some (elim o [
              | none ↦ some (Reason.cannot_compare p)
              | some b ↦ if b then some (why p) else first_overlap test why ps
            ]))
          ≡ (is_apart o && all (λ q. is_apart (test q)) ps)
    go none ih = refl
    go (some true) ih = refl
    go (some false) ih = ih

-- the tests that a scanned entry passes if it is stale
unfoldable pub passes : Moment → List String → ℕ → String → Scan → Bool
passes m roots grace_ticks entry s =
    all (λ r. is_apart (holds m.disk entry r)) roots
    && (all (λ w. is_apart (overlaps m.disk entry w)) m.worktrees
        && (all (λ g. is_apart (overlaps m.disk entry g)) m.stores
            && (is_nil s.problems
                && (not (is_some s.linked) && leb (s.newest + grace_ticks) m.now))))

unfoldable pub is_file : Kind → Bool
is_file directory = true
is_file regular = true
is_file _ = false

judge_stale :
    (m : Moment) (roots : List String) (grace_ticks : ℕ) (entry : String) (i : Identity) (s : Scan)
    → is_stale (judge m roots grace_ticks entry i s).owner ≡ passes m roots grace_ticks entry s
unfolding judge judged configured_root_reason live_reason grace_reason passes is_stale
judge_stale m roots grace_ticks entry i s = ground (
  arith,
  first_overlap-all (holds m.disk entry) Reason.holds_root roots,
  first_overlap-all (overlaps m.disk entry) Reason.overlaps_worktree m.worktrees,
  first_overlap-all (overlaps m.disk entry) Reason.overlaps_store m.stores,
)

-- what a stale entry passed, for the `lstat` of it
unfoldable pub is_abandoned : Moment → List String → ℕ → String → ℕ → Stat → Bool
is_abandoned m roots grace_ticks entry device st =
    is_file st.kind
    && (eqb st.identity.device device && passes m roots grace_ticks entry (scan m.disk entry st))

classify_kind_stale :
    (m : Moment) (roots : List String) (grace_ticks : ℕ) (entry : String) (k : Kind) (device : ℕ)
    (st : Stat)
    → is_stale (classify_kind m roots grace_ticks entry k device st).owner ≡ (
        is_file k
        && (eqb st.identity.device device
            && passes m roots grace_ticks entry (scan m.disk entry st)))
unfolding classify_kind is_file is_stale
classify_kind_stale m roots grace_ticks entry symlink device st = refl
classify_kind_stale m roots grace_ticks entry other device st = refl
classify_kind_stale m roots grace_ticks entry directory device st =
    ground (arith, judge_stale m roots grace_ticks entry st.identity (scan m.disk entry st))
classify_kind_stale m roots grace_ticks entry regular device st =
    ground (arith, judge_stale m roots grace_ticks entry st.identity (scan m.disk entry st))

abbrev pub abandoned_at : Moment → List String → ℕ → String → ℕ → Option Stat → Bool
abandoned_at m roots grace_ticks entry device none = false
abandoned_at m roots grace_ticks entry device (some st) =
    is_abandoned m roots grace_ticks entry device st

found_stale :
    (m : Moment) (roots : List String) (grace_ticks : ℕ) (entry : String) (o : Option Stat)
    (device : ℕ)
    → is_stale (classify_found m roots grace_ticks entry o device).owner
      ≡ abandoned_at m roots grace_ticks entry device o
unfolding classify_found is_abandoned is_stale
found_stale m roots grace_ticks entry none device = refl
found_stale m roots grace_ticks entry (some st) device =
    classify_kind_stale m roots grace_ticks entry st.kind device st

-- An entry is classified as stale exactly when it is a file or a directory on the root's own device,
-- it is told apart from every other root, worktree and repository store, its walk met no problem and
-- no git directory in use, and its newest change is at least the grace window old.
pub classify_stale_iff :
    (m : Moment) (roots : List String) (grace_ticks : ℕ) (entry : String) (device : ℕ)
    → is_stale (classify m roots grace_ticks entry device).owner
      ≡ abandoned_at m roots grace_ticks entry device (m.disk.lstat entry)
unfolding classify
classify_stale_iff m roots grace_ticks entry device =
    found_stale m roots grace_ticks entry (m.disk.lstat entry) device

-- the walk's time is no earlier than what it started from, nor than any name it met
changed_by : ℕ → List Step → Bool
changed_by t [] = true
changed_by t (unreadable p ∷ xs) = changed_by t xs
changed_by t (child p n parts st ∷ xs) = leb st.changed t && changed_by t xs

newest-probe :
    (disk : Disk) (entry : String) (s : Scan) (path name : String) (parts : List String) (st : Stat)
    → ((probe disk entry s path name parts st).newest ≡ s.newest)
      × ((probe disk entry s path name parts st).problems ≡ s.problems)
unfolding probe
newest-probe disk entry s path name parts st = ground arith

newest-scan_steps :
    (disk : Disk) (entry : String) (device : ℕ) (s : Scan) (xs : List Step)
    → (s.newest ≤ (scan_steps disk entry device s xs).newest)
      × (changed_by (scan_steps disk entry device s xs).newest xs ≡ true)
unfolding scan_steps scan_step changed_by
newest-scan_steps disk entry device s [] = (omega arith, refl)
newest-scan_steps disk entry device s (unreadable p ∷ xs) = newest-scan_steps disk entry device _ xs
newest-scan_steps disk entry device s (child p n parts st ∷ xs) =
    let grown : Scan = record s {
      size = s.size + st.usage;
      newest = max s.newest st.changed;
      problems = if eqb st.identity.device device then s.problems else s.problems ++ p ∷ [];
    } in
    let probed = probe disk entry grown p n parts st in
    let kept = newest-probe disk entry grown p n parts st in
    let rest = newest-scan_steps disk entry device probed xs in
    ground (arith, kept.0, rest.0, rest.1)

-- every name of a walk was read, stands on the device, and last changed before the grace window
unfoldable pub quiet : ℕ → ℕ → ℕ → List Step → Bool
quiet device grace_ticks now [] = true
quiet device grace_ticks now (unreadable p ∷ xs) = false
quiet device grace_ticks now (child p n parts st ∷ xs) =
    eqb st.identity.device device
    && (leb (st.changed + grace_ticks) now && quiet device grace_ticks now xs)

on_device : ℕ → List Step → Bool
on_device device [] = true
on_device device (unreadable p ∷ xs) = false
on_device device (child p n parts st ∷ xs) = eqb st.identity.device device && on_device device xs

quiet_of :
    (t device grace_ticks now : ℕ) (xs : List Step)
    → changed_by t xs ≡ true
    → on_device device xs ≡ true
    → t + grace_ticks ≤ now
    → quiet device grace_ticks now xs ≡ true
unfolding quiet on_device changed_by
quiet_of t device grace_ticks now [] c d h = refl
quiet_of t device grace_ticks now (unreadable p ∷ xs) c d h = d
quiet_of t device grace_ticks now (child p n parts st ∷ xs) c d h =
    let rest : quiet device grace_ticks now xs ≡ true =
      quiet_of t device grace_ticks now xs (&&-right (leb st.changed t) _ c)
        (&&-right (eqb st.identity.device device) _ d) h in
    ground (arith, rest)

is_nil-snoc : (xs : List String) (x : String) → is_nil (xs ++ x ∷ []) ≡ false
is_nil-snoc [] x = refl
is_nil-snoc (y ∷ xs) x = refl

-- a walk without a problem met names of the entry's own device alone
problems-scan_steps :
    (disk : Disk) (entry : String) (device : ℕ) (s : Scan) (xs : List Step)
    → is_nil (scan_steps disk entry device s xs).problems ≡ true
    → (is_nil s.problems ≡ true) × (on_device device xs ≡ true)
unfolding scan_steps scan_step on_device
problems-scan_steps disk entry device s [] h = (h, refl)
problems-scan_steps disk entry device s (unreadable p ∷ xs) h =
    let rest = problems-scan_steps disk entry device _ xs h in
    absurd (false≢true (sym (is_nil-snoc s.problems p) ∙ rest.0))
problems-scan_steps disk entry device s (child p n parts st ∷ xs) h =
    let grown : Scan = record s {
      size = s.size + st.usage;
      newest = max s.newest st.changed;
      problems = if eqb st.identity.device device then s.problems else s.problems ++ p ∷ [];
    } in
    let probed = probe disk entry grown p n parts st in
    let kept = newest-probe disk entry grown p n parts st in
    let rest = problems-scan_steps disk entry device probed xs h in
    ground (arith, kept.1, rest.0, rest.1, is_nil-snoc s.problems p)

-- the walk that a scan took of its entry
scan_walk :
    (disk : Disk) (entry : String) (st : Stat)
    → is_nil (scan disk entry st).problems ≡ true
    → (st.changed ≤ (scan disk entry st).newest)
      × ((is_directory st.kind ≡ true)
          → (changed_by (scan disk entry st).newest (disk.walk entry) ≡ true)
            × (on_device st.identity.device (disk.walk entry) ≡ true))
unfolding scan
scan_walk disk entry st h =
    let start : Scan = record {
      size = st.usage;
      newest = st.changed;
      problems = [];
      linked = if disk.looks_like_git_dir entry then some (disk.detached_git_dir entry) else none;
      inner = [];
      detached = [];
    } in
    let times = newest-scan_steps disk entry st.identity.device start (disk.walk entry) in
    let places = problems-scan_steps disk entry st.identity.device start (disk.walk entry) in
    ground (arith, times.0, times.1, places)

passes_facts :
    (m : Moment) (roots : List String) (grace_ticks : ℕ) (entry : String) (s : Scan)
    → passes m roots grace_ticks entry s ≡ true
    → (is_nil s.problems ≡ true) × (s.newest + grace_ticks ≤ m.now)
unfolding passes
passes_facts m roots grace_ticks entry s h = ground arith

-- what a passed entry's last change says of its walk
passes-quiet :
    (m : Moment) (roots : List String) (grace_ticks : ℕ) (entry : String) (st : Stat)
    → passes m roots grace_ticks entry (scan m.disk entry st) ≡ true
    → (st.changed + grace_ticks ≤ m.now)
      × ((is_directory st.kind ≡ true)
          → quiet st.identity.device grace_ticks m.now (m.disk.walk entry) ≡ true)
passes-quiet m roots grace_ticks entry st h =
    let facts = passes_facts m roots grace_ticks entry (scan m.disk entry st) h in
    let walked = scan_walk m.disk entry st facts.0 in
    (
      (omega arith),
      λ d.
          quiet_of _ st.identity.device grace_ticks m.now (m.disk.walk entry) (walked.1 d).0
            (walked.1 d).1 facts.1,
    )

untouched_since :
    (m : Moment) (roots : List String) (grace_ticks : ℕ) (entry : String) (device : ℕ) (st : Stat)
    → is_abandoned m roots grace_ticks entry device st ≡ true
    → (st.identity.device ≡ device)
      × ((st.changed + grace_ticks ≤ m.now)
          × ((is_directory st.kind ≡ true)
              → quiet device grace_ticks m.now (m.disk.walk entry) ≡ true))
unfolding is_abandoned
untouched_since m roots grace_ticks entry device st h =
    let inside = &&-right (is_file st.kind) _ h in
    let past : passes m roots grace_ticks entry (scan m.disk entry st) ≡ true =
      &&-right (eqb st.identity.device device) _ inside in
    let same : st.identity.device ≡ device = ground (arith, inside) in
    let calm = passes-quiet m roots grace_ticks entry st past in
    (same, (calm.0, λ d. rw (← same) (calm.1 d)))

-- A stale entry was left alone for the grace window: it stands on the root's device, it last changed
-- at least the window ago, and so did every name that the walk of a directory met, all of them read
-- and on that device.
pub stale_untouched :
    (m : Moment) (roots : List String) (grace_ticks : ℕ) (entry : String) (device : ℕ) (st : Stat)
    → m.disk.lstat entry ≡ some st
    → is_stale (classify m roots grace_ticks entry device).owner ≡ true
    → (st.identity.device ≡ device)
      × ((st.changed + grace_ticks ≤ m.now)
          × ((is_directory st.kind ≡ true)
              → quiet device grace_ticks m.now (m.disk.walk entry) ≡ true))
stale_untouched m roots grace_ticks entry device st e h =
    untouched_since m roots grace_ticks entry device st (
      sym (ap (abandoned_at m roots grace_ticks entry device) e)
      ∙ (sym (classify_stale_iff m roots grace_ticks entry device) ∙ h))
