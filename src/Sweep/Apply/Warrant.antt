-- ===== src/Sweep/Apply/Warrant.antt =====
-- What `apply` of scripts/sweep_scratch.py removes, told from the reads of each turn.
use agentic_dev_kit.Base.{
  ℕ, String, ◌≡◌, refl, ap, ◌∙◌, Bool, true, false, ◌&&◌, ◌||◌, not, Option, none, some, List, [],
  ◌∷◌, if◌then◌else◌, arith, elem, ◌==◌, eq_iff,
}
use agentic_dev_kit.Sweep.Paths.{dirname, basename}
use agentic_dev_kit.Sweep.Disk.{Identity, Kind, directory, regular, symlink, other, Stat, Disk}
use agentic_dev_kit.Sweep.Classify.{
  Entry, is_stale, is_directory, Moment, classify, classify_kind, classify_found, judge, judged,
  refuse, Scan, scan,
}
use agentic_dev_kit.Sweep.Classify.Safety.{is_file, abandoned_at, classify_stale_iff}
use agentic_dev_kit.Sweep.Apply.{
  not_child, unresolved, Removal, done, errored, refused, same_as, Final, delete, remove_kind,
  is_link, remove_found, remove_entry, Action, removed, is_aged, same_option, removal_action,
  is_due, judge_fresh, act_at,
}

unfoldable pub is_done : Removal → Bool
is_done done = true
is_done _ = false

-- the entry that stands there is the one that was classified, and can be deleted
unfoldable pub fits : Final → Option Identity → Option Stat → Bool
fits f identity none = false
fits f identity (some st) =
    same_as identity st.identity
    && (is_file st.kind && ((f.safe_rmtree || not (is_directory st.kind)) && f.deleted))

-- a direct child of a root that resolves to itself
unfoldable pub is_child : Disk → String → String → Bool
is_child disk entry root =
    dirname entry == root
    && (not (entry == root)
        && (not (elem (basename entry) ("" ∷ "." ∷ ".." ∷ [])) && disk.realpath root == root))

remove_kind_iff :
    (f : Final) (k : Kind)
    → is_done (remove_kind f k)
      ≡ (is_file k && ((f.safe_rmtree || not (is_directory k)) && f.deleted))
unfolding remove_kind delete is_done is_file is_directory
remove_kind_iff f directory = ground arith
remove_kind_iff f regular = ground arith
remove_kind_iff f symlink = refl
remove_kind_iff f other = refl

remove_found_iff :
    (f : Final) (identity : Option Identity) (o : Option Stat)
    → is_done (remove_found f identity o) ≡ fits f identity o
unfolding remove_found fits is_link is_file is_done
remove_found_iff f identity none = refl
remove_found_iff f identity (some st) = ground (arith, remove_kind_iff f st.kind)

guarded :
    (itself dots below resolves parent : Bool) (r : Removal) (b : Bool)
    → (below ≡ true → parent ≡ resolves)
    → is_done r ≡ b
    → is_done (
        if itself || (dots || not below)
        then refused not_child
        else if not resolves || not parent
        then refused unresolved
        else r)
      ≡ ((below && (not itself && (not dots && resolves))) && b)
unfolding is_done
guarded true dots below resolves parent r b h e = ground arith
guarded false true below resolves parent r b h e = ground arith
guarded false false false resolves parent r b h e = refl
guarded false false true resolves parent r b h e = rw (h refl) (ground (arith, e))

-- `remove_entry` deletes an entry exactly when it is a direct child of a root that resolves to
-- itself, stands there with the identity it was classified by, is a file or a directory that can be
-- removed safely, and the deletion succeeds.
pub remove_entry_iff :
    (f : Final) (entry root : String) (identity : Option Identity)
    → is_done (remove_entry f entry root identity)
      ≡ (is_child f.disk entry root && fits f identity (f.disk.lstat entry))
unfolding remove_entry is_child
remove_entry_iff f entry root identity =
    guarded (entry == root) (elem (basename entry) ("" ∷ "." ∷ ".." ∷ [])) (dirname entry == root)
      (f.disk.realpath root == root) (f.disk.realpath (dirname entry) == root) _ _
      (λ y. ap (λ d. f.disk.realpath d == root) ((eq_iff (dirname entry) root).0 y))
      (remove_found_iff f identity (f.disk.lstat entry))

same_by : Option Identity → Option Stat → Bool
same_by identity none = false
same_by identity (some st) = same_option (some st.identity) identity

fits_at : Final → Option Stat → Option Stat → Bool
fits_at f none last = false
fits_at f (some st) last = fits f (some st.identity) last

-- What a removal wants of its turn: the fresh read finds the entry stale, old enough and with the
-- identity of the report, and at the deletion it is a child of its root, the same one still.
unfoldable pub warranted_at :
    ℕ → ℕ → List String → String → ℕ → Final → Entry → Option Moment → Bool
unfolding same_by fits_at
warranted_at grace_ticks older_than others root device f e none = false
warranted_at grace_ticks older_than others root device f e (some m) =
    abandoned_at m others grace_ticks e.path device (m.disk.lstat e.path)
    && (is_aged older_than (classify m others grace_ticks e.path device).age
        && (same_by e.identity (m.disk.lstat e.path)
            && (is_child f.disk e.path root
                && fits_at f (m.disk.lstat e.path) (f.disk.lstat e.path))))

unfoldable pub is_removed : Action → Bool
is_removed removed = true
is_removed _ = false

is_removed-removal_action : (r : Removal) → is_removed (removal_action r) ≡ is_done r
unfolding is_removed removal_action is_done
is_removed-removal_action done = refl
is_removed-removal_action errored = refl
is_removed-removal_action (refused why) = refl

judge_identity :
    (m : Moment) (roots : List String) (grace_ticks : ℕ) (entry : String) (i : Identity) (s : Scan)
    → (judge m roots grace_ticks entry i s).identity ≡ some i
unfolding judge judged
judge_identity m roots grace_ticks entry i s = ground arith

classify_kind_identity :
    (m : Moment) (roots : List String) (grace_ticks : ℕ) (entry : String) (k : Kind) (device : ℕ)
    (st : Stat)
    → (classify_kind m roots grace_ticks entry k device st).identity ≡ some st.identity
unfolding classify_kind refuse
classify_kind_identity m roots grace_ticks entry symlink device st = refl
classify_kind_identity m roots grace_ticks entry other device st = refl
classify_kind_identity m roots grace_ticks entry directory device st =
    ground (arith, judge_identity m roots grace_ticks entry st.identity (scan m.disk entry st))
classify_kind_identity m roots grace_ticks entry regular device st =
    ground (arith, judge_identity m roots grace_ticks entry st.identity (scan m.disk entry st))

judge_fresh_iff :
    (grace_ticks older_than : ℕ) (others : List String) (root : String) (device : ℕ) (f : Final)
    (e fresh : Entry)
    → is_removed (judge_fresh grace_ticks older_than others root device f e fresh) ≡ (
        is_stale fresh.owner
        && (is_aged older_than fresh.age
            && (same_option fresh.identity e.identity
                && is_done (remove_entry f e.path root fresh.identity))))
unfolding judge_fresh is_due is_removed
judge_fresh_iff grace_ticks older_than others root device f e fresh =
    ground (arith, is_removed-removal_action (remove_entry f e.path root fresh.identity))

abbrev stat_identity : Option Stat → Option Identity
stat_identity none = none
stat_identity (some st) = some st.identity

classify_found_identity :
    (m : Moment) (roots : List String) (grace_ticks : ℕ) (entry : String) (device : ℕ)
    (o : Option Stat)
    → (classify_found m roots grace_ticks entry o device).identity ≡ stat_identity o
unfolding classify_found
classify_found_identity m roots grace_ticks entry device none = refl
classify_found_identity m roots grace_ticks entry device (some st) =
    classify_kind_identity m roots grace_ticks entry st.kind device st

-- the tests on a fresh entry, and those on the `lstat` it was told from
same_tests :
    (m : Moment) (roots : List String) (grace_ticks : ℕ) (e : Entry) (device : ℕ) (f : Final)
    (root : String) (aged : Bool) (i : Option Identity) (o : Option Stat)
    → i ≡ stat_identity o
    → (abandoned_at m roots grace_ticks e.path device o
        && (aged && (same_option i e.identity && is_done (remove_entry f e.path root i))))
      ≡ (abandoned_at m roots grace_ticks e.path device o
          && (aged
              && (same_by e.identity o
                  && (is_child f.disk e.path root && fits_at f o (f.disk.lstat e.path)))))
unfolding same_by fits_at
same_tests m roots grace_ticks e device f root aged i none h = refl
same_tests m roots grace_ticks e device f root aged i (some st) h =
    rw h (rw (remove_entry_iff f e.path root (some st.identity)) refl)

pub act_at_iff :
    (grace_ticks older_than : ℕ) (others : List String) (root : String) (device : ℕ) (f : Final)
    (e : Entry) (o : Option Moment)
    → is_removed (act_at grace_ticks older_than others root device f e o)
      ≡ warranted_at grace_ticks older_than others root device f e o
unfolding act_at warranted_at is_removed
act_at_iff grace_ticks older_than others root device f e none = refl
act_at_iff grace_ticks older_than others root device f e (some m) =
    let fresh = classify m others grace_ticks e.path device in
    judge_fresh_iff grace_ticks older_than others root device f e fresh
    ∙ rw (classify_stale_iff m others grace_ticks e.path device) (
        same_tests m others grace_ticks e device f root (is_aged older_than fresh.age)
          fresh.identity (m.disk.lstat e.path)
          (unfold classify in
            classify_found_identity m others grace_ticks e.path device (m.disk.lstat e.path)))
