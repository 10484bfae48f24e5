-- ===== src/PrWatch/Gate/Safety.antt =====
-- What an authorized merge has behind it.
use agentic_dev_kit.Base.{
  ℕ, String, ◌≡◌, refl, Bool, true, false, ◌&&◌, ◌||◌, not, List, [], ◌∷◌, ◌++◌, map, is_nil, elem,
  ◌==◌,
}
use agentic_dev_kit.PrWatch.Config.{Config}
use agentic_dev_kit.PrWatch.Clock.{Clock}
use agentic_dev_kit.PrWatch.Comments.{Digest, collect_comments, new_actionable}
use agentic_dev_kit.PrWatch.Repo.{Repo}
use agentic_dev_kit.PrWatch.Gate.{View, Prior, Reads, Blocker, decide_converged, decide_mergeable}
use agentic_dev_kit.PrWatch.Gate.Report.{
  Gathered, when, distinct, rest_cannot_authorize_merge, informational_only_unstable,
  evidence_blockers, pr_state, merge_state, review_decision, merge_blockers, gather, build_report,
}

is_nil-append : (xs ys : List Blocker) → is_nil (xs ++ ys) ≡ (is_nil xs && is_nil ys)
is_nil-append [] ys = refl
is_nil-append (x ∷ xs) ys = refl

is_nil-map {ℓ} : {A : Type ℓ} (f : A → Blocker) (xs : List A) → is_nil (map f xs) ≡ is_nil xs
is_nil-map f [] = refl
is_nil-map f (x ∷ xs) = refl

is_nil-when : (b : Bool) (x : Blocker) → is_nil (when b x) ≡ not b
is_nil-when true x = refl
is_nil-when false x = refl

is_nil-distinct : (xs : List String) → is_nil (distinct [] xs) ≡ is_nil xs
unfolding distinct elem
is_nil-distinct [] = refl
is_nil-distinct (x ∷ xs) = refl

-- the merge state lets the pull request through
abbrev pub state_is_clear : View → Gathered → Bool
state_is_clear view g =
    merge_state view == "CLEAN"
    || (merge_state view == "HAS_HOOKS" || informational_only_unstable (merge_state view) g.checks)

-- nothing stands against the merge, read condition by condition
abbrev pub nothing_blocks : View → Reads → Gathered → Bool
nothing_blocks view reads g =
    not (rest_cannot_authorize_merge reads.backend)
    && (is_nil reads.unavailable
        && (pr_state view == "OPEN"
            && (not view.is_draft
                && (state_is_clear view g
                    && (not (review_decision view == "CHANGES_REQUESTED")
                        && (is_nil g.objecting_bots
                            && (is_nil (evidence_blockers g.coverage_error g.evidence.valid)
                                && (not g.repair_pending
                                    && (g.settle.settled && is_nil g.review_bots.blockers)))))))))

ruleset nil_laws = (is_nil-append, is_nil-map, is_nil-when, is_nil-distinct)

not-not : (b : Bool) → not (not b) ≡ b
not-not true = refl
not-not false = refl

any_of_three : (a b c : Bool) → not (not (a || b) && not c) ≡ (a || (b || c))
any_of_three true b c = refl
any_of_three false true c = refl
any_of_three false false true = refl
any_of_three false false false = refl

is_nil-merge_blockers :
    (view : View) (reads : Reads) (g : Gathered)
    → is_nil (merge_blockers view reads g) ≡ nothing_blocks view reads g
unfolding merge_blockers
is_nil-merge_blockers view reads g = simp (nil_laws, not-not, any_of_three)

-- The report authorizes a merge exactly when the watch loop has converged (green checks, nothing
-- new to act on, no false settle), no single condition of the gate stands against it, and there is
-- valid review evidence.
pub mergeable_iff :
    (clk : Clock) (cfg : Config) (dg : Digest) (repo : Repo) (view : View) (seen : List String)
    (reads : Reads) (prior : Prior) (now : ℕ)
    → let comments = collect_comments dg cfg view.comments view.reviews view.inlines in
      let g = gather clk cfg dg repo view comments reads prior now in
      (build_report clk cfg dg repo view seen reads prior now).mergeable ≡ (
        (g.checks.all_green && (is_nil (new_actionable cfg comments seen) && not g.settle.settling))
        && (nothing_blocks view reads g && g.evidence.valid))
unfolding build_report decide_mergeable decide_converged
mergeable_iff clk cfg dg repo view seen reads prior now = rw is_nil-merge_blockers
