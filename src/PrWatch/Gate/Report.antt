-- ===== src/PrWatch/Gate/Report.antt =====
-- `build_report` of scripts/pr_watch.py. The fields `review_rounds` and `evidence_findings`, which
-- gate nothing, and the excerpts and the wording of the lines are left out.
use agentic_dev_kit.Base.{
  ℕ, String, Bool, true, false, ◌&&◌, ◌||◌, not, Option, none, some, List, [], ◌∷◌, ◌++◌, map, ltb,
  is_nil, if◌then◌else◌, elem, upper, or_text, sorted_set, ◌==◌,
}
use agentic_dev_kit.Base.Json.{as_obj}
use agentic_dev_kit.PrWatch.Config.{Config}
use agentic_dev_kit.PrWatch.Clock.{Clock}
use agentic_dev_kit.PrWatch.Checks.{ChecksReport, summarize_checks}
use agentic_dev_kit.PrWatch.Comments.{Digest, Comment, collect_comments, new_actionable, seen_keys}
use agentic_dev_kit.PrWatch.Coverage.{qualifying_bot_coverage, objecting_bot_coverage}
use agentic_dev_kit.PrWatch.Pending.{ReviewBots, summarize_review_bots, review_owed}
use agentic_dev_kit.PrWatch.Repo.{Repo, ReviewClass, pr_review_class}
use agentic_dev_kit.PrWatch.Receipt.{CoverageError}
use agentic_dev_kit.PrWatch.Gate.Settle.{SettleView, settle_view}
use agentic_dev_kit.PrWatch.Gate.Evidence.{
  ReviewEvidence, coverage_error, review_evidence, repair_is_pending,
}
use agentic_dev_kit.PrWatch.Gate.{
  View, Prior, Backend, gh, rest, Reads, Blocker, rest_poll_only, unread, not_open, draft,
  merge_state_is, changes_requested, bots_object, coverage_invalid, no_evidence, repair_pending,
  not_settled, bot_pending, decide_converged, decide_mergeable,
}

-- `rest_cannot_authorize_merge(backend)`, for the backend that performed the reads
unfoldable pub rest_cannot_authorize_merge : Backend → Bool
rest_cannot_authorize_merge rest = true
rest_cannot_authorize_merge gh = false

abbrev pub when : Bool → Blocker → List Blocker
when b x = if b then x ∷ [] else []

-- `list(dict.fromkeys(xs))`: the first occurrence of each text
unfoldable pub distinct : List String → List String → List String
distinct known [] = []
distinct known (x ∷ xs) =
    let again = elem x known in
    let rest = distinct (if again then known else x ∷ known) xs in if again then rest else x ∷ rest

-- An `UNSTABLE` merge state that only informational checks explain.
unfoldable pub informational_only_unstable : String → ChecksReport → Bool
informational_only_unstable merge_state checks =
    merge_state == "UNSTABLE" && (checks.all_green && ltb 0 checks.informational_non_green)

unfoldable pub evidence_blockers : Option CoverageError → Bool → List Blocker
evidence_blockers (some e) valid = coverage_invalid e ∷ []
evidence_blockers none valid = when (not valid) no_evidence

pub record Gathered : Type 0 where
  pub checks : ChecksReport
  pub review_bots : ReviewBots
  pub settle : SettleView
  pub class : ReviewClass
  pub coverage_error : Option CoverageError
  pub objecting_bots : List String
  pub evidence : ReviewEvidence
  pub repair_pending : Bool

abbrev pub pr_state : View → String
pr_state view = upper (or_text view.state "UNKNOWN")

abbrev pub merge_state : View → String
merge_state view = upper (or_text view.merge_state "UNKNOWN")

abbrev pub review_decision : View → String
review_decision view = upper (or_text view.review_decision "")

-- `merge_blockers`, in the order of the source
unfoldable pub merge_blockers : View → Reads → Gathered → List Blocker
merge_blockers view reads g =
    when (rest_cannot_authorize_merge reads.backend) rest_poll_only
    ++ (map unread (distinct [] reads.unavailable)
        ++ (when (not (pr_state view == "OPEN")) (not_open (pr_state view))
            ++ (when view.is_draft draft
                ++ (when
                      (not (merge_state view == "CLEAN" || merge_state view == "HAS_HOOKS")
                        && not (informational_only_unstable (merge_state view) g.checks))
                      (merge_state_is (merge_state view))
                    ++ (when (review_decision view == "CHANGES_REQUESTED") changes_requested
                        ++ (when (not (is_nil g.objecting_bots)) (bots_object g.objecting_bots)
                            ++ (evidence_blockers g.coverage_error g.evidence.valid
                                ++ (when g.repair_pending repair_pending
                                    ++ (when (not g.settle.settled) (not_settled g.settle.age)
                                        ++ map bot_pending g.review_bots.blockers)))))))))

pub record Report : Type 0 where
  pub head : Option String
  pub backend : Backend
  pub gathered : Gathered
  pub review_owed : Option (List String)
  pub merge_blockers : List Blocker
  pub new_comments : List Comment
  pub all_comment_keys : List String
  pub all_seen_keys : List String
  pub converged : Bool
  pub mergeable : Bool
  pub done : Bool

module _ (clk : Clock) (cfg : Config) (dg : Digest) (repo : Repo) where
  -- the parts of the report that the gate reads
  unfoldable pub gather : View → List Comment → Reads → Prior → ℕ → Gathered
  gather view comments reads prior now =
      let checks = summarize_checks cfg view.rollup in
      let bots =
        summarize_review_bots clk cfg reads.details comments now prior.pending_since reads.signal
          view.reviews view.head in
      let class = pr_review_class repo view.base_oid view.head in
      let receipt = as_obj prior.receipt in
      let error = coverage_error repo class receipt view.head in
      record {
        checks = checks;
        review_bots = bots;
        settle =
            settle_view clk cfg now view.head checks.total prior.head prior.max_total prior.settle;
        class = class;
        coverage_error = error;
        objecting_bots = objecting_bot_coverage bots.objections view.head;
        evidence =
            review_evidence receipt view.head error
              (qualifying_bot_coverage bots.signal bots.coverage view.head);
        repair_pending = repair_is_pending receipt view.head;
      }

  -- `build_report(view, inline, seen, ...)`
  unfoldable pub build_report : View → List String → Reads → Prior → ℕ → Report
  build_report view seen reads prior now =
      let comments = collect_comments dg cfg view.comments view.reviews view.inlines in
      let fresh = new_actionable cfg comments seen in
      let g = gather view comments reads prior now in
      let blockers = merge_blockers view reads g in
      let converged = decide_converged g.checks fresh g.settle.settling in
      let mergeable = decide_mergeable converged blockers g.evidence.valid in
      record {
        head = view.head;
        backend = reads.backend;
        gathered = g;
        review_owed = review_owed cfg g.review_bots;
        merge_blockers = blockers;
        new_comments = fresh;
        all_comment_keys = map (λ c. c.key) comments;
        all_seen_keys = sorted_set (seen_keys comments);
        converged = converged;
        mergeable = mergeable;
        done = mergeable;
      }
