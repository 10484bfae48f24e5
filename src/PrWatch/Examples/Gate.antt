-- ===== src/PrWatch/Examples/Gate.antt =====
-- The merge gate's theorems at a pull request whose configured bot approved the head, or objects.
use agentic_dev_kit.Base.{elem, filter, join, lower, sorted_set, strip, upper}
use agentic_dev_kit.PrWatch.Clock.{age_minutes}
use agentic_dev_kit.PrWatch.Checks.{
  check_name, check_status, count_check, count_checks, is_informational, summarize_checks,
}
use agentic_dev_kit.PrWatch.Reviewer.{match_author, match_bot, trusted_bot_identities}
use agentic_dev_kit.PrWatch.Comments.{author_of, body_of}
use agentic_dev_kit.PrWatch.Coverage.{
  admit, bot_head_objections, bot_review_coverage, displace, insert_newest, newest_first,
  objecting_bot_coverage, qualifying_bot_coverage, reduce_latest_bot_reviews, reduce_review,
  reduce_reviews, review_entry, review_sha, review_state,
}
use agentic_dev_kit.PrWatch.Pending.{scan_details, summarize_review_bots}
use agentic_dev_kit.PrWatch.Gate.{decide_done}
use agentic_dev_kit.PrWatch.Gate.Settle.{carried_stamp, head_changed, rollup_moved, size_differs}
use agentic_dev_kit.PrWatch.Gate.Evidence.{
  coverage_error, receipt_valid, repair_is_pending, review_evidence,
}
use agentic_dev_kit.PrWatch.Gate.Report.{
  distinct, evidence_blockers, merge_blockers, rest_cannot_authorize_merge,
}
use agentic_dev_kit.PrWatch.Examples.Setup.{read_time, tally_size}
use agentic_dev_kit.PrWatch.Coverage.Latest.{kept, newer, next_of}
use agentic_dev_kit.Base.{length, is_nil, not, ◌&&◌, false, ◌≡◌, refl, true, none, some, [], ◌∷◌}
use agentic_dev_kit.PrWatch.Examples.Setup.{
  approval, clock, green_row, objection, reads, settled, config, digest, repo, green_view,
}
use agentic_dev_kit.PrWatch.Coverage.{ok, stands_at, objecting_states, verdict_states}
use agentic_dev_kit.PrWatch.Coverage.Latest.{says, latest_of}
use agentic_dev_kit.PrWatch.Comments.{collect_comments, new_actionable}
use agentic_dev_kit.PrWatch.Repo.{pr_review_class}
use agentic_dev_kit.PrWatch.Gate.Report.{gather, build_report}
use agentic_dev_kit.PrWatch.Gate.Safety.{nothing_blocks, mergeable_iff}
use agentic_dev_kit.PrWatch.Gate.Authorized.{HasEvidence, mergeable-HasEvidence}
use agentic_dev_kit.PrWatch.Gate.Refusals.{Baseline, objection_blocks, mergeable-Baseline}
use agentic_dev_kit.PrWatch.Gate.Settle.{settle_view}

authorized :
    (build_report clock config digest repo
      (green_view [] (approval ∷ []))
      []
      reads
      settled
      10).mergeable
    ≡ true
unfolding filter elem lower upper join strip sorted_set age_minutes check_status check_name
    is_informational count_check count_checks summarize_checks match_author match_bot
    trusted_bot_identities author_of body_of collect_comments new_actionable review_sha review_state
    review_entry displace admit reduce_review reduce_reviews insert_newest newest_first
    reduce_latest_bot_reviews bot_review_coverage bot_head_objections stands_at
    qualifying_bot_coverage objecting_bot_coverage scan_details summarize_review_bots decide_done
    head_changed size_differs rollup_moved carried_stamp settle_view coverage_error receipt_valid
    review_evidence repair_is_pending rest_cannot_authorize_merge distinct evidence_blockers
    merge_blockers gather build_report tally_size read_time clock
authorized = refl

mergeable-HasEvidence_example :
    HasEvidence repo config
      (pr_review_class repo (some "b0") (some "h1"))
      (some "h1")
      none
      ok
      (approval ∷ [])
mergeable-HasEvidence_example =
    mergeable-HasEvidence clock config digest repo (green_view [] (approval ∷ [])) [] reads settled
      10 authorized

mergeable-Baseline_example :
    Baseline clock config (some "h1") (length (green_row ∷ [])) settled.head settled.settle 10
mergeable-Baseline_example =
    mergeable-Baseline clock config digest repo (green_view [] (approval ∷ [])) [] reads settled 10
      authorized

objection_stands :
    says (stands_at "h1" objecting_states) (
      latest_of config
        (some "h1")
        config.bots
        (some verdict_states)
        "coderabbit"
        none
        (objection ∷ []))
    ≡ true
unfolding elem lower upper join strip match_author match_bot trusted_bot_identities author_of
    review_sha review_state review_entry stands_at newer kept next_of latest_of
objection_stands = refl

objection_blocks_example :
    (build_report clock config digest repo
      (green_view [] (objection ∷ []))
      []
      reads
      settled
      10).mergeable
    ≡ false
objection_blocks_example =
    objection_blocks clock config digest repo (green_view [] (objection ∷ [])) [] reads settled 10
      "h1" "coderabbit" refl refl objection_stands

mergeable_iff_example :
    let view = green_view [] (approval ∷ []) in
    let comments = collect_comments digest config [] (approval ∷ []) [] in
    let g = gather clock config digest repo view comments reads settled 10 in
    (build_report clock config digest repo view [] reads settled 10).mergeable ≡ (
      (g.checks.all_green && (is_nil (new_actionable config comments []) && not g.settle.settling))
      && (nothing_blocks view reads g && g.evidence.valid))
mergeable_iff_example =
    mergeable_iff clock config digest repo (green_view [] (approval ∷ [])) [] reads settled 10
