-- ===== src/PrWatch/Examples/Polls.antt =====
-- The theorems on successive polls and on the state file, at the test pull request.
use agentic_dev_kit.Base.{filter, join, lower, sorted_set, strip, upper}
use agentic_dev_kit.PrWatch.Clock.{age_minutes}
use agentic_dev_kit.PrWatch.Checks.{
  check_name, check_status, count_check, count_checks, is_informational, summarize_checks,
}
use agentic_dev_kit.PrWatch.Reviewer.{match_author, match_bot, trusted_authors}
use agentic_dev_kit.PrWatch.Comments.{author_of, body_of}
use agentic_dev_kit.PrWatch.Coverage.{
  admit, bot_head_objections, bot_review_coverage, displace, insert_newest, newest_first,
  objecting_bot_coverage, qualifying_bot_coverage, reduce_latest_bot_reviews, reduce_review,
  reduce_reviews, review_entry, review_sha, review_state, stands_at,
}
use agentic_dev_kit.PrWatch.Pending.{scan_details, summarize_review_bots}
use agentic_dev_kit.PrWatch.Gate.{decide_done}
use agentic_dev_kit.PrWatch.Gate.Settle.{carried_stamp, head_changed, rollup_moved, size_differs}
use agentic_dev_kit.PrWatch.Gate.Evidence.{
  coverage_error, receipt_valid, repair_is_pending, review_evidence,
}
use agentic_dev_kit.PrWatch.Gate.Report.{
  distinct, evidence_blockers, gather, merge_blockers, rest_cannot_authorize_merge,
}
use agentic_dev_kit.PrWatch.Poll.{already_recorded, persist_to, record_baseline}
use agentic_dev_kit.PrWatch.Examples.Setup.{print_time, read_time, tally, tally_size}
use agentic_dev_kit.Base.{◌≡◌, ◌-◌, refl, true, none, some, [], ◌∷◌, elem, all, leb, arith}
use agentic_dev_kit.Base.Json.{str, obj, arr, Fields, field, end, get, text_items}
use agentic_dev_kit.PrWatch.Comments.{collect_comments, new_actionable}
use agentic_dev_kit.PrWatch.Comments.Acks.{without_token}
use agentic_dev_kit.PrWatch.State.{missing, holds, seen_of, mark_seen, read_settle_since}
use agentic_dev_kit.PrWatch.Gate.Settle.{settle_view}
use agentic_dev_kit.PrWatch.Gate.Report.{Report, build_report}
use agentic_dev_kit.PrWatch.Poll.{persist_poll, plain_poll, persist_settle_baseline}
use agentic_dev_kit.PrWatch.Poll.Ageing.{settled_after_grace}
use agentic_dev_kit.PrWatch.Poll.Acks.{acknowledged_poll}
use agentic_dev_kit.PrWatch.Examples.Setup.{
  clock, config, digest, repo, green_view, approval, reads, settled,
}

-- an authorized poll at time 10
abbrev poll : Report
poll = build_report clock config digest repo (green_view [] (approval ∷ [])) [] reads settled 10

-- the same at time 3 of a new head
abbrev first_poll : Report
first_poll =
    build_report clock config digest repo (green_view [] (approval ∷ [])) [] reads
      (record settled { settle = none }) 3

abbrev stored_state : Fields
stored_state = field "head" (str "h1") (field "pending_seen" (arr (text_items ("k" ∷ []))) end)

survives : (persist_settle_baseline (holds (obj stored_state)) poll none).report.mergeable ≡ true
unfolding filter elem lower upper join strip sorted_set get age_minutes check_status check_name
    is_informational count_check count_checks summarize_checks trusted_authors match_author
    match_bot author_of body_of collect_comments new_actionable review_sha review_state review_entry
    displace admit reduce_review reduce_reviews insert_newest newest_first reduce_latest_bot_reviews
    bot_review_coverage bot_head_objections stands_at qualifying_bot_coverage objecting_bot_coverage
    scan_details summarize_review_bots decide_done head_changed size_differs rollup_moved
    carried_stamp settle_view coverage_error receipt_valid review_evidence repair_is_pending
    rest_cannot_authorize_merge distinct evidence_blockers merge_blockers gather build_report
    already_recorded record_baseline persist_to persist_settle_baseline tally_size read_time clock
survives = refl

settled_after_grace_example :
    (settle_view clock config 9 first_poll.head first_poll.gathered.checks.total
      (some (str "h1"))
      1
      (read_settle_since (persist_poll missing first_poll []) first_poll.head)).settled
    ≡ leb config.settle_grace (9 - 3)
unfolding strip head_changed carried_stamp settle_view gather build_report tally print_time clock
settled_after_grace_example =
    settled_after_grace clock config missing first_poll [] "h1" 1 (some (str "h1")) 3 9 refl refl
      refl refl refl refl (ground arith) (ground arith)

acknowledged_poll_example :
    all without_token (
      new_actionable config (collect_comments digest config (approval ∷ []) (approval ∷ []) []) (
        seen_of
          (mark_seen
            (plain_poll clock config digest repo missing
              (green_view (approval ∷ []) (approval ∷ []))
              reads
              10).0).0))
    ≡ true
acknowledged_poll_example =
    acknowledged_poll clock config digest repo missing (green_view (approval ∷ []) (approval ∷ []))
      reads 10
