-- ===== src/PrWatch/Examples/Reviews.antt =====
-- The theorems on review submissions and on pending review bots, at the test configuration.
use agentic_dev_kit.Base.{contains, find?, join, lower, strip, upper, without_suffix}
use agentic_dev_kit.PrWatch.Coverage.{coerce_review_timestamp, review_sha, review_state}
use agentic_dev_kit.PrWatch.Reviewer.{
  match_author, match_bot, match_bot_identity, match_identity, review_unavailable_reason,
  stripped_names, trusted_bot_identities,
}
use agentic_dev_kit.PrWatch.Comments.{author_of}
use agentic_dev_kit.PrWatch.Coverage.Latest.{kept, newer, next_of}
use agentic_dev_kit.Base.Json.{get}
use agentic_dev_kit.PrWatch.Clock.{age_minutes}
use agentic_dev_kit.PrWatch.Checks.{check_is_pending}
use agentic_dev_kit.PrWatch.Pending.{
  announce, entry_blocker, is_trusted, pend, pend_entry, read_clock, scan_detail, scan_details,
  scan_matched, settle_entry,
}
use agentic_dev_kit.Base.{
  ◌≡◌, refl, ap, sym, ◌∙◌, text_le, true, ◌&&◌, none, some, [], ◌∷◌, ◌++◌, elem, map, filter,
}
use agentic_dev_kit.Base.Json.{end}
use agentic_dev_kit.PrWatch.Checks.{CheckDetail}
use agentic_dev_kit.PrWatch.Coverage.{
  Review, review_entry, ok, is_ok, stands_at, evidential_states, objecting_states, verdict_states,
  bot_review_coverage, bot_head_objections, qualifying_bot_coverage, objecting_bot_coverage,
}
use agentic_dev_kit.PrWatch.Coverage.Latest.{says, latest_of}
use agentic_dev_kit.PrWatch.Coverage.Verdicts.{qualifying_iff, newest_verdict_decides}
use agentic_dev_kit.PrWatch.Pending.{summarize_review_bots}
use agentic_dev_kit.PrWatch.Pending.Forgery.{reword, summarize_review_bots-reword}
use agentic_dev_kit.PrWatch.Examples.Setup.{clock, config, approval, objection}

qualifying_iff_example :
    elem "coderabbit" (
      qualifying_bot_coverage ok
        (bot_review_coverage config (objection ∷ approval ∷ []) (some "h1") config.bots)
        (some "h1"))
    ≡ (is_ok ok
        && says (stands_at "h1" evidential_states) (
            latest_of config
              (some "h1")
              config.bots
              none
              "coderabbit"
              none
              (objection ∷ approval ∷ [])))
qualifying_iff_example =
    qualifying_iff config ok (objection ∷ approval ∷ []) "h1" config.bots "coderabbit" refl

abbrev approved : Review
approved = record {
  bot = "coderabbit";
  sha = "h1";
  submitted_at = "2026-01-02T00:00:00Z";
  covers_head = true;
  state = "APPROVED";
}

abbrev objected : Review
objected = record {
  bot = "coderabbit";
  sha = "h1";
  submitted_at = "2026-01-01T00:00:00Z";
  covers_head = true;
  state = "CHANGES_REQUESTED";
}

approved_entry : review_entry config (some "h1") config.bots approval ≡ some approved
unfolding elem lower upper join strip match_author match_bot trusted_bot_identities author_of
    coerce_review_timestamp review_sha review_state review_entry
approved_entry = refl

objected_latest :
    latest_of config
      (some "h1")
      config.bots
      (some verdict_states)
      "coderabbit"
      none
      (objection ∷ [])
    ≡ some objected
unfolding elem lower upper join strip match_author match_bot trusted_bot_identities author_of
    coerce_review_timestamp review_sha review_state review_entry newer kept next_of latest_of
objected_latest = refl

some_inv : (a b : Review) → some a ≡ some b → a ≡ b
some_inv a b h = ap (λ o. elim o [ none ↦ a | some x ↦ x ]) h

newest_verdict_decides_example :
    elem "coderabbit" (
      objecting_bot_coverage
        (bot_head_objections config ((objection ∷ []) ++ approval ∷ []) (some "h1") config.bots)
        (some "h1"))
    ≡ stands_at "h1" objecting_states approved
unfolding elem text_le
newest_verdict_decides_example =
    newest_verdict_decides config (objection ∷ []) approval "h1" config.bots approved refl
      approved_entry refl
      (λ old e.
        ap (λ r. text_le r.submitted_at "2026-01-02T00:00:00Z")
          (some_inv old objected (sym e ∙ objected_latest)))

-- a running check that claims an outage under a creator that speaks for no bot
abbrev forged_row : CheckDetail
forged_row = record {
  name = some "coderabbit-shim";
  context = none;
  bucket = some "pending";
  state = some "PENDING";
  description = "Rate limit exceeded";
  started_at = none;
  identity = "github-actions";
}

summarize_review_bots-reword_example :
    let said = summarize_review_bots clock config (forged_row ∷ []) [] 10 end ok [] (some "h1") in
    let quiet =
      summarize_review_bots clock config
        (map (reword config "working") (forged_row ∷ []))
        []
        10
        end
        ok
        []
        (some "h1") in
    (said.pending ≡ quiet.pending)
    × (said.blockers ≡ quiet.blockers)
    × (said.pending_since ≡ quiet.pending_since)
unfolding find? lower contains review_unavailable_reason
summarize_review_bots-reword_example =
    summarize_review_bots-reword clock config 10 "working" (forged_row ∷ []) [] end ok []
      (some "h1") refl

-- the forged row blocks all the same
forged_row_blocks :
    map
      (λ b. b.check)
      (summarize_review_bots clock config (forged_row ∷ []) [] 10 end ok [] (some "h1")).blockers
    ≡ "coderabbit-shim" ∷ []
unfolding filter find? elem lower join strip contains without_suffix get age_minutes
    check_is_pending match_bot stripped_names trusted_bot_identities match_identity
    match_bot_identity review_unavailable_reason is_trusted pend_entry pend announce scan_matched
    scan_detail scan_details settle_entry entry_blocker summarize_review_bots read_clock
forged_row_blocks = refl
