-- ===== src/PrWatch/Examples/Checks.antt =====
-- The theorems on the check rollup and on review bots' identities, at the test configuration.
use agentic_dev_kit.Base.{◌≡◌, ◌&&◌, ◌||◌, not, none, some, [], ◌∷◌, all, any}
use agentic_dev_kit.PrWatch.Checks.{CheckRow, summarize_checks}
use agentic_dev_kit.PrWatch.Checks.Counts.{all_green-summarize_checks, passes, is_blocking}
use agentic_dev_kit.PrWatch.Comments.{Comment, issue}
use agentic_dev_kit.PrWatch.Examples.Setup.{config, green_row}

abbrev red_row : CheckRow
red_row = record { conclusion = some "FAILURE"; state = none; name = some "lint"; context = none }

all_green-summarize_checks_example :
    (summarize_checks config (green_row ∷ red_row ∷ [])).all_green ≡ (
      all (passes config) (green_row ∷ red_row ∷ [])
      && (any (is_blocking config) (green_row ∷ red_row ∷ []) || not config.require_ci))
all_green-summarize_checks_example = all_green-summarize_checks config (green_row ∷ red_row ∷ [])

-- an outage notice of the configured bot
abbrev outage_comment : Comment
outage_comment = record {
  key = "issue:1";
  content_key = "c1";
  ack_key = some "t1";
  kind = issue;
  author = "coderabbitai";
  path = none;
  line = none;
  body = "Rate limit exceeded";
  unavailable = some "rate limit";
  untrusted = none;
}
