-- ===== src/PrWatch/Examples/Grace.antt =====
-- The theorem on the grace window of a pending bot, at a running check of the configured bot.
use agentic_dev_kit.Base.{◌≡◌, refl, false, none, some, [], ◌∷◌, any, ◌==◌, arith}
use agentic_dev_kit.Base.Json.{str, Fields, field, end}
use agentic_dev_kit.PrWatch.Checks.{CheckDetail}
use agentic_dev_kit.PrWatch.Coverage.{ok}
use agentic_dev_kit.PrWatch.Pending.{summarize_review_bots}
use agentic_dev_kit.PrWatch.Pending.Grace.{grace_unblocks}
use agentic_dev_kit.PrWatch.Examples.Setup.{clock, config, tally, print_time}
use agentic_dev_kit.Base.Json.{get}

abbrev running_row : CheckDetail
running_row = record {
  name = some "CodeRabbit";
  context = none;
  bucket = some "pending";
  state = some "PENDING";
  description = "Review in progress";
  started_at = none;
  identity = "coderabbitai";
}

-- pending since time 1
abbrev clocks : Fields
clocks = field "coderabbit" (str "T1") end

grace_unblocks_example :
    any
      (λ x. x.bot == "coderabbit")
      (summarize_review_bots clock config
        (running_row ∷ [])
        []
        16
        clocks
        ok
        []
        (some "h1")).blockers
    ≡ false
unfolding clock print_time tally get
grace_unblocks_example =
    grace_unblocks clock config (running_row ∷ []) [] 16 1 clocks ok [] (some "h1") "coderabbit"
      refl refl (ground arith) (ground arith)
