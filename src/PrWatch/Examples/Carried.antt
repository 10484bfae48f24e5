-- ===== src/PrWatch/Examples/Carried.antt =====
-- The theorems on what a poll carries over, at a state file with a receipt and a round.
use agentic_dev_kit.Base.{[], ◌∷◌}
use agentic_dev_kit.Base.Json.{str, obj, arr, cons, nil, Fields, field, end}
use agentic_dev_kit.PrWatch.State.{StateFile, holds}
use agentic_dev_kit.PrWatch.Gate.Report.{Report, build_report}
use agentic_dev_kit.PrWatch.Examples.Setup.{
  clock, config, digest, repo, green_view, approval, reads, settled,
}

abbrev report : Report
report = build_report clock config digest repo (green_view [] (approval ∷ [])) [] reads settled 10

abbrev old_receipt : Fields
old_receipt = field "head" (str "h0") (field "source" (str "fallback:two-lens") end)

abbrev old_file : StateFile
old_file = holds (
    obj (
      field "review_receipt" (obj old_receipt)
        (field "review_rounds" (arr (cons (obj old_receipt) (cons (str "bad") nil))) end)))
