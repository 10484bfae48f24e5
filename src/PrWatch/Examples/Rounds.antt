-- ===== src/PrWatch/Examples/Rounds.antt =====
-- The round budget at one recorded round and one bot's review of another head.
use agentic_dev_kit.Base.{
  suc, ◌≡◌, String, Bool, true, ◌&&◌, ◌||◌, not, leb, any, length, some, [], ◌∷◌,
}
use agentic_dev_kit.Base.Json.{Json, str, arr, obj, nil, cons, field, end}
use agentic_dev_kit.PrWatch.State.{has_round, recorded_review_rounds}
use agentic_dev_kit.PrWatch.Budget.{is_head, review_round_summary}
use agentic_dev_kit.PrWatch.Budget.Heads.{heads_once, is_bot_review_of, review_round_summary-heads}
use agentic_dev_kit.PrWatch.Examples.Setup.{config, approval}

abbrev recorded_rounds : Json
recorded_rounds = arr (cons (obj (field "head" (str "h0") end)) nil)

review_round_summary-heads_example :
    let s = review_round_summary config (some recorded_rounds) (approval ∷ []) (some "h1") in
    let counts : String → Bool = λ h.
      has_round h (recorded_review_rounds (some recorded_rounds))
      || any (is_bot_review_of config (some "h1") h) (approval ∷ []) in
    ((h : String) → is_head h s.reviewed_heads ≡ counts h)
    × ((heads_once s.reviewed_heads ≡ true)
        × (s.next_round_needs_operator
            ≡ (leb (suc config.round_budget) (length s.reviewed_heads) && not (counts "h1"))))
review_round_summary-heads_example =
    review_round_summary-heads config (some recorded_rounds) (approval ∷ []) "h1"
