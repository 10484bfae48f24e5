-- ===== src/PrWatch/Poll/Carried.antt =====
-- What a plain poll carries over from the state file: the review receipt and the review rounds.
use agentic_dev_kit.Base.{◌≡◌, ap, ◌∙◌, String, List, Option, none, some}
use agentic_dev_kit.Base.Json.{Json, arr, obj, Items, nil, cons, Fields, get, put, get-put}
use agentic_dev_kit.PrWatch.State.{
  StateFile, load_state, put_seen, usable_rounds, recorded_review_rounds,
}
use agentic_dev_kit.PrWatch.State.Rounds.{usable_rounds-recorded}
use agentic_dev_kit.PrWatch.Gate.Report.{Report}
use agentic_dev_kit.PrWatch.Poll.{
  put_settle_baseline, carry_receipt, carry_rounds, poll_state, persist_poll,
}
use agentic_dev_kit.PrWatch.Poll.Ageing.{
  get-carry_receipt, get-carry_rounds, get-write_pending_since,
}

carried_receipt :
    (state : Fields) (receipt : Fields)
    → get (carry_receipt state (some (obj receipt))) "review_receipt" ≡ some (obj receipt)
unfolding carry_receipt
carried_receipt state receipt = simp get-put

-- A plain poll keeps the review receipt as the state file holds it, whatever its head.
pub persist_poll-receipt :
    (file : StateFile) (r : Report) (seen : List String) (receipt : Fields)
    → get (load_state file) "review_receipt" ≡ some (obj receipt)
    → get (persist_poll file r seen) "review_receipt" ≡ some (obj receipt)
unfolding persist_poll
persist_poll-receipt file r seen receipt h = simp get-carry_rounds (
    ap (λ o. get (carry_receipt (poll_state r seen) o) "review_receipt") h
    ∙ carried_receipt (poll_state r seen) receipt)

no_rounds :
    (r : Report) (seen : List String) (receipt : Option Json)
    → get (carry_receipt (poll_state r seen) receipt) "review_rounds" ≡ none
unfolding poll_state put_settle_baseline put_seen get
no_rounds r seen receipt = simp (get-carry_receipt, get-write_pending_since, get-put)

carried_rounds :
    (state : Fields) (xs : Items)
    → get state "review_rounds" ≡ none
    → usable_rounds xs ≡ xs
    → recorded_review_rounds (get (carry_rounds state xs) "review_rounds") ≡ xs
unfolding carry_rounds recorded_review_rounds
carried_rounds state nil h u = ap recorded_review_rounds h
carried_rounds state (cons x xs) h u = ap recorded_review_rounds (rounds_put state (cons x xs)) ∙ u
  where
    rounds_put :
        (fs : Fields) (ys : Items)
        → get (put fs "review_rounds" (arr ys)) "review_rounds" ≡ some (arr ys)
    rounds_put fs ys = simp get-put

-- A plain poll counts no review round and loses none: the usable rounds after it are those before.
pub persist_poll-rounds :
    (file : StateFile) (r : Report) (seen : List String)
    → recorded_review_rounds (get (persist_poll file r seen) "review_rounds")
      ≡ recorded_review_rounds (get (load_state file) "review_rounds")
unfolding persist_poll
persist_poll-rounds file r seen =
    carried_rounds _ (recorded_review_rounds (get (load_state file) "review_rounds"))
      (no_rounds r seen (get (load_state file) "review_receipt"))
      (usable_rounds-recorded (get (load_state file) "review_rounds"))
