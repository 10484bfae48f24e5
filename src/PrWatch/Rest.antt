-- ===== src/PrWatch/Rest.antt =====
-- What scripts/pr_watch.py derives on the REST transport in place of GraphQL's fields:
-- `_rest_review_decision`. An entry of a list is an object.
pub mod Decision
use agentic_dev_kit.Base.{
  String, Bool, true, false, ◌||◌, not, Option, none, some, List, [], ◌∷◌, if◌then◌else◌, upper,
  elem, ◌==◌,
}
use agentic_dev_kit.Base.Json.{Json, str, obj, Fields, end, field, get, put, as_text, as_obj}

-- `str(review.get("state") or "").upper()`, for a state that is a text or absent
unfoldable pub verdict_of : Fields → String
verdict_of review = elim (as_text (get review "state")) [ none ↦ "" | some s ↦ upper s ]

or_unknown : Option String → String
or_unknown none = "?"
or_unknown (some login) = if login == "" then "?" else login

login_of : Option Fields → Option String
login_of none = none
login_of (some user) = as_text (get user "login")

-- the author of a review, `"?"` where there is none
unfoldable pub reviewer : Fields → String
unfolding or_unknown login_of
reviewer review = or_unknown (login_of (as_obj (get review "user")))

-- the states that carry a verdict
unfoldable pub is_verdict : String → Bool
is_verdict v = elem v ("APPROVED" ∷ "CHANGES_REQUESTED" ∷ "DISMISSED" ∷ [])

-- the loop: the latest verdict of each author
unfoldable pub latest_verdicts : Fields → List Fields → Fields
unfolding verdict_of reviewer is_verdict
latest_verdicts latest [] = latest
latest_verdicts latest (r ∷ rs) =
    latest_verdicts
      (if is_verdict (verdict_of r) then put latest (reviewer r) (str (verdict_of r)) else latest)
      rs

-- `v in set(latest.values())`
unfoldable pub has_value : Fields → String → Bool
has_value end v = false
has_value (field k j fs) v =
    elim (as_text (some j)) [ none ↦ false | some s ↦ s == v ] || has_value fs v

-- `_rest_review_decision(reviews)`
unfoldable pub rest_review_decision : List Fields → Option String
unfolding latest_verdicts has_value
rest_review_decision reviews =
    let latest = latest_verdicts end reviews in
    if has_value latest "CHANGES_REQUESTED"
    then some "CHANGES_REQUESTED"
    else if has_value latest "APPROVED"
    then some "APPROVED"
    else none
