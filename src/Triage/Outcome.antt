-- ===== src/Triage/Outcome.antt =====
-- The result dispositions of scripts/lib/triage/outcome.py: `session_waiting_on` and
-- `disposition_fields`. A session's operations are objects, as its validation requires.
pub mod Receipt
pub mod Dispositions
use agentic_dev_kit.Base.{
  String, Bool, true, false, ◌&&◌, ◌||◌, not, Option, none, some, List, [], ◌∷◌, elem, is_some,
  if◌then◌else◌, ◌==◌,
}
use agentic_dev_kit.Base.Json.{
  is_str, Json, null, str, arr, obj, Items, nil, cons, Fields, get, as_text,
}

-- `COMPLETED_OUTCOMES`
abbrev pub completed_outcomes : List String
completed_outcomes = "successful-completion" ∷ "degraded-success" ∷ []

-- `WAITING_ON`
abbrev pub waits : List String
waits =
    "analysis" ∷ "notification-delivery" ∷ "approval" ∷ "tracker-write" ∷ "finalize"
    ∷ "recovery-approval" ∷ "rerun" ∷ "reconciliation" ∷ []

-- `REFUSAL_CODES`
abbrev pub refusal_codes : List String
refusal_codes =
    "repository-identity" ∷ "configuration-identity" ∷ "single-writer-gate" ∷ "active-state"
    ∷ "invalid-invocation" ∷ "unclassified" ∷ []

-- the three keys of a disposition; an absent text is `None`
pub record Disposition : Type 0 where
  pub disposition : String
  pub waiting_on : Option String
  pub refusal_code : Option String

-- `value in texts`, for a value of JSON
unfoldable pub among : List String → Option Json → Bool
among texts v = elim (as_text v) [ none ↦ false | some s ↦ elem s texts ]

-- `refusal_code if refusal_code in REFUSAL_CODES else "unclassified"`
unfoldable pub code_text : Option String → String
code_text none = "unclassified"
code_text (some s) = if elem s refusal_codes then s else "unclassified"

unfoldable pub code_of : Option Json → String
unfolding code_text
code_of v = code_text (as_text v)

abbrev pub refused : Option Json → Disposition
refused code = record {
  disposition = "refused";
  waiting_on = none;
  refusal_code = some (code_of code);
}

unfoldable pub held_text : Option String → Option Json → Disposition
held_text none refusal_code = refused refusal_code
held_text (some w) refusal_code =
    if elem w waits
    then record { disposition = "waiting"; waiting_on = some w; refusal_code = none }
    else refused refusal_code

-- what a held outcome is
unfoldable pub held_fields : Option Json → Option Json → Disposition
unfolding held_text code_of
held_fields waiting_on refusal_code = held_text (as_text waiting_on) refusal_code

-- `disposition_fields(outcome, waiting_on=..., refusal_code=...)`
unfoldable pub disposition_fields : String → Option Json → Option Json → Disposition
unfolding held_fields code_of
disposition_fields outcome waiting_on refusal_code =
    if elem outcome completed_outcomes
    then record { disposition = "completed"; waiting_on = none; refusal_code = none }
    else if outcome == "operator-held"
    then held_fields waiting_on refusal_code
    else refused refusal_code

-- the last of the operations, `none` where there are none
last_of : Items → Option Fields
last_of nil = none
last_of (cons (obj fs) nil) = some fs
last_of (cons x nil) = none
last_of (cons x xs) = last_of xs

unfoldable pub last_operation : Option Json → Option Fields
unfolding last_of
last_operation (some (arr xs)) = last_of xs
last_operation _ = none

-- an operation that is not verified
unfoldable pub unverified : Option Fields → Bool
unverified none = false
unverified (some op) = not (is_str (get op "status") "verified")

-- an operation whose read-back the next finalize run polls again
unfoldable pub is_polled : Option Fields → Bool
is_polled none = false
is_polled (some op) =
    is_str (get op "status") "unsettled"
    && (is_str (get op "kind") "pr-watch" || is_str (get op "kind") "merge-read-back")

-- `PHASE_WAITING_ON.get(phase)`
unfoldable pub phase_waiting_on : Option Json → Option String
phase_waiting_on phase =
    if is_str phase "reserved"
    then some "analysis"
    else if is_str phase "notification-delivery"
    then some "notification-delivery"
    else if is_str phase "awaiting-approval"
    then some "approval"
    else if is_str phase "tracker-write"
    then some "tracker-write"
    else if is_str phase "forge-finalize" || is_str phase "archive-sweep"
    then some "finalize"
    else none

-- `session_waiting_on(state)`
unfoldable pub session_waiting_on : Fields → Option String
unfolding last_operation unverified is_polled phase_waiting_on
session_waiting_on state =
    let phase = get state "phase" in
    let op = last_operation (get state "operations") in
    let forge_op = last_operation (get state "finalization_operations") in
    if is_str phase "tracker-write" && unverified op
    then some "reconciliation"
    else if is_str phase "forge-finalize" && (unverified forge_op && not (is_polled forge_op))
    then some "reconciliation"
    else phase_waiting_on phase
