-- ===== src/Triage/Examples/Outcomes.antt =====
-- The theorems on outcome receipts, at a completed invocation and one that waits.
use agentic_dev_kit.Base.{String, ◌≡◌, refl, true, Option, none, some, [], ◌∷◌, elem}
use agentic_dev_kit.Base.Json.{null, str, arr, obj, cons, nil, Fields, end, field, get}
use agentic_dev_kit.Triage.Outcome.{disposition_fields, session_waiting_on}
use agentic_dev_kit.Triage.Outcome.Dispositions.{session_waiting_on-waiting}
use agentic_dev_kit.Triage.Outcome.Receipt.{
  Stored, absent, Target, is_outcome, write_receipt, matches, Expected, check_receipt, is_entry,
  is_context, is_mode, is_text, target_is_valid,
}
use agentic_dev_kit.Triage.Outcome.Receipt.Written.{
  IsResult, IsExpected, seen_as, check_receipt-write_receipt,
}
use agentic_dev_kit.Triage.Outcome.Receipt.Sound.{Evidence, check_receipt-Evidence}

abbrev digest : Fields → Option String
digest result = elim (get result "outcome") [ some (str s) ↦ some s | _ ↦ none ]

abbrev path : Target
path = record { is_absolute = true; parts = "/" ∷ "runs" ∷ "a.json" ∷ []; has_parent = true }

abbrev result : Fields
result = field "outcome" (str "degraded-success") (
    field "execution_mode" (str "live") (
      field "disposition" (str "completed")
        (field "waiting_on" null (field "refusal_code" null end))))

abbrev invocation : Expected
invocation = record {
  invocation_id = "run-7";
  entry = some "resume";
  context = "unattended";
  mode = "live";
}

abbrev earlier : Expected
earlier = record {
  invocation_id = "run-6";
  entry = some "resume";
  context = "unattended";
  mode = "live";
}

abbrev stored : Stored
stored = elim (write_receipt digest absent result "run-7" (some "resume") "unattended") [
  | none ↦ absent
  | some s ↦ s
]

result-IsResult :
    IsResult result "degraded-success" "live" (disposition_fields "degraded-success" none none)
unfolding get disposition_fields elem
result-IsResult = record {
  outcome_is = refl;
  mode_is = refl;
  disposition_is = refl;
  waiting_is = refl;
  refusal_is = refl;
}

invocation-IsExpected : IsExpected path invocation
unfolding target_is_valid elem is_entry is_context is_mode
invocation-IsExpected = record {
  valid_target = refl;
  known_entry = refl;
  known_context = refl;
  known_mode = refl;
}

earlier-IsExpected : IsExpected path earlier
unfolding target_is_valid elem is_entry is_context is_mode
earlier-IsExpected = record {
  valid_target = refl;
  known_entry = refl;
  known_context = refl;
  known_mode = refl;
}

outcome_known : is_outcome "degraded-success" ≡ true
unfolding is_outcome elem
outcome_known = refl

receipt_written :
    write_receipt digest absent result "run-7" (some "resume") "unattended" ≡ some stored
unfolding write_receipt get
receipt_written = refl

check_receipt-write_receipt_example :
    check_receipt digest path earlier stored
    ≡ some (
        seen_as invocation "degraded-success"
          (disposition_fields "degraded-success" none none)
          earlier)
check_receipt-write_receipt_example =
    check_receipt-write_receipt digest path result "degraded-success" none none invocation earlier
      stored result-IsResult outcome_known invocation-IsExpected earlier-IsExpected receipt_written

receipt_completed :
    check_receipt digest path invocation stored
    ≡ some
        (matches (some (str "degraded-success")) (some (str "completed")) (some null) (some null))
unfolding is_text disposition_fields elem
receipt_completed =
    check_receipt-write_receipt digest path result "degraded-success" none none invocation
      invocation stored result-IsResult outcome_known invocation-IsExpected invocation-IsExpected
      receipt_written

check_receipt-Evidence_example : Evidence digest invocation stored
check_receipt-Evidence_example =
    check_receipt-Evidence digest path invocation stored (some (str "degraded-success")) (some null)
      (some null) receipt_completed

-- a session whose tracker write was not read back
abbrev session : Fields
session =
    field "phase" (str "tracker-write")
      (field "operations" (arr (cons (obj (field "status" (str "unsettled") end)) nil)) end)

session_waits : session_waiting_on session ≡ some "reconciliation"
unfolding session_waiting_on get
session_waits = refl

session_waiting_on-waiting_example :
    disposition_fields "operator-held" (some (str "reconciliation")) none
    ≡ record { disposition = "waiting"; waiting_on = some "reconciliation"; refusal_code = none }
session_waiting_on-waiting_example =
    session_waiting_on-waiting session "reconciliation" none session_waits
