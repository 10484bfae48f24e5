-- ===== src/Triage/Outcome/Receipt.antt =====
-- The outcome receipts of scripts/lib/triage/outcome.py: `validate_receipt_target`,
-- `preflight_receipt`, `write_receipt`, `_valid_receipt` and `check_receipt`. The canonical digest is
-- a parameter, `none` where the value is not canonical JSON; the messages are left out.
pub mod Written
pub mod Sound
use Prim.Native.Char.{Char, code}
use agentic_dev_kit.Base.{
  ℕ, String, Bool, true, false, ◌&&◌, ◌||◌, not, Option, none, some, List, [], ◌∷◌, elem, all, eqb,
  if◌then◌else◌, is_some, is_token, ◌==◌,
}
use agentic_dev_kit.Base.Json.{
  Json, null, int, pos, str, obj, Fields, end, field, get, as_text, as_obj, is_str,
}
use agentic_dev_kit.Triage.Outcome.{Disposition, disposition_fields, completed_outcomes, among}

-- what stands at a receipt's path: nothing, a file that `observe` refuses, one that `loads_exact`
-- refuses, or a file whose bytes are the canonical form of a value
pub data Stored : Type 0 where
  absent unsafe not_canonical : Stored
  holds : Json → Stored

-- `[_-]`
token_mark : Char → Bool
token_mark c = eqb (code c) 95 || eqb (code c) 45

-- `TOKEN_RE.fullmatch(id)`
unfoldable pub is_id : String → Bool
unfolding is_token token_mark
is_id id = is_token token_mark 127 id

-- a caller's path, and its directory
pub record Target : Type 0 where
  pub is_absolute : Bool
  pub parts : List String
  pub has_parent : Bool

-- `validate_receipt_target(path, invocation_id)` passes
unfoldable pub target_is_valid : Target → String → Bool
unfolding is_id
target_is_valid path id = (path.is_absolute && not (elem ".." path.parts)) && is_id id

-- `preflight_receipt(path, invocation_id)` passes
unfoldable pub preflight_passes : Target → String → Stored → Bool
unfolding target_is_valid
preflight_passes path id absent = target_is_valid path id && path.has_parent
preflight_passes path id stored = false

-- a text or `None`
abbrev pub or_null : Option String → Json
or_null none = null
or_null (some s) = str s

-- `value == text`, where the text may be `None`
unfoldable pub is_text : Option Json → Option String → Bool
is_text (some null) none = true
is_text (some (str s)) (some t) = s == t
is_text _ _ = false

abbrev pub receipt_kind : String
receipt_kind = "triage-invocation-outcome"

-- `RECEIPT_KEYS`
abbrev pub receipt_keys : List String
receipt_keys =
    "kind" ∷ "schema_version" ∷ "invocation_id" ∷ "entry" ∷ "context" ∷ "result" ∷ "result_digest"
    ∷ []

unfoldable pub keys_within : Fields → List String → Bool
keys_within end ks = true
keys_within (field k v fs) ks = elem k ks && keys_within fs ks

unfoldable pub has_keys : Fields → List String → Bool
has_keys fs ks = all (λ k. is_some (get fs k)) ks

-- `ENTRIES` and `CONTEXTS`
unfoldable pub is_entry : Option String → Bool
is_entry none = true
is_entry (some e) = elem e ("resume" ∷ "new" ∷ "recover" ∷ "test" ∷ [])

unfoldable pub is_context : String → Bool
is_context c = c == "interactive" || c == "unattended"

unfoldable pub is_mode : String → Bool
is_mode m = m == "live" || m == "test"

-- `receipt["entry"] in ENTRIES`
unfoldable pub entry_listed : Option Json → Bool
entry_listed (some null) = true
entry_listed (some (str e)) = is_entry (some e)
entry_listed _ = false

-- `type(v) is int and v == 1`
unfoldable pub is_int_1 : Option Json → Bool
is_int_1 (some (int (pos n))) = eqb n 1
is_int_1 _ = false

-- a text that passes a test
unfoldable pub text_passes : (String → Bool) → Option Json → Bool
text_passes p v = elim (as_text v) [ none ↦ false | some s ↦ p s ]

-- the keys that a result has at least
abbrev pub result_keys : List String
result_keys = "outcome" ∷ "execution_mode" ∷ "disposition" ∷ "waiting_on" ∷ "refusal_code" ∷ []

-- the three keys of a result are those of a disposition
unfoldable pub carries : Fields → Disposition → Bool
unfolding is_text
carries result d =
    is_str (get result "disposition") d.disposition
    && (is_text (get result "waiting_on") d.waiting_on
        && is_text (get result "refusal_code") d.refusal_code)

-- a known outcome
unfoldable pub is_outcome : String → Bool
is_outcome outcome =
    elem outcome completed_outcomes || (outcome == "operator-held" || outcome == "hard-stop")

-- the disposition of a result, derived again from its outcome
unfoldable pub derived : Fields → String → Disposition
derived result outcome =
    disposition_fields outcome (get result "waiting_on") (get result "refusal_code")

unfoldable pub valid_outcome : Fields → String → Bool
unfolding is_outcome derived carries
valid_outcome result outcome =
    is_outcome outcome
    && (carries result (derived result outcome)
        && (text_passes is_mode (get result "execution_mode")
            || (is_str (get result "disposition") "refused"
                && is_str (get result "execution_mode") "unknown")))

-- the part of `_valid_receipt` on the result
unfoldable pub valid_result : Fields → Bool
unfolding valid_outcome has_keys text_passes is_mode
valid_result result =
    has_keys result result_keys && text_passes (valid_outcome result) (get result "outcome")

-- the part of `_valid_receipt` on the receipt's own keys
unfoldable pub valid_frame : Fields → Bool
unfolding keys_within has_keys is_int_1 entry_listed text_passes is_context is_id is_entry
valid_frame receipt =
    (keys_within receipt receipt_keys && has_keys receipt receipt_keys)
    && ((is_str (get receipt "kind") receipt_kind && is_int_1 (get receipt "schema_version"))
        && (entry_listed (get receipt "entry")
            && (text_passes is_context (get receipt "context")
                && text_passes is_id (get receipt "invocation_id"))))

-- the fields of a receipt
unfoldable pub receipt_with : Fields → String → Option String → String → String → Fields
receipt_with result id entry context d = field "kind" (str receipt_kind) (
    field "schema_version" (int (pos 1)) (
      field "invocation_id" (str id) (
        field "entry" (or_null entry) (
          field "context" (str context)
            (field "result" (obj result) (field "result_digest" (str d) end))))))

unfoldable pub publish_receipt : Option String → (String → Fields) → Option Stored
publish_receipt none receipt = none
publish_receipt (some d) receipt = some (holds (obj (receipt d)))

unfoldable pub same_digest : Option String → Option Json → Bool
same_digest none recorded = false
same_digest (some d) recorded = is_str recorded d

module _ (digest : Fields → Option String) where
  -- `receipt["result_digest"] == digest(receipt["result"])`
  unfoldable pub digest_matches : Fields → Fields → Bool
  unfolding same_digest
  digest_matches receipt result = same_digest (digest result) (get receipt "result_digest")

  -- a receipt with the result that stands in it
  unfoldable pub valid_with : Fields → Option Fields → Option (Fields × Fields)
  valid_with receipt none = none
  valid_with receipt (some result) =
      if valid_frame receipt && (digest_matches receipt result && valid_result result)
      then some (receipt, result)
      else none

  -- a receipt that `_valid_receipt` accepts, with its result
  unfoldable pub valid_receipt : Json → Option (Fields × Fields)
  unfolding valid_with
  valid_receipt (obj receipt) = valid_with receipt (as_obj (get receipt "result"))
  valid_receipt _ = none

  -- `write_receipt`: what stands at the path behind it, and `none` where it raises
  unfoldable pub write_receipt : Stored → Fields → String → Option String → String → Option Stored
  unfolding publish_receipt
  write_receipt absent result id entry context =
      publish_receipt (digest result) (λ d. receipt_with result id entry context d)
  write_receipt stored result id entry context = none

-- the verdict of a check, with the four keys of the result where it matches
pub data Verdict : Type 0 where
  missing malformed stale wrong_invocation : Verdict
  matches : (outcome disposition waiting_on refusal_code : Option Json) → Verdict

-- what the caller expects
pub record Expected : Type 0 where
  pub invocation_id : String
  pub entry : Option String
  pub context : String
  pub mode : String

-- the comparison of a valid receipt with what is expected
unfoldable pub judge : Expected → Fields → Fields → Verdict
unfolding is_text
judge q receipt result =
    if not (is_str (get receipt "invocation_id") q.invocation_id)
    then stale
    else if is_text (get receipt "entry") q.entry
        && (is_str (get receipt "context") q.context
            && (is_str (get result "execution_mode") q.mode
                || is_str (get result "execution_mode") "unknown"))
    then matches (get result "outcome") (get result "disposition") (get result "waiting_on")
        (get result "refusal_code")
    else wrong_invocation

judge_valid : Expected → Option (Fields × Fields) → Verdict
unfolding judge
judge_valid q none = malformed
judge_valid q (some (receipt, result)) = judge q receipt result

-- what is read at the path
unfoldable pub verdict_at : (Fields → Option String) → Expected → Stored → Verdict
unfolding judge_valid
verdict_at digest q absent = missing
verdict_at digest q unsafe = malformed
verdict_at digest q not_canonical = malformed
verdict_at digest q (holds v) = judge_valid q (valid_receipt digest v)

-- `check_receipt`: a verdict, and `none` where the expectation itself is refused
unfoldable pub check_receipt :
    (Fields → Option String) → Target → Expected → Stored → Option Verdict
check_receipt digest path q stored =
    if target_is_valid path q.invocation_id
      && (is_entry q.entry && (is_context q.context && is_mode q.mode))
    then some (verdict_at digest q stored)
    else none
