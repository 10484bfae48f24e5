-- ===== src/Triage/Outcome/Receipt/Written.antt =====
-- A receipt that was written is read back as what it says.
use mathlib.Core.Bool.{true≢false}
use agentic_dev_kit.Base.{
  String, ◌≡◌, refl, sym, ap, ◌∙◌, inl, inr, Bool, true, false, ◌&&◌, ◌||◌, not, Option, none, some,
  elem, all, if◌then◌else◌, ◌==◌, eq_iff, eq_refl, Bool-cases, &&-right,
}
use agentic_dev_kit.Base.Json.{Json, str, obj, Fields, get, as_text}
use agentic_dev_kit.Triage.Outcome.{
  Disposition, disposition_fields, held_fields, held_text, refused, code_text, code_of,
  refusal_codes, waits, completed_outcomes,
}
use agentic_dev_kit.Triage.Outcome.Receipt.{
  Stored, absent, holds, Target, target_is_valid, or_null, is_text, carries, is_outcome, is_entry,
  is_context, is_mode, valid_outcome, valid_result, valid_frame, valid_receipt, digest_matches,
  write_receipt, receipt_with, publish_receipt, Verdict, matches, stale, wrong_invocation, Expected,
  judge, verdict_at, check_receipt, derived, has_keys, text_passes, entry_listed, is_id,
  result_keys, keys_within, is_int_1,
}

code_text_again : (o : Option String) → code_text (some (code_text o)) ≡ code_text o
unfolding code_text elem
code_text_again none = refl
code_text_again (some s) = elim (Bool-cases (elem s refusal_codes)) [
  | inl y ↦ rw y (rw y refl)
  | inr n ↦ rw n refl
]

refused_again : (c : Option Json) → refused (some (str (code_of c))) ≡ refused c
unfolding code_of
refused_again c =
    ap (λ s. record { disposition = "refused"; waiting_on = none; refusal_code = some s })
      (code_text_again (as_text c))

-- a disposition is what its own two keys make of it under a held outcome
IsHeldAgain : Disposition → Type 0
IsHeldAgain d = held_fields (some (or_null d.waiting_on)) (some (or_null d.refusal_code)) ≡ d

held_again : (o : Option String) (c : Option Json) → IsHeldAgain (held_text o c)
unfolding IsHeldAgain held_text held_fields
held_again none c = refused_again c
held_again (some w) c = elim (Bool-cases (elem w waits)) [
  | inl y ↦ rw y (rw y refl)
  | inr n ↦ rw n (refused_again c)
]

-- a disposition is derived again from its own keys
pub disposition_fields_again :
    (outcome : String) (w c : Option Json)
    → disposition_fields outcome
        (some (or_null (disposition_fields outcome w c).waiting_on))
        (some (or_null (disposition_fields outcome w c).refusal_code))
      ≡ disposition_fields outcome w c
unfolding disposition_fields IsHeldAgain held_fields
disposition_fields_again outcome w c = elim (Bool-cases (elem outcome completed_outcomes)) [
  | inl y ↦ rw y refl
  | inr n ↦ elim (Bool-cases (outcome == "operator-held")) [
    | inl held ↦ rw (n, held) (held_again (as_text w) c)
    | inr stop ↦ rw (n, stop) (refused_again c)
  ]
]

-- a result of the engine: an outcome in a mode, with the disposition of that outcome
pub record IsResult (result : Fields) (outcome mode : String) (d : Disposition) : Type 0 where
  pub outcome_is : get result "outcome" ≡ some (str outcome)
  pub mode_is : get result "execution_mode" ≡ some (str mode)
  pub disposition_is : get result "disposition" ≡ some (str d.disposition)
  pub waiting_is : get result "waiting_on" ≡ some (or_null d.waiting_on)
  pub refusal_is : get result "refusal_code" ≡ some (or_null d.refusal_code)

is_text-or_null : (t : Option String) → is_text (some (or_null t)) t ≡ true
unfolding is_text
is_text-or_null none = refl
is_text-or_null (some s) = eq_refl s

carries-IsResult :
    (result : Fields) (outcome mode : String) (d : Disposition)
    → IsResult result outcome mode d
    → carries result d ≡ true
unfolding carries
carries-IsResult result outcome mode d r =
    rw (r.disposition_is, r.waiting_is, r.refusal_is) (simp (eq_refl, is_text-or_null))

has_keys-IsResult :
    (result : Fields) (outcome mode : String) (d : Disposition)
    → IsResult result outcome mode d
    → has_keys result result_keys ≡ true
unfolding has_keys all
has_keys-IsResult result outcome mode d r =
    rw (r.outcome_is, r.mode_is, r.disposition_is, r.waiting_is, r.refusal_is) refl

valid_outcome-IsResult :
    (result : Fields) (outcome mode : String) (w c : Option Json)
    → IsResult result outcome mode (disposition_fields outcome w c)
    → is_outcome outcome ≡ true
    → is_mode mode ≡ true
    → valid_outcome result outcome ≡ true
unfolding valid_outcome derived text_passes
valid_outcome-IsResult result outcome mode w c r known modes =
    let d = disposition_fields outcome w c in
    let same : disposition_fields outcome (get result "waiting_on") (get result "refusal_code")
        ≡ d =
      rw (r.waiting_is, r.refusal_is) (disposition_fields_again outcome w c) in
    rw known
      (rw same (rw (carries-IsResult result outcome mode d r) (rw r.mode_is (rw modes refl))))

pub valid_result-IsResult :
    (result : Fields) (outcome mode : String) (w c : Option Json)
    → IsResult result outcome mode (disposition_fields outcome w c)
    → is_outcome outcome ≡ true
    → is_mode mode ≡ true
    → valid_result result ≡ true
unfolding valid_result text_passes
valid_result-IsResult result outcome mode w c r known modes =
    let d = disposition_fields outcome w c in
    rw (has_keys-IsResult result outcome mode d r)
      (rw r.outcome_is (valid_outcome-IsResult result outcome mode w c r known modes))

entry_listed-or_null :
    (entry : Option String) → entry_listed (some (or_null entry)) ≡ is_entry entry
unfolding entry_listed is_entry
entry_listed-or_null none = refl
entry_listed-or_null (some e) = refl

if_not {ℓ} : {A : Type ℓ} (b : Bool) (x y : A) → (if not b then x else y) ≡ (if b then y else x)
if_not true x y = refl
if_not false x y = refl

or_false : (b : Bool) → (b || false) ≡ b
or_false true = refl
or_false false = refl

-- an expectation that a check does not refuse
pub record IsExpected (path : Target) (q : Expected) : Type 0 where
  pub valid_target : target_is_valid path q.invocation_id ≡ true
  pub known_entry : is_entry q.entry ≡ true
  pub known_context : is_context q.context ≡ true
  pub known_mode : is_mode q.mode ≡ true

pub known_mode-not_unknown : (m : String) → is_mode m ≡ true → (m == "unknown") ≡ false
unfolding is_mode
known_mode-not_unknown m h = elim (Bool-cases (m == "unknown")) [
  | inl e ↦
      let same : m ≡ "unknown" = (eq_iff m "unknown").0 e in
      absurd (true≢false (sym h ∙ ap is_mode same))
  | inr n ↦ n
]

-- what a check makes of a receipt that an invocation wrote
abbrev pub seen_as : Expected → String → Disposition → Expected → Verdict
seen_as q outcome d other =
    if q.invocation_id == other.invocation_id
    then (if is_text (some (or_null q.entry)) other.entry
          && (q.context == other.context && q.mode == other.mode)
        then matches (some (str outcome)) (some (str d.disposition)) (some (or_null d.waiting_on))
            (some (or_null d.refusal_code))
        else wrong_invocation)
    else stale

module _ (digest : Fields → Option String) (result : Fields) (q : Expected) where
  -- the receipt that is written for an expected invocation
  abbrev receipt_of : String → Fields
  receipt_of d = receipt_with result q.invocation_id q.entry q.context d

  valid_frame-receipt_of :
      (d : String)
      → is_entry q.entry ≡ true
      → is_context q.context ≡ true
      → is_id q.invocation_id ≡ true
      → valid_frame (receipt_of d) ≡ true
  unfolding valid_frame receipt_with get keys_within has_keys all elem is_int_1 text_passes
  valid_frame-receipt_of d entry context id =
      rw (entry_listed-or_null q.entry) (rw (entry, context, id) refl)

  digest_matches-receipt_of :
      (d : String) → digest result ≡ some d → digest_matches digest (receipt_of d) result ≡ true
  unfolding digest_matches receipt_with get
  digest_matches-receipt_of d canonical = rw canonical (eq_refl d)

  valid_receipt-receipt_of :
      (d : String)
      → digest result ≡ some d
      → valid_frame (receipt_of d) ≡ true
      → valid_result result ≡ true
      → valid_receipt digest (obj (receipt_of d)) ≡ some (receipt_of d, result)
  unfolding valid_receipt receipt_with get
  valid_receipt-receipt_of d canonical frame valid =
      rw (frame, digest_matches-receipt_of d canonical, valid) refl

  published_inv :
      (o : Option String) (stored : Stored)
      → publish_receipt o (λ d. receipt_of d) ≡ some stored
      → (d : String) × (o ≡ some d) × (stored ≡ holds (obj (receipt_of d)))
  unfolding publish_receipt
  published_inv none stored h = cc
  published_inv (some d) stored h = (d, refl, cc h)

  written_inv :
      (stored : Stored)
      → write_receipt digest absent result q.invocation_id q.entry q.context ≡ some stored
      → (d : String) × (digest result ≡ some d) × (stored ≡ holds (obj (receipt_of d)))
  unfolding write_receipt
  written_inv stored h = published_inv (digest result) stored h

  judge-receipt_of :
      (outcome : String) (d : Disposition) (other : Expected) (t : String)
      → IsResult result outcome q.mode d
      → is_mode q.mode ≡ true
      → judge other (receipt_of t) result ≡ seen_as q outcome d other
  unfolding judge receipt_with get
  judge-receipt_of outcome d other t r modes =
      rw (r.mode_is, r.outcome_is, r.disposition_is, r.waiting_is, r.refusal_is)
        (rw (known_mode-not_unknown q.mode modes) (
          rw (or_false (q.mode == other.mode)) (
            if_not (q.invocation_id == other.invocation_id) stale (
              if is_text (some (or_null q.entry)) other.entry
                && (q.context == other.context && q.mode == other.mode)
              then matches (some (str outcome)) (some (str d.disposition))
                  (some (or_null d.waiting_on)) (some (or_null d.refusal_code))
              else wrong_invocation))))

-- An invocation's receipt is evidence for that invocation only: where an engine's result, in a known
-- outcome and mode, was written under a valid identity, a check with any valid expectation reads the
-- outcome and its disposition back if id, entry, context and mode are the ones written, calls the
-- receipt stale if the id is another, and else calls it that of a wrong invocation.
pub check_receipt-write_receipt :
    (digest : Fields → Option String) (path : Target) (result : Fields) (outcome : String)
    (w c : Option Json) (q other : Expected) (stored : Stored)
    → IsResult result outcome q.mode (disposition_fields outcome w c)
    → is_outcome outcome ≡ true
    → IsExpected path q
    → IsExpected path other
    → write_receipt digest absent result q.invocation_id q.entry q.context ≡ some stored
    → check_receipt digest path other stored
      ≡ some (seen_as q outcome (disposition_fields outcome w c) other)
unfolding check_receipt verdict_at target_is_valid
check_receipt-write_receipt digest path result outcome w c q other stored r known ours theirs h =
    let (d, canonical, there) = written_inv digest result q stored h in
    let frame =
      valid_frame-receipt_of digest result q d ours.known_entry ours.known_context
        (&&-right _ _ ours.valid_target) in
    let valid = valid_result-IsResult result outcome q.mode w c r known ours.known_mode in
    rw there (
      rw (theirs.valid_target, theirs.known_entry, theirs.known_context, theirs.known_mode)
        (rw (valid_receipt-receipt_of digest result q d canonical frame valid) (
          ap some (
            judge-receipt_of digest result q outcome (disposition_fields outcome w c) other d r
              ours.known_mode))))
