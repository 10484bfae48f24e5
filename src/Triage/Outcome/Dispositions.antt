-- ===== src/Triage/Outcome/Dispositions.antt =====
-- What a session waits on is a wait that callers know, and a disposition reads back as itself.
use agentic_dev_kit.Base.{
  String, ◌≡◌, refl, sym, ap, ◌∙◌, ◌↔◌, Bool, true, false, ◌&&◌, ◌||◌, not, Option, none, some,
  elem, if◌then◌else◌, ◌==◌,
}
use mathlib.Core.Bool.{true≢false}
use agentic_dev_kit.Base.Json.{is_str, Json, str, Fields, get}
use agentic_dev_kit.Triage.Outcome.{
  waits, disposition_fields, held_fields, phase_waiting_on, session_waiting_on, last_operation,
  unverified, is_polled,
}

-- nothing, or a wait that callers know
known : Option String → Bool
known none = true
known (some w) = elem w waits

known-if :
    (b : Bool) (x y : Option String) → known (if b then x else y) ≡ (if b then known x else known y)
known-if true x y = refl
known-if false x y = refl

if_same : (b c : Bool) → (if b then c else c) ≡ c
if_same true c = refl
if_same false c = refl

known-wait : (w : String) → known (some w) ≡ elem w waits
unfolding known
known-wait w = refl

known-phase : (phase : Option Json) → known (phase_waiting_on phase) ≡ true
unfolding phase_waiting_on known elem
known-phase phase = simp (known-if, if_same)

known-session : (state : Fields) → known (session_waiting_on state) ≡ true
unfolding session_waiting_on known elem
known-session state = simp (known-if, if_same, known-phase)

-- A held result that carries what its session waits on is a waiting one, on just that, whatever
-- refusal code it was given: no phase of a session waits on something that callers do not know.
pub session_waiting_on-waiting :
    (state : Fields) (w : String) (code : Option Json)
    → session_waiting_on state ≡ some w
    → disposition_fields "operator-held" (some (str w)) code
      ≡ record { disposition = "waiting"; waiting_on = some w; refusal_code = none }
unfolding disposition_fields held_fields elem
session_waiting_on-waiting state w code h =
    let listed : elem w waits ≡ true =
      sym (known-wait w) ∙ ap known (sym h) ∙ known-session state in
    rw listed refl

not_reconciliation : Option String → Bool
not_reconciliation none = true
not_reconciliation (some w) = not (w == "reconciliation")

split-if :
    (b : Bool) (x y : Option String)
    → not_reconciliation (if b then x else y)
      ≡ (if b then not_reconciliation x else not_reconciliation y)
split-if true x y = refl
split-if false x y = refl

phase_not_reconciliation :
    (phase : Option Json) → not_reconciliation (phase_waiting_on phase) ≡ true
unfolding phase_waiting_on not_reconciliation
phase_not_reconciliation phase = simp (split-if, if_same)

-- the two tests in front of what a phase waits on
reconciles :
    (a b : Bool) (rest : Option String)
    → not_reconciliation rest ≡ true
    → ((if a then some "reconciliation" else if b then some "reconciliation" else rest)
        ≡ some "reconciliation")
      ↔ ((a || b) ≡ true)
unfolding not_reconciliation
reconciles true b rest h = (λ e. refl, λ e. refl)
reconciles false true rest h = (λ e. refl, λ e. refl)
reconciles false false rest h =
    (λ e. absurd (true≢false (sym h ∙ ap not_reconciliation e)), λ e. cc)

-- A session in a phase of writes waits on reconciliation exactly where its last write is not
-- verified and no finalize run polls it again.
pub reconciliation_iff :
    (state : Fields)
    → (session_waiting_on state ≡ some "reconciliation") ↔ (
        (is_str (get state "phase") "tracker-write"
            && unverified (last_operation (get state "operations"))
          || (is_str (get state "phase") "forge-finalize"
              && (unverified (last_operation (get state "finalization_operations"))
                  && not (is_polled (last_operation (get state "finalization_operations"))))))
        ≡ true)
unfolding session_waiting_on
reconciliation_iff state = reconciles _ _ _ (phase_not_reconciliation (get state "phase"))
