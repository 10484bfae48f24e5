-- ===== src/Triage/Outcome/Receipt/Sound.antt =====
-- What a check that finds a completed invocation has seen.
use mathlib.Core.Bool.{true≢false}
use agentic_dev_kit.Base.{
  String, ◌≡◌, refl, sym, ap, ◌∙◌, inl, inr, Bool, true, false, ◌&&◌, ◌||◌, not, Option, none, some,
  elem, if◌then◌else◌, ◌==◌, eq_iff, Bool-cases, Option-cases, &&-left, &&-right,
}
use agentic_dev_kit.Base.Json.{Json, str, obj, Fields, get, as_text, as_obj, is_str}
use agentic_dev_kit.Triage.Outcome.{
  Disposition, disposition_fields, held_fields, held_text, completed_outcomes, waits,
}
use agentic_dev_kit.Triage.Outcome.Receipt.{
  Stored, absent, unsafe, not_canonical, holds, Target, is_text, carries, is_mode, valid_outcome,
  valid_result, valid_with, valid_receipt, digest_matches, same_digest, matches, stale,
  wrong_invocation, Expected, judge, verdict_at, check_receipt, text_passes, derived,
}
use agentic_dev_kit.Triage.Outcome.Receipt.Written.{known_mode-not_unknown}

-- the evidence that an expected invocation completed
pub record Evidence (digest : Fields → Option String) (q : Expected) (stored : Stored)
    : Type 0 where
  pub receipt : Fields
  pub result : Fields
  pub outcome : String
  pub result_digest : String
  pub there : stored ≡ holds (obj receipt)
  pub of_result : get receipt "result" ≡ some (obj result)
  pub digested : digest result ≡ some result_digest
  pub bound : get receipt "result_digest" ≡ some (str result_digest)
  pub same_id : get receipt "invocation_id" ≡ some (str q.invocation_id)
  pub same_entry : is_text (get receipt "entry") q.entry ≡ true
  pub same_context : get receipt "context" ≡ some (str q.context)
  pub same_mode : get result "execution_mode" ≡ some (str q.mode)
  pub ended : get result "outcome" ≡ some (str outcome)
  pub is_completed : elem outcome completed_outcomes ≡ true

is_str-eq : (o : Option Json) (t : String) → is_str o t ≡ true → o ≡ some (str t)
is_str-eq (some (str s)) t h = ap (λ x. some (str x)) ((eq_iff s t).0 h)
is_str-eq (some j) t h = cc
is_str-eq none t h = cc

text_passes_inv :
    (p : String → Bool) (v : Option Json)
    → text_passes p v ≡ true
    → (s : String) × (v ≡ some (str s)) × (p s ≡ true)
unfolding text_passes
text_passes_inv p (some (str s)) h = (s, refl, h)
text_passes_inv p (some j) h = cc
text_passes_inv p none h = cc

-- only a completed outcome has a completed disposition
held-not_completed :
    (o : Option String) (c : Option Json) → (held_text o c).disposition ≡ "completed" → ⊥
unfolding held_text
held-not_completed none c h = cc
held-not_completed (some w) c h = elim (Bool-cases (elem w waits)) [
  | inl y ↦ let h' = rw y at h in cc h'
  | inr n ↦ let h' = rw n at h in cc h'
]

completed_outcome :
    (outcome : String) (w c : Option Json)
    → (disposition_fields outcome w c).disposition ≡ "completed"
    → elem outcome completed_outcomes ≡ true
unfolding disposition_fields held_fields
completed_outcome outcome w c h = elim (Bool-cases (elem outcome completed_outcomes)) [
  | inl y ↦ y
  | inr n ↦ elim (Bool-cases (outcome == "operator-held")) [
    | inl held ↦ let h' = rw (n, held) at h in absurd (held-not_completed (as_text w) c h')
    | inr stop ↦ let h' = rw (n, stop) at h in cc h'
  ]
]

or_left : (a b : Bool) → b ≡ false → (a || b) ≡ true → a ≡ true
or_left true b n h = refl
or_left false b n h = absurd (true≢false (sym h ∙ n))

carries_disposition :
    (result : Fields) (d : Disposition)
    → carries result d ≡ true
    → get result "disposition" ≡ some (str d.disposition)
unfolding carries
carries_disposition result d h = is_str-eq _ _ (&&-left _ _ h)

is_str_other :
    (o : Option Json) (s t : String) (b : Bool)
    → o ≡ some (str s)
    → (s == t) ≡ false
    → (is_str o t && b) ≡ false
is_str_other o s t b e n = rw e (rw n refl)

-- a result with a completed disposition is of a completed outcome, in a mode
completed_result :
    (result : Fields) (outcome : String)
    → valid_outcome result outcome ≡ true
    → get result "disposition" ≡ some (str "completed")
    → (elem outcome completed_outcomes ≡ true)
      × ((m : String) × (get result "execution_mode" ≡ some (str m)) × (is_mode m ≡ true))
unfolding valid_outcome derived
completed_result result outcome h d =
    let both = &&-right _ _ h in
    let kept = carries_disposition result _ (&&-left _ _ both) in
    let same : some (str "completed") ≡ some (str (derived result outcome).disposition) =
      sym d ∙ kept in
    let ended : (derived result outcome).disposition ≡ "completed" = cc same in
    let modes =
      or_left (text_passes is_mode (get result "execution_mode")) _
        (is_str_other (get result "disposition") "completed" "refused" _ d refl)
        (&&-right _ _ both) in
    (
      completed_outcome outcome (get result "waiting_on") (get result "refusal_code") ended,
      text_passes_inv is_mode (get result "execution_mode") modes,
    )

as_obj-eq : (v : Option Json) (fs : Fields) → as_obj v ≡ some fs → v ≡ some (obj fs)
as_obj-eq (some (obj gs)) fs h = cc
as_obj-eq (some j) fs h = cc
as_obj-eq none fs h = cc

accepted {ℓ} :
    {A : Type ℓ} (b : Bool) (x y : A) → (if b then some x else none) ≡ some y → (b ≡ true) × (x ≡ y)
accepted true x y h = (refl, cc)
accepted false x y h = cc

-- a valid receipt, with the result and the digest that it carries
valid_with_inv :
    (digest : Fields → Option String) (fs : Fields) (o : Option Fields) (receipt result : Fields)
    → valid_with digest fs o ≡ some (receipt, result)
    → (fs ≡ receipt)
      × (o ≡ some result)
      × (digest_matches digest receipt result ≡ true)
      × (valid_result result ≡ true)
unfolding valid_with
valid_with_inv digest fs none receipt result h = cc
valid_with_inv digest fs (some r) receipt result h =
    let (ok, same) = accepted _ (fs, r) (receipt, result) h in
    let both = &&-right _ _ ok in
    let e : fs ≡ receipt = ap (λ p. p.0) same in
    let e' : r ≡ result = ap (λ p. p.1) same in
    (e, ap some e', rw (← e, ← e') (&&-left _ _ both), rw (← e') (&&-right _ _ both))

valid_receipt_inv :
    (digest : Fields → Option String) (v : Json) (receipt result : Fields)
    → valid_receipt digest v ≡ some (receipt, result)
    → (v ≡ obj receipt)
      × (get receipt "result" ≡ some (obj result))
      × (digest_matches digest receipt result ≡ true)
      × (valid_result result ≡ true)
unfolding valid_receipt
valid_receipt_inv digest (obj fs) receipt result h =
    let (e, o, m, r) = valid_with_inv digest fs (as_obj (get fs "result")) receipt result h in
    (ap obj e, ap (λ x. get x "result") (sym e) ∙ as_obj-eq _ result o, m, r)
valid_receipt_inv digest v receipt result h = cc

same_digest_inv :
    (o : Option String) (v : Option Json)
    → same_digest o v ≡ true
    → (d : String) × (o ≡ some d) × (v ≡ some (str d))
unfolding same_digest
same_digest_inv none v h = cc
same_digest_inv (some d) v h = (d, refl, is_str-eq v d h)

digest_matches_inv :
    (digest : Fields → Option String) (receipt result : Fields)
    → digest_matches digest receipt result ≡ true
    → (d : String) × (digest result ≡ some d) × (get receipt "result_digest" ≡ some (str d))
unfolding digest_matches
digest_matches_inv digest receipt result h = same_digest_inv (digest result) _ h

matched :
    (a b : Bool) (o' d' w' c' o d w c : Option Json)
    → (if not a then stale else if b then matches o' d' w' c' else wrong_invocation)
      ≡ matches o d w c
    → (a ≡ true) × (b ≡ true) × (d' ≡ d)
matched true true o' d' w' c' o d w c h = (refl, refl, cc)
matched true false o' d' w' c' o d w c h = cc
matched false b o' d' w' c' o d w c h = cc

-- a receipt that matches an expectation
judge_inv :
    (q : Expected) (receipt result : Fields) (o d w c : Option Json)
    → judge q receipt result ≡ matches o d w c
    → (is_str (get receipt "invocation_id") q.invocation_id ≡ true)
      × ((is_text (get receipt "entry") q.entry
            && (is_str (get receipt "context") q.context
                && (is_str (get result "execution_mode") q.mode
                    || is_str (get result "execution_mode") "unknown")))
          ≡ true)
      × (get result "disposition" ≡ d)
unfolding judge
judge_inv q receipt result o d w c h =
    matched (is_str (get receipt "invocation_id") q.invocation_id) _ _ (get result "disposition") _
      _ o d w c h

-- the mode of a completed result is the expected one
same_mode_as :
    (v : Option Json) (m q : String)
    → v ≡ some (str m)
    → is_mode m ≡ true
    → (is_str v q || is_str v "unknown") ≡ true
    → v ≡ some (str q)
same_mode_as v m q e modes h = is_str-eq v q (or_left _ _ (rw e (known_mode-not_unknown m modes)) h)

completed-Evidence :
    (digest : Fields → Option String) (q : Expected) (v : Json) (receipt result : Fields)
    (o w c : Option Json)
    → valid_receipt digest v ≡ some (receipt, result)
    → judge q receipt result ≡ matches o (some (str "completed")) w c
    → Evidence digest q (holds v)
unfolding valid_result
completed-Evidence digest q v receipt result o w c h j =
    let (there, of_result, digested, valid) = valid_receipt_inv digest v receipt result h in
    let (id, rest, d) = judge_inv q receipt result o _ w c j in
    let (t, canonical, bound) = digest_matches_inv digest receipt result digested in
    let (outcome, ended, ok) =
      text_passes_inv (valid_outcome result) (get result "outcome") (&&-right _ _ valid) in
    let (is_completed, (m, mode, modes)) = completed_result result outcome ok d in
    let both = &&-right _ _ rest in
    record {
      receipt = receipt;
      result = result;
      outcome = outcome;
      result_digest = t;
      there = ap holds there;
      of_result = of_result;
      digested = canonical;
      bound = bound;
      same_id = is_str-eq _ _ id;
      same_entry = &&-left _ _ rest;
      same_context = is_str-eq _ _ (&&-left _ _ both);
      same_mode = same_mode_as _ m q.mode mode modes (&&-right _ _ both);
      ended = ended;
      is_completed = is_completed;
    }

verdict-Evidence :
    (digest : Fields → Option String) (q : Expected) (stored : Stored) (o w c : Option Json)
    → verdict_at digest q stored ≡ matches o (some (str "completed")) w c
    → Evidence digest q stored
unfolding verdict_at
verdict-Evidence digest q absent o w c h = cc
verdict-Evidence digest q unsafe o w c h = cc
verdict-Evidence digest q not_canonical o w c h = cc
verdict-Evidence digest q (holds v) o w c h = elim (Option-cases (valid_receipt digest v)) [
  | inl e ↦ let h' = rw e at h in cc h'
  | inr ((receipt, result), e) ↦
      let h' = rw e at h in completed-Evidence digest q v receipt result o w c e h'
]

-- A check that finds a completed invocation has seen its evidence: the path holds a receipt with the
-- expected id, entry and context, its result has the digest that is recorded beside it, was made in
-- the expected mode, and ended in an outcome that counts as completed.
pub check_receipt-Evidence :
    (digest : Fields → Option String) (path : Target) (q : Expected) (stored : Stored)
    (o w c : Option Json)
    → check_receipt digest path q stored ≡ some (matches o (some (str "completed")) w c)
    → Evidence digest q stored
unfolding check_receipt
check_receipt-Evidence digest path q stored o w c h =
    verdict-Evidence digest q stored o w c (accepted _ _ _ h).1
