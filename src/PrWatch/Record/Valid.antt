-- ===== src/PrWatch/Record/Valid.antt =====
-- The next poll after a recorded review, at the same head: its receipt counts.
use Prim.Native.Char.{Char}
use mathlib.Core.Path.{fun_ext}
use agentic_dev_kit.Base.{
  ℕ, String, ◌≡◌, refl, ap, sym, ◌∙◌, inl, inr, Bool, true, false, not, ◌&&◌, Option, none, some,
  List, arith, eq_refl, is_some, ◌==◌, if◌then◌else◌,
}
use agentic_dev_kit.Base.Json.{Json, str, obj, Fields, end, get, put, as_obj, as_arr}
use agentic_dev_kit.PrWatch.Config.{Config}
use agentic_dev_kit.PrWatch.Clock.{Clock}
use agentic_dev_kit.PrWatch.Checks.{CheckDetail}
use agentic_dev_kit.PrWatch.Coverage.{Signal}
use agentic_dev_kit.PrWatch.Comments.{Digest}
use agentic_dev_kit.PrWatch.State.{StateFile, holds, load_state}
use agentic_dev_kit.PrWatch.Repo.{Repo, ReviewClass, pr_review_class, lens_floor}
use agentic_dev_kit.PrWatch.Receipt.{
  not_object, bad_version, full_missing, deltas_missing, Check, pass, ◌>>=◌, ◌>>◌, require, need,
  receipt_lenses, receipt_caveats,
}
use agentic_dev_kit.PrWatch.Receipt.Validate.{
  is_version_1, is_empty_items, check_full_parent, check_deltas, check_final, check_coverage,
  validate_composed_coverage,
}
use agentic_dev_kit.PrWatch.Receipt.Compose.{compose_coverage, coverage_of, append_item}
use agentic_dev_kit.PrWatch.Receipt.Inversion.{bind_inv, need_inv, guard_inv, then_inv}
use agentic_dev_kit.PrWatch.Gate.{View, Backend, Reads}
use agentic_dev_kit.PrWatch.Gate.Evidence.{
  review_evidence, receipt_valid, coverage_error, binds, head_equals, error_of,
}
use agentic_dev_kit.PrWatch.Gate.Report.{build_report, gather}
use agentic_dev_kit.PrWatch.Poll.{poll_report, prior_of}
use agentic_dev_kit.PrWatch.Record.{
  done, Request, Post, plain_receipt, compose_step, Recording, record_review,
}
use agentic_dev_kit.PrWatch.Record.Steps.{plain_receipt-get, compose_step_inv, post_step_inv}
use agentic_dev_kit.PrWatch.Record.Bound.{
  record_review_inv, write_receipt_inv, record_review_bound, receipt_texts,
}

-- two receipts that differ in the comment's key alone
abbrev Same : Fields → Fields → Type 0
Same r s = (k : String) → ("disposition_comment" == k) ≡ false → get r k ≡ get s k

lenses-Same : (r s : Fields) → Same r s → receipt_lenses r ≡ receipt_lenses s
unfolding receipt_lenses
lenses-Same r s h = rw (h "lenses" refl, receipt_lenses) refl

caveats-Same : (r s : Fields) → Same r s → receipt_caveats r ≡ receipt_caveats s
unfolding receipt_caveats
caveats-Same r s h =
    rw (h "override" refl, h "bot_signal" refl, h "bots_behind_head" refl, receipt_caveats) refl

final-Same :
    (r s : Fields) (head previous : String) (final : Fields)
    → Same r s
    → check_final r head previous final ≡ check_final s head previous final
unfolding check_final
final-Same r s head previous final h =
    rw (h "source" refl, h "head" refl, lenses-Same r s h, caveats-Same r s h, check_final) refl

-- `check_coverage` over its last step
abbrev checked_by : Repo → (String × Fields → Check (Unit {0})) → ℕ → Json → Check (Unit {0})
checked_by repo last floor stored = do
  coverage ← need (as_obj (some stored)) not_object
  require (is_version_1 (get coverage "version")) bad_version
  full ← need (as_obj (get coverage "full_parent")) full_missing
  deltas ← need (as_arr (get coverage "deltas")) deltas_missing
  require (not (is_empty_items deltas)) deltas_missing
  full_head ← check_full_parent repo floor full
  walked ← check_deltas repo full_head end deltas
  last walked

coverage-Same :
    (repo : Repo) (r s : Fields) (head : String) (floor : ℕ) (stored : Json)
    → Same r s
    → check_coverage repo r head floor stored ≡ check_coverage repo s head floor stored
unfolding check_coverage
coverage-Same repo r s head floor stored h =
    ap (λ f. checked_by repo f floor stored) (fun_ext (λ p. final-Same r s head p.0 p.1 h))

validate-Same :
    (repo : Repo) (r s : Fields) (head : String) (floor : ℕ)
    → Same r s
    → validate_composed_coverage repo r head floor ≡ validate_composed_coverage repo s head floor
unfolding validate_composed_coverage check_coverage
validate-Same repo r s head floor h = go (get r "coverage") (get s "coverage") (h "coverage" refl)
  where
    go :
        (a b : Option Json)
        → a ≡ b
        → elim a as (λ x. Check (Unit {0})) [
          | none ↦ pass tt
          | some stored ↦ check_coverage repo r head floor stored
        ]
          ≡ elim b as (λ x. Check (Unit {0})) [
            | none ↦ pass tt
            | some stored ↦ check_coverage repo s head floor stored
          ]
    go none none e = refl
    go none (some j) e = cc
    go (some j) none e = cc
    go (some j) (some k) e =
        coverage-Same repo r s head floor j h ∙ ap (check_coverage repo s head floor) (cc e)

-- the coverage that a pass composes is valid in its receipt
composed_valid :
    (repo : Repo) (floor : ℕ) (previous receipt : Fields) (parent_head head : String)
    (coverage : Json)
    → compose_coverage repo floor previous parent_head head receipt ≡ pass coverage
    → validate_composed_coverage repo (put receipt "coverage" coverage) head floor ≡ pass tt
unfolding compose_coverage
composed_valid repo floor previous receipt parent_head head coverage h =
    let (_, _, h1) = need_inv _ _ _ _ h in
    let (_, h2) = guard_inv _ _ _ _ h1 in
    let (chain, _, h3) = bind_inv _ _ _ h2 in
    let (delta, _, h4) = bind_inv _ _ _ h3 in
    let (valid, h5) = then_inv _ _ _ h4 in
    let same : coverage_of chain.0 (append_item chain.1 (obj delta)) ≡ coverage = cc h5 in
    ap (λ c. validate_composed_coverage repo (put receipt "coverage" c) head floor) (sym same)
    ∙ valid

plain_valid :
    (repo : Repo) (receipt : Fields) (head : String) (floor : ℕ)
    → get receipt "coverage" ≡ none
    → validate_composed_coverage repo receipt head floor ≡ pass tt
unfolding validate_composed_coverage
plain_valid repo receipt head floor e = rw (e, validate_composed_coverage) refl

-- whether composed or not, the receipt that `compose_step` makes validates
step_valid :
    (repo : Repo) (class : ReviewClass) (q : Request) (head at : String) (lenses : List String)
    (signal : Signal) (behind state receipt : Fields) (parent : Option String)
    → compose_step repo class q head lenses state
        (plain_receipt q head lenses signal behind at)
        parent
      ≡ done receipt
    → validate_composed_coverage repo receipt head (lens_floor class) ≡ pass tt
step_valid repo class q head at lenses signal behind state receipt parent h =
    let plain = plain_receipt q head lenses signal behind at in
    let (_, (_, (none_yet, _))) = plain_receipt-get q head at lenses signal behind in
    elim (compose_step_inv repo class q head lenses state plain parent receipt h) [
      | inl e ↦ rw e (plain_valid repo plain head (lens_floor class) none_yet)
      | inr (previous, p, coverage, made, e) ↦
          rw e (composed_valid repo (lens_floor class) previous plain p head coverage made)
    ]

valid_receipt :
    (repo : Repo) (class : ReviewClass) (receipt : Fields) (head : String)
    → get receipt "head" ≡ some (str head)
    → not (head == "") ≡ true
    → validate_composed_coverage repo receipt head (lens_floor class) ≡ pass tt
    → receipt_valid
        (some receipt)
        (some head)
        (coverage_error repo class (some receipt) (some head))
      ≡ true
unfolding receipt_valid coverage_error binds
valid_receipt repo class receipt head at some_head valid =
    rw (some_head, bound, valid) (no_error_of (is_some (get receipt "coverage")))
  where
    bound : binds receipt (some head) ≡ true
    bound = ap (λ o. head_equals o (some head)) at ∙ eq_refl head

    no_error_of : (b : Bool) → not (is_some (if b && true then error_of (pass tt) else none)) ≡ true
    no_error_of true = refl
    no_error_of false = refl

poll_valid :
    (clk : Clock) (cfg : Config) (dg : Digest) (repo : Repo) (state receipt : Fields) (view : View)
    (reads : Reads) (now : ℕ)
    → get state "review_receipt" ≡ some (obj receipt)
    → receipt_valid (some receipt) view.head (
        coverage_error repo (pr_review_class repo view.base_oid view.head) (some receipt) view.head)
      ≡ true
    → (poll_report clk cfg dg repo (holds (obj state)) view reads now).gathered.evidence.valid
      ≡ true
unfolding poll_report build_report gather review_evidence prior_of load_state
poll_valid clk cfg dg repo state receipt view reads now e h = rw e (ground (arith, h))

-- The receipt of a recorded review counts at every later poll of the same head and base: the review
-- evidence of that poll's report, made from the state that the recording saved, is valid.
pub record_review_valid :
    (clk : Clock) (cfg : Config) (repo : Repo) (is_word : Char → Bool) (post : Post) (q : Request)
    (backend : Backend) (view : View) (details : List CheckDetail) (signal : Signal)
    (file : StateFile) (now : ℕ) (out : Recording) (dg : Digest) (later : View) (reads : Reads)
    (then_at : ℕ)
    → record_review clk cfg repo is_word post q backend view details signal file now ≡ done out
    → later.head ≡ view.head
    → later.base_oid ≡ view.base_oid
    → (poll_report clk cfg dg repo
        (holds (obj out.state))
        later
        reads
        then_at).gathered.evidence.valid
      ≡ true
record_review_valid clk cfg repo is_word post q backend view details signal file now out dg later
      reads then_at h same_head same_base =
    let (placed, read, b1, pl, b2, h1) =
      record_review_inv clk cfg repo is_word post q backend view details signal file now out h in
    let (receipt, posted, c1, c2, e) =
      write_receipt_inv clk cfg repo is_word post q (load_state file) placed.0 placed.1 read _ now
        out h1 in
    let kept = post_step_inv post (load_state file) receipt q.disposition posted c2 in
    let bound =
      record_review_bound clk cfg repo is_word post q backend view details signal file now out h in
    let texts =
      receipt_texts repo placed.1 q placed.0 _ _ read _ (load_state file) receipt q.compose_parent
        c1 in
    let covers =
      step_valid repo placed.1 q placed.0 _ _ read _ (load_state file) receipt q.compose_parent
        c1 in
    let counts =
      valid_receipt repo placed.1 posted.1 placed.0 (kept.0 "head" refl ∙ texts.0) pl.not_empty
        (validate-Same repo posted.1 receipt placed.0 (lens_floor placed.1) kept.0 ∙ covers) in
    poll_valid clk cfg dg repo out.state posted.1 later reads then_at
      (bound.1.0 ∙ ap (λ o. some (obj o.receipt)) e)
      (rw (same_head, same_base, pl.at_head, ← pl.classed) counts)
