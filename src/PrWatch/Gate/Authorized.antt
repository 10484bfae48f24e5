-- ===== src/PrWatch/Gate/Authorized.antt =====
-- The review evidence and the settle baseline behind an authorized merge.
use agentic_dev_kit.Base.{
  ℕ, String, ◌≡◌, refl, sym, ap, ◌∙◌, ◌⊎◌, inl, inr, Bool, true, false, ◌&&◌, not, Option, none,
  some, List, [], ◌∷◌, arith, Bool-cases, Option-cases, is_nil, is_some, &&-left, &&-right, elem,
  eq_iff, eq_refl, ◌==◌,
}
use mathlib.Core.Bool.{false≢true}
use agentic_dev_kit.Base.Json.{Json, str, Fields, get, as_obj}
use agentic_dev_kit.PrWatch.Config.{Config}
use agentic_dev_kit.PrWatch.Clock.{Clock}
use agentic_dev_kit.PrWatch.Comments.{Digest, RawComment}
use agentic_dev_kit.PrWatch.Coverage.{
  Review, Signal, skipped, is_ok, real_head, evidential_states, stands_at, bot_review_coverage,
  qualifying_at, qualifying_bot_coverage,
}
use agentic_dev_kit.PrWatch.Coverage.Latest.{says, latest_of}
use agentic_dev_kit.PrWatch.Coverage.Verdicts.{qualifying_iff}
use agentic_dev_kit.PrWatch.Pending.{summarize_review_bots}
use agentic_dev_kit.PrWatch.Repo.{Repo, ReviewClass, pr_review_class, lens_floor}
use agentic_dev_kit.PrWatch.Receipt.{Check, pass, fail}
use agentic_dev_kit.PrWatch.Receipt.Validate.{validate_composed_coverage}
use agentic_dev_kit.PrWatch.Gate.{View, Prior, Reads}
use agentic_dev_kit.PrWatch.Gate.Evidence.{
  error_of, head_equals, binds, coverage_error, receipt_valid, review_evidence,
}
use agentic_dev_kit.PrWatch.Gate.Report.{gather, build_report}
use agentic_dev_kit.PrWatch.Gate.Safety.{mergeable_iff}

-- a receipt that stands for the head: it names the head, and its composed coverage, if it has any,
-- is valid against Git
pub record StandsFor (repo : Repo) (class : ReviewClass) (h : String) (receipt : Fields)
    : Type 0 where
  pub names_head : get receipt "head" ≡ some (str h)
  pub covers : validate_composed_coverage repo receipt h (lens_floor class) ≡ pass tt

head_equals-inv : (o : Option Json) (h : String) → head_equals o (some h) ≡ true → o ≡ some (str h)
unfolding head_equals
head_equals-inv (some (str s)) h e = ap (λ t. some (str t)) ((eq_iff s h).0 e)
head_equals-inv _ h e = cc

no_error : (c : Check (Unit {0})) → is_some (error_of c) ≡ false → c ≡ pass tt
no_error (pass tt) h = refl
no_error (fail e) h = cc

covers_of :
    (repo : Repo) (class : ReviewClass) (f : Fields) (h : String)
    → binds f (some h) ≡ true
    → is_some (coverage_error repo class (some f) (some h)) ≡ false
    → validate_composed_coverage repo f h (lens_floor class) ≡ pass tt
unfolding coverage_error validate_composed_coverage
covers_of repo class f h b e = elim (Option-cases (get f "coverage")) [
  | inl absent ↦ rw (absent, validate_composed_coverage)
  | inr (j, there) ↦
      no_error (validate_composed_coverage repo f h (lens_floor class)) (ground (arith, there, b))
]

receipt_valid-StandsFor :
    (repo : Repo) (class : ReviewClass) (f : Fields) (h : String)
    → receipt_valid (some f) (some h) (coverage_error repo class (some f) (some h)) ≡ true
    → StandsFor repo class h f
unfolding receipt_valid
receipt_valid-StandsFor repo class f h v = record {
  names_head = head_equals-inv (get f "head") h (unfold binds in ground arith);
  covers = covers_of repo class f h (ground arith) (ground arith);
}

member_of : (xs : List String) → not (is_nil xs) ≡ true → (b : String) × (elem b xs ≡ true)
unfolding elem
member_of [] h = cc
member_of (x ∷ xs) h = (x, rw (eq_refl x))

no_head :
    (signal : Signal) (cov : List Review) (h : String)
    → (h == "") ≡ true
    → qualifying_bot_coverage signal cov (some h) ≡ []
unfolding qualifying_bot_coverage
no_head signal cov h e = ap (qualifying_at signal cov) {x = real_head (some h)} {y = none} (rw e)

-- a configured bot whose latest submission covers the head in an evidential state
abbrev pub BotReviewed : Config → String → List RawComment → Type 0
BotReviewed cfg h reviews =
    (b : String) × (says (stands_at h evidential_states)
        (latest_of cfg (some h) cfg.bots none b none reviews)
      ≡ true)

bot_route :
    (cfg : Config) (signal : Signal) (h : String) (reviews : List RawComment)
    → not (
        is_nil (
          qualifying_bot_coverage signal
            (bot_review_coverage cfg reviews (some h) cfg.bots)
            (some h)))
      ≡ true
    → (is_ok signal ≡ true) × BotReviewed cfg h reviews
bot_route cfg signal h reviews n = elim (Bool-cases (h == "")) [
  | inl empty ↦
      let f : List String → Bool = λ l. not (is_nil l) in
      absurd (
        false≢true (
          sym (ap f (no_head signal (bot_review_coverage cfg reviews (some h) cfg.bots) h empty))
          ∙ n))
  | inr real ↦
      let (b, m) =
        member_of
          (qualifying_bot_coverage signal (bot_review_coverage cfg reviews (some h) cfg.bots)
            (some h))
          n in
      let e = sym (qualifying_iff cfg signal reviews h cfg.bots b real) ∙ m in
      (&&-left _ _ e, (b, &&-right _ _ e))
]

-- what makes the evidence valid: a receipt that stands for the head, or a configured bot's own
-- review of it
abbrev pub HasEvidence :
    Repo → Config → ReviewClass → Option String → Option Fields → Signal → List RawComment → Type 0
HasEvidence repo cfg class head receipt signal reviews =
    (h : String) × (head ≡ some h)
    × (((f : Fields) × (receipt ≡ some f) × StandsFor repo class h f)
        ⊎ ((is_ok signal ≡ true) × BotReviewed cfg h reviews))

module _ (repo : Repo) (cfg : Config) (class : ReviewClass) (signal : Signal)
    (reviews : List RawComment) where
  abbrev is_valid : Option String → Option Fields → Bool
  is_valid head receipt =
      (review_evidence receipt head (coverage_error repo class receipt head)
        (qualifying_bot_coverage signal (bot_review_coverage cfg reviews head cfg.bots) head)).valid

  valid-HasEvidence :
      (head : Option String) (receipt : Option Fields)
      → is_valid head receipt ≡ true
      → HasEvidence repo cfg class head receipt signal reviews
  unfolding review_evidence qualifying_bot_coverage qualifying_at
  valid-HasEvidence none none v = unfold receipt_valid in cc
  valid-HasEvidence none (some f) v = unfold receipt_valid in cc
  valid-HasEvidence (some h) none v =
      (h, refl, inr (bot_route cfg signal h reviews (unfold receipt_valid in v)))
  valid-HasEvidence (some h) (some f) v =
      elim (Bool-cases
        (receipt_valid (some f) (some h) (coverage_error repo class (some f) (some h)))) [
          | inl y ↦ (h, refl, inl (f, refl, receipt_valid-StandsFor repo class f h y))
          | inr n ↦ (h, refl, inr (bot_route cfg signal h reviews (rw n at v)))
        ]

evidence_of_conditions : (a b c : Bool) → (a && (b && c)) ≡ true → c ≡ true
evidence_of_conditions a b c h = ground arith

-- No merge is authorized without independent review of the very head: a receipt that names the head
-- and whose composed coverage, if any, Git confirms; or, where the check read succeeded, a
-- configured bot whose latest submission covers the head in an evidential state.
pub mergeable-HasEvidence :
    (clk : Clock) (cfg : Config) (dg : Digest) (repo : Repo) (view : View) (seen : List String)
    (reads : Reads) (prior : Prior) (now : ℕ)
    → (build_report clk cfg dg repo view seen reads prior now).mergeable ≡ true
    → HasEvidence repo cfg
        (pr_review_class repo view.base_oid view.head)
        view.head
        (as_obj prior.receipt)
        (elim cfg.bots [ [] ↦ skipped | b ∷ bs ↦ reads.signal ])
        view.reviews
unfolding gather summarize_review_bots
mergeable-HasEvidence clk cfg dg repo view seen reads prior now m =
    valid-HasEvidence repo cfg (pr_review_class repo view.base_oid view.head)
      (elim cfg.bots [ [] ↦ skipped | b ∷ bs ↦ reads.signal ]) view.reviews view.head
      (as_obj prior.receipt)
      (evidence_of_conditions _ _ _
        (sym (mergeable_iff clk cfg dg repo view seen reads prior now) ∙ m))
