-- ===== src/PrWatch/Gate/Evidence.antt =====
-- The two routes to review evidence in `build_report`, a receipt bound to the head and a configured
-- bot's own review of it, and what the report says of them.
use agentic_dev_kit.Base.{
  String, Bool, true, false, ◌&&◌, ◌||◌, not, Option, none, some, List, [], ◌∷◌, if◌then◌else◌,
  is_some, is_nil, ◌==◌,
}
use agentic_dev_kit.Base.Json.{Json, null, bool, str, Items, nil, cons, Fields, get, as_arr}
use agentic_dev_kit.PrWatch.Repo.{Repo, ReviewClass, lens_floor}
use agentic_dev_kit.PrWatch.Receipt.{CoverageError, Check, pass, fail, is_blank}
use agentic_dev_kit.PrWatch.Receipt.Validate.{validate_composed_coverage}

-- `receipt_head == head`, where a missing head equals a missing one
unfoldable pub head_equals : Option Json → Option String → Bool
head_equals (some (str s)) (some h) = s == h
head_equals none none = true
head_equals (some null) none = true
head_equals _ _ = false

unfoldable pub binds : Fields → Option String → Bool
unfolding head_equals
binds receipt head = head_equals (get receipt "head") head

abbrev pub error_of : Check (Unit {0}) → Option CoverageError
error_of (pass u) = none
error_of (fail e) = some e

-- `coverage_error`: only a receipt with coverage, bound to a head that is there, is validated
unfoldable pub coverage_error :
    Repo → ReviewClass → Option Fields → Option String → Option CoverageError
coverage_error repo class none head = none
coverage_error repo class (some receipt) none = none
coverage_error repo class (some receipt) (some h) =
    if is_some (get receipt "coverage") && binds receipt (some h)
    then error_of (validate_composed_coverage repo receipt h (lens_floor class))
    else none

abbrev has_head : Option String → Bool
has_head none = false
has_head (some h) = not (h == "")

unfoldable pub receipt_valid : Option Fields → Option String → Option CoverageError → Bool
receipt_valid none head error = false
receipt_valid (some receipt) head error =
    has_head head && (binds receipt head && not (is_some error))

pub data Route : Type 0 where
  by_receipt by_bot_coverage : Route

pub record ReviewEvidence : Type 0 where
  pub valid : Bool
  pub route : Option Route
  pub bots : List String
  pub source : Option Json
  pub head : Option Json
  pub lenses : List String
  pub override : Option Json
  pub bot_signal : Option Json

visible_texts : Items → List String
visible_texts nil = []
visible_texts (cons (str s) xs) =
    let rest = visible_texts xs in if is_blank s then rest else s ∷ rest
visible_texts (cons _ xs) = visible_texts xs

-- a receipt key that is reported only while the receipt binds to the head
unfoldable pub bound_key : Option Fields → Option String → String → Option Json
bound_key none head key = none
bound_key (some receipt) head key = if binds receipt head then get receipt key else none

unfoldable pub review_evidence :
    Option Fields → Option String → Option CoverageError → List String → ReviewEvidence
unfolding visible_texts
review_evidence receipt head error coverage_bots =
    let by_own = receipt_valid receipt head error in
    record {
      valid = by_own || not (is_nil coverage_bots);
      route =
          if by_own
          then some by_receipt
          else if is_nil coverage_bots
          then none
          else some by_bot_coverage;
      bots = coverage_bots;
      source = bound_key receipt head "source";
      head = bound_key receipt head "head";
      lenses = elim (as_arr (bound_key receipt head "lenses")) [
        | none ↦ []
        | some xs ↦ visible_texts xs
      ];
      override = bound_key receipt head "override";
      bot_signal = bound_key receipt head "bot_signal";
    }

-- a receipt at this head that says a repair is coming: any value but a missing key or `false`
abbrev is_held : Option Json → Bool
is_held none = false
is_held (some (bool false)) = false
is_held (some _) = true

unfoldable pub repair_is_pending : Option Fields → Option String → Bool
repair_is_pending none head = false
repair_is_pending (some receipt) head = binds receipt head && is_held (get receipt "repair_pending")
