-- ===== src/PrWatch/Examples/Receipts.antt =====
-- The theorems on composed receipts, at one full review and one delta on top of it.
use agentic_dev_kit.Base.{filter, lower, sorted_set, strip}
use agentic_dev_kit.Base.Json.{get, texts}
use agentic_dev_kit.PrWatch.Repo.{countable}
use agentic_dev_kit.PrWatch.Receipt.{receipt_caveats, receipt_lenses, text_list}
use agentic_dev_kit.PrWatch.Receipt.Validate.{
  anchors_a_delta, check_delta, check_deltas, check_final, check_full_parent, is_version_1,
  validate_composed_coverage,
}
use agentic_dev_kit.PrWatch.Receipt.Compose.{
  coverage_of, current_delta, fresh_parent, put_caveats, standing_chain,
}
use agentic_dev_kit.Base.{◌≡◌, refl, String, List, [], ◌∷◌}
use agentic_dev_kit.Base.Json.{
  Json, pos, int, str, obj, arr, cons, nil, Fields, field, end, put, text_items,
}
use agentic_dev_kit.PrWatch.Receipt.{pass, ◌>>=◌, ◌>>◌}
use agentic_dev_kit.PrWatch.Receipt.Validate.{check_coverage}
use agentic_dev_kit.PrWatch.Receipt.Compose.{compose_coverage}
use agentic_dev_kit.PrWatch.Receipt.Chain.{
  Composed, check_coverage-Composed, compose_coverage-Composed,
}
use agentic_dev_kit.PrWatch.Examples.Setup.{repo}

abbrev lens_texts : List String → Json
lens_texts names = arr (text_items names)

-- a full review of `h0`
abbrev full_review : Fields
full_review = field "head" (str "h0") (
    field "source" (str "fallback:two-lens")
      (field "lenses" (lens_texts ("adversarial" ∷ "tests" ∷ [])) end))

-- a delta pass over `h0..h1`
abbrev delta_pass : Fields
delta_pass =
    field "head" (str "h1")
      (field "source" (str "fallback:delta") (field "lenses" (lens_texts ("delta" ∷ [])) end))

abbrev delta_entry : Fields
delta_entry = field "base" (str "h0") (
    field "head" (str "h1") (
      field "source" (str "fallback:delta") (
        field "lenses" (lens_texts ("delta" ∷ []))
          (field "paths" (arr (text_items ("a.py" ∷ []))) end))))

abbrev composed : Json
composed = obj (
    field "version" (int (pos 1)) (
      field "full_parent" (obj full_review)
        (field "deltas" (arr (cons (obj delta_entry) nil)) end)))

covers_h1 : check_coverage repo (put delta_pass "coverage" composed) "h1" 2 composed ≡ pass tt
unfolding filter lower strip sorted_set get put texts text_items countable ◌>>=◌ ◌>>◌ receipt_lenses
    receipt_caveats text_list anchors_a_delta is_version_1 check_full_parent check_delta
    check_deltas check_final check_coverage
covers_h1 = refl

check_coverage-Composed_example : Composed repo (put delta_pass "coverage" composed) "h1" 2 composed
check_coverage-Composed_example =
    check_coverage-Composed repo (put delta_pass "coverage" composed) "h1" 2 composed covers_h1

composes : compose_coverage repo 2 full_review "h0" "h1" delta_pass ≡ pass composed
unfolding filter lower strip sorted_set get put texts text_items countable ◌>>=◌ ◌>>◌ receipt_lenses
    receipt_caveats text_list anchors_a_delta is_version_1 check_full_parent check_delta
    check_deltas check_final check_coverage validate_composed_coverage put_caveats fresh_parent
    standing_chain current_delta coverage_of compose_coverage
composes = refl

compose_coverage-Composed_example :
    Composed repo (put delta_pass "coverage" composed) "h1" 2 composed
compose_coverage-Composed_example =
    compose_coverage-Composed repo 2 full_review delta_pass "h0" "h1" composed composes
