-- ===== src/PrWatch/Examples/Transport.antt =====
-- The theorems on REST reads, at two pages and at three reviews.
use agentic_dev_kit.PrWatch.Pages.{read_pages}
use agentic_dev_kit.Base.{elem, upper}
use agentic_dev_kit.Base.Json.{put}
use agentic_dev_kit.Base.{◌≡◌, refl, ◌↔◌, String, none, some, List, [], ◌∷◌, if◌then◌else◌, ◌==◌}
use agentic_dev_kit.Base.Json.{pos, int, str, arr, obj, nil, cons, Fields, field, end, get}
use agentic_dev_kit.PrWatch.Pages.{
  Fetched, failed, answered, short_of, read, array_page, wrapped_page, http_get_all,
  http_get_all_wrapped,
}
use agentic_dev_kit.PrWatch.Pages.Complete.{Delivered, http_get_all-Delivered}
use agentic_dev_kit.PrWatch.Rest.{rest_review_decision}
use agentic_dev_kit.PrWatch.Rest.Decision.{last_verdict, rest_review_decision_iff}

abbrev row : String → Fields
row name = field "name" (str name) end

-- two pages, the second with no link
abbrev forge : String → Fetched
forge url =
    if url == "p1"
    then answered (arr (cons (obj (row "a")) nil)) (some "p2")
    else if url == "p2"
    then answered (arr (cons (obj (row "b")) nil)) none
    else failed

abbrev checks_forge : String → Fetched
checks_forge url =
    answered
      (obj (
        field "total_count" (int (pos 2))
          (field "check_runs" (arr (cons (obj (row "a")) nil)) end)))
      none

both_pages : http_get_all forge 20 (some 2) "p1" ≡ read (row "a" ∷ row "b" ∷ []) none
unfolding array_page read_pages http_get_all
both_pages = refl

short_page :
    http_get_all_wrapped checks_forge 20 "check_runs" "c" ≡ read (row "a" ∷ []) (some (short_of 2))
unfolding get wrapped_page read_pages http_get_all_wrapped
short_page = refl

http_get_all-Delivered_example :
    Delivered forge array_page 20 "p1" (λ t. some 2) (row "a" ∷ row "b" ∷ []) none
http_get_all-Delivered_example =
    http_get_all-Delivered forge 20 (some 2) "p1" (row "a" ∷ row "b" ∷ []) none both_pages

abbrev review : String → String → Fields
review login state =
    field "state" (str state) (field "user" (obj (field "login" (str login) end)) end)

abbrev reviews : List Fields
reviews =
    review "ann" "CHANGES_REQUESTED"
    ∷ review "bob" "CHANGES_REQUESTED"
    ∷ review "ann" "APPROVED"
    ∷ []

rest_review_decision_iff_example :
    ((rest_review_decision reviews ≡ some "CHANGES_REQUESTED")
      ↔ ((a : String) × (last_verdict a reviews ≡ some "CHANGES_REQUESTED")))
    × ((rest_review_decision reviews ≡ some "APPROVED") ↔ (
        ((a : String) → ¬ (last_verdict a reviews ≡ some "CHANGES_REQUESTED"))
        × ((a : String) × (last_verdict a reviews ≡ some "APPROVED"))))
rest_review_decision_iff_example = rest_review_decision_iff reviews

-- bob still asks for changes
bob_blocks : rest_review_decision reviews ≡ some "CHANGES_REQUESTED"
unfolding elem upper get put rest_review_decision
bob_blocks = refl
