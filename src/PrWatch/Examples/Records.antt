-- ===== src/PrWatch/Examples/Records.antt =====
-- The theorems on recorded reviews and rounds, at a two-lens review of the head and its comment.
use Prim.Native.Char.{Char, code}
use agentic_dev_kit.Base.{sorted_set, filter, lower, without_suffix}
use agentic_dev_kit.PrWatch.Record.{
  bot_step, check_head, check_request, compose_step, delta_error, post_step, write_receipt, ◌>>=◌,
  ◌>>◌,
}
use agentic_dev_kit.PrWatch.Pending.{scan_details, summarize_review_bots}
use agentic_dev_kit.PrWatch.Delta.{
  delta_draw, delta_verdict, split_lines, split_word, values_of, walk_line, walk_lines, problems,
}
use agentic_dev_kit.Base.{
  ◌≡◌, ◌↔◌, refl, String, Bool, true, false, ◌&&◌, leb, none, some, [], ◌∷◌, strip, length, is_nil,
  ◌==◌, all, elem, is_some,
}
use agentic_dev_kit.Base.Json.{Fields, end, get, str, obj}
use agentic_dev_kit.PrWatch.Coverage.{ok}
use agentic_dev_kit.PrWatch.State.{missing, holds, load_state, has_round}
use agentic_dev_kit.PrWatch.State.Rounds.{rounds_of}
use agentic_dev_kit.PrWatch.Repo.{
  countable, pr_review_class, lens_floor, single_lens_source, delta_source,
}
use agentic_dev_kit.PrWatch.Gate.{gh}
use agentic_dev_kit.PrWatch.Poll.{poll_report}
use agentic_dev_kit.PrWatch.Delta.{check_delta_verdicts, walk_disposition}
use agentic_dev_kit.PrWatch.Delta.Verdicts.{IsAnswered, check_delta_verdicts_iff}
use agentic_dev_kit.PrWatch.Record.{
  Request, Try, done, stop, post_failed, Recording, Post, record_review, record_round, named_lenses,
}
use agentic_dev_kit.PrWatch.Record.Bound.{record_review_bound}
use agentic_dev_kit.PrWatch.Record.Valid.{record_review_valid}
use agentic_dev_kit.PrWatch.Record.Held.{record_review_held}
use agentic_dev_kit.PrWatch.Record.Refused.{Left, record_review_refused}
use agentic_dev_kit.PrWatch.Record.Warranted.{awaited, record_review_warranted}
use agentic_dev_kit.PrWatch.Record.Rounds.{Counted, record_round-Counted}
use agentic_dev_kit.PrWatch.Examples.Setup.{clock, config, digest, repo, green_view, reads}

abbrev is_letter : Char → Bool
is_letter c = leb 97 (code c) && leb (code c) 122

abbrev request : Request
request = record {
  source = " fallback:panel ";
  expected_head = "h1";
  allow_pending_bot = false;
  lenses = some "adversarial, tests";
  compose_parent = none;
  disposition = some "no findings";
  repair_pending = false;
}

abbrev pending_request : Request
pending_request = record {
  source = "fallback:panel";
  expected_head = "h1";
  allow_pending_bot = false;
  lenses = some "adversarial, tests";
  compose_parent = none;
  disposition = some "one finding, repaired next";
  repair_pending = true;
}

abbrev posts : Post
posts body = some ("https://example.org/1", some "issue:1")

abbrev fails : Post
fails body = none

abbrev nothing : Recording
nothing = record { state = end; receipt = end; class = pr_review_class repo none none }

abbrev recording : Try Recording → Recording
recording (done out) = out
recording (stop e saved) = nothing

abbrev run : Try Recording
run = record_review clock config repo is_letter posts request gh (green_view [] []) [] ok missing 3

run_done : run ≡ done (recording run)
unfolding filter strip ◌>>=◌ ◌>>◌ compose_step post_step bot_step delta_error check_request
    check_head write_receipt record_review scan_details summarize_review_bots
run_done = refl

record_review_bound_example :
    (some "h1" ≡ some (strip "h1"))
    × ((get (recording run).state "review_receipt" ≡ some (obj (recording run).receipt))
        × ((get (recording run).receipt "head" ≡ some (str (strip "h1")))
            × ((get (recording run).receipt "source" ≡ some (str (strip " fallback:panel ")))
                × (((false ≡ true)
                      → get (recording run).receipt "override" ≡ some (str "pending-bot"))
                    × (has_round (strip "h1") (rounds_of (recording run).state) ≡ true)))))
record_review_bound_example =
    record_review_bound clock config repo is_letter posts request gh (green_view [] []) [] ok
      missing 3 (recording run) run_done

record_review_valid_example :
    (poll_report clock config digest repo
      (holds (obj (recording run).state))
      (green_view [] [])
      reads
      5).gathered.evidence.valid
    ≡ true
record_review_valid_example =
    record_review_valid clock config repo is_letter posts request gh (green_view [] []) [] ok
      missing 3 (recording run) digest (green_view [] []) reads 5 run_done refl refl

abbrev held_run : Try Recording
held_run =
    record_review clock config repo is_letter posts pending_request gh (green_view [] []) [] ok
      missing 3

held_run_done : held_run ≡ done (recording held_run)
unfolding filter strip ◌>>=◌ ◌>>◌ compose_step post_step bot_step delta_error check_request
    check_head write_receipt record_review scan_details summarize_review_bots
held_run_done = refl

record_review_held_example :
    (poll_report clock config digest repo
      (holds (obj (recording held_run).state))
      (green_view [] [])
      reads
      5).mergeable
    ≡ false
record_review_held_example =
    record_review_held clock config repo is_letter posts pending_request gh (green_view [] []) [] ok
      missing 3 (recording held_run) digest (green_view [] []) reads 5 held_run_done refl refl

run_stopped :
    record_review clock config repo is_letter fails request gh (green_view [] []) [] ok missing 3
    ≡ stop post_failed none
unfolding filter strip ◌>>=◌ ◌>>◌ compose_step post_step bot_step delta_error check_request
    check_head write_receipt record_review scan_details summarize_review_bots
run_stopped = refl

record_review_refused_example : Left (load_state missing) post_failed none
record_review_refused_example =
    record_review_refused clock config repo is_letter fails request gh (green_view [] []) [] ok
      missing 3 post_failed none run_stopped

record_review_warranted_example :
    ((strip " fallback:panel " ≡ single_lens_source)
      → (length (countable repo (named_lenses (some "adversarial, tests"))) ≡ 1)
        × (leb 2 (lens_floor (pr_review_class repo (some "b0") (some "h1"))) ≡ false))
    × (((strip " fallback:panel " ≡ delta_source)
          → check_delta_verdicts is_letter repo
              (named_lenses (some "adversarial, tests"))
              (some "no findings")
            ≡ none)
        × ((false ≡ false)
            → is_nil (awaited clock config [] 3 (load_state missing) (strip "h1") ok) ≡ true))
record_review_warranted_example =
    record_review_warranted clock config repo is_letter posts request gh (green_view [] []) [] ok
      missing 3 (recording run) run_done

abbrev round_of : Try ((Fields × Bool) × String) → (Fields × Bool) × String
round_of (done out) = out
round_of (stop e saved) = ((end, false), "")

abbrev round_run : Try ((Fields × Bool) × String)
round_run =
    record_round clock config repo is_letter posts "abc" none gh (green_view [] []) missing 3

round_done : round_run ≡ done (round_of round_run)
unfolding strip ◌>>=◌ ◌>>◌ record_round
round_done = refl

record_round-Counted_example :
    Counted repo "abc" (green_view [] []) (load_state missing) (round_of round_run)
record_round-Counted_example =
    record_round-Counted clock config repo is_letter posts "abc" none gh (green_view [] []) missing
      3 (round_of round_run) round_done

abbrev verdict_lines : String
verdict_lines = "tests:\nprose-class: confirmed\nsafety-critical: disputed, because\n"

check_delta_verdicts_iff_example :
    (check_delta_verdicts is_letter repo ("tests" ∷ []) (some verdict_lines) ≡ none) ↔ (
      ((strip verdict_lines == "") ≡ false)
      × ((is_nil (countable repo ("tests" ∷ [])) ≡ false)
          × ((lens : String)
              → elem lens (countable repo ("tests" ∷ [])) ≡ true
              → IsAnswered is_letter repo
                  (countable repo ("tests" ∷ []))
                  (split_lines false verdict_lines)
                  lens)))
check_delta_verdicts_iff_example =
    check_delta_verdicts_iff is_letter repo ("tests" ∷ []) verdict_lines

-- the lines of one lens pass, but not with a blank line before the second verdict
verdict_lines_pass :
    (check_delta_verdicts is_letter repo ("tests" ∷ []) (some verdict_lines) ≡ none)
    × (is_some (
          check_delta_verdicts is_letter repo
            ("tests" ∷ [])
            (some "tests:\nprose-class: confirmed\n\nsafety-critical: disputed\n"))
        ≡ true)
unfolding all elem lower strip without_suffix split_lines delta_draw split_word delta_verdict
    walk_line walk_lines walk_disposition values_of problems check_delta_verdicts countable
    sorted_set filter
verdict_lines_pass = (refl, refl)
