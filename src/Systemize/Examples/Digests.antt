-- ===== src/Systemize/Examples/Digests.antt =====
-- The theorems on digests, at a window of three pull requests that the cap cuts to two.
use mathlib.Core.List.{Perm}
use agentic_dev_kit.Base.{
  ◌≤◌, ◌≡◌, refl, String, false, none, some, List, [], ◌∷◌, ◌++◌, map, filter, length, is_nil, not,
  ◌==◌, lower, strip,
}
use agentic_dev_kit.Systemize.Findings.{
  rank, Severity, low, high, critical, Finding, Addressed, addressed, unaddressed, Source, lens,
  account,
}
use agentic_dev_kit.Systemize.Tally.{entry_of, reviewer_tally, tally_key}
use agentic_dev_kit.Systemize.Tally.Counts.{reviewer_tally-filter}
use agentic_dev_kit.Systemize.Digest.{
  Candidate, PullRequest, Settings, build, candidates_of, take_first, drop_first, sort_ranked,
  ranks_before, max_severity,
}
use agentic_dev_kit.Systemize.Digest.Ranked.{IsOrdered, build-ranks}

abbrev finding : String → Severity → Addressed → Source → Finding
finding id severity state source = record {
  source = source;
  stance = none;
  id = id;
  source_severity = some "odd";
  severity = severity;
  severity_mapped = false;
  addressed = state;
}

abbrev bot : Source
bot = account "configured-reviewer" " CodeRabbit "

abbrev window : List PullRequest
window =
    (record { number = 7; findings = finding "a" low addressed bot ∷ [] })
    ∷ (record {
      number = 9;
      findings =
          finding "b" critical unaddressed bot ∷ finding "c" low addressed (lens "tests") ∷ [];
    })
    ∷ (record { number = 8; findings = [] })
    ∷ (record { number = 4; findings = finding "d" high addressed bot ∷ [] })
    ∷ []

abbrev settings : Settings
settings = record {
  batch_size = 2;
  single_pass_max_prs = 1;
  max_findings_prs_per_run = 2;
  flags = record { min_findings = 1; percent = 50 };
}

ranked_numbers : map (λ c. c.number) (build settings window).prs ≡ 9 ∷ 4 ∷ []
unfolding build take_first sort_ranked candidates_of ranks_before rank max_severity
ranked_numbers = refl

omitted_numbers : (build settings window).omitted_prs ≡ 7 ∷ []
unfolding build drop_first sort_ranked candidates_of ranks_before rank max_severity
omitted_numbers = refl

build-ranks_example :
    (rest : List Candidate) × ((build settings window).omitted_prs ≡ map (λ c. c.number) rest)
    × Perm ((build settings window).prs ++ rest) (candidates_of window)
    × IsOrdered ((build settings window).prs ++ rest)
    × (length (build settings window).prs ≤ 2)
    × ((build settings window).cap_applied ≡ not (is_nil rest))
    × (is_nil rest ≡ false → length (build settings window).prs ≡ 2)
build-ranks_example = build-ranks settings window

abbrev findings : List Finding
findings =
    finding "a" low addressed bot
    ∷ finding "b" critical unaddressed (lens "tests")
    ∷ finding "c" high unaddressed bot
    ∷ []

reviewer_tally-filter_example :
    filter
      (λ e. e.source == "configured-reviewer:coderabbit")
      (reviewer_tally settings.flags findings)
    ≡ entry_of settings.flags (record {
      key = "configured-reviewer:coderabbit";
      members = finding "a" low addressed bot ∷ finding "c" high unaddressed bot ∷ [];
    })
      ∷ []
unfolding filter tally_key lower strip
reviewer_tally-filter_example =
    reviewer_tally-filter settings.flags findings "configured-reviewer:coderabbit"
