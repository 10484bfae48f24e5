-- ===== src/PrWatch/Examples/Setup.antt =====
-- A configuration, a clock, a repository and a pull request to run scripts/pr_watch.py on.
use agentic_dev_kit.Base.{
  ℕ, zero, suc, ◌≤◌, String, ◌≡◌, refl, ap, true, false, Option, none, some, List, [], ◌∷◌, ◌==◌,
  arith,
}
use agentic_dev_kit.Base.Json.{pos, str, end}
use agentic_dev_kit.PrWatch.Config.{Config}
use agentic_dev_kit.PrWatch.Clock.{Stamp, Clock}
use agentic_dev_kit.PrWatch.Checks.{CheckRow}
use agentic_dev_kit.PrWatch.Comments.{absent, person, node, commit_object, RawComment, Digest}
use agentic_dev_kit.PrWatch.Coverage.{ok}
use agentic_dev_kit.PrWatch.Repo.{answer, Repo}
use agentic_dev_kit.PrWatch.Gate.{View, Prior, gh, Reads}

-- a clock whose texts are tallies
unfoldable pub tally : ℕ → String
tally zero = ""
tally (suc n) = String.◌∷◌ "1" (tally n)

unfoldable pub tally_size : String → ℕ
tally_size String.[] = 0
tally_size (String.◌∷◌ c s) = suc (tally_size s)

tally_size-tally : (n : ℕ) → tally_size (tally n) ≡ n
unfolding tally tally_size
tally_size-tally zero = refl
tally_size-tally (suc n) = ap suc (tally_size-tally n)

unfoldable pub print_time : ℕ → String
print_time t = String.◌∷◌ "T" (tally t)

unfoldable pub read_time : String → Option Stamp
read_time String.[] = none
read_time (String.◌∷◌ c s) = some (record { year = 2000; ticks = tally_size s })

pub reads_back :
    (t : ℕ)
    → 0 ≤ t
    → (y : ℕ) × (2000 ≤ y) × (read_time (print_time t) ≡ some (record { year = y; ticks = t }))
unfolding read_time print_time
reads_back t h =
    (2000, omega arith, ap (λ n. some (record { year = 2000; ticks = n })) (tally_size-tally t))

unfoldable pub clock : Clock
clock = record {
  minute = 1;
  parse = read_time;
  iso = print_time;
  iso_z = print_time;
  year_2000 = 0;
  parse-iso = reads_back;
  parse-iso_z = reads_back;
}

abbrev pub config : Config
config = record {
  noise_markers = "walkthrough" ∷ [];
  unavailable_markers = "rate limit" ∷ [];
  comment_verdict_markers = "no actionable comments" ∷ [];
  informational_checks = "label" ∷ [];
  require_ci = true;
  bots = "coderabbit" ∷ [];
  bot_author_aliases = ("coderabbit", "coderabbitai" ∷ []) ∷ [];
  bot_app_slugs = ("coderabbit", "coderabbitai" ∷ []) ∷ [];
  bot_pending_grace = 15;
  settle_grace = 5;
  round_budget = 3;
}

abbrev pub digest : Digest
digest = record { sha1 = λ s. s; sha256 = λ s. s; dumps = λ ss. elim ss [ [] ↦ "" | s ∷ r ↦ s ] }

abbrev pub changed_paths : List String
changed_paths = "a.py" ∷ []

-- every commit pair differs in one path, which no pattern names
abbrev pub repo : Repo
repo = record {
  delta_paths = λ a b. answer changed_paths;
  merge_base_paths = λ a b. answer changed_paths;
  declared_paths = λ rev. answer (some []);
  resolve_head = λ a b. answer b;
  config_path = answer "config/dev-model.yaml";
  fnmatchcase = λ path pattern. path == pattern;
  is_commit_sha = λ s. true;
  is_lens_name = λ s. true;
}

abbrev pub green_row : CheckRow
green_row = record {
  conclusion = some "SUCCESS";
  state = none;
  name = some "tests";
  context = none;
}

abbrev pub green_view : List RawComment → List RawComment → View
green_view comments reviews = record {
  state = some "OPEN";
  is_draft = false;
  base_ref = some "main";
  base_oid = some "b0";
  merge_state = some "CLEAN";
  review_decision = none;
  head = some "h1";
  rollup = green_row ∷ [];
  comments = comments;
  reviews = reviews;
  inlines = [];
}

-- a submission of the configured bot for a commit
abbrev pub bot_review : String → String → String → RawComment
bot_review state sha at = record {
  id = node "R";
  node_id = none;
  author = person (some "coderabbitai") none;
  user = absent;
  body = none;
  created_at = none;
  path = none;
  line = none;
  original_line = none;
  state = some state;
  commit = commit_object (some sha);
  commit_id = none;
  submitted_at = some at;
}

abbrev pub approval : RawComment
approval = bot_review "APPROVED" "h1" "2026-01-02T00:00:00Z"

abbrev pub objection : RawComment
objection = bot_review "CHANGES_REQUESTED" "h1" "2026-01-01T00:00:00Z"

abbrev pub reply : RawComment
reply = bot_review "COMMENTED" "h1" "2026-01-03T00:00:00Z"

abbrev pub reads : Reads
reads = record { details = []; signal = ok; backend = gh; unavailable = [] }

-- a settle stamp of time 0 at one check
abbrev pub settled : Prior
settled = record {
  head = some (str "h1");
  max_total = 1;
  receipt = none;
  pending_since = end;
  settle = some (record { at = "T"; total = pos 1 });
}
