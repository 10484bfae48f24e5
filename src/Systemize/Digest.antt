-- ===== src/Systemize/Digest.antt =====
-- The candidates of `build` in scripts/lib/systemize/normalize.py: their ranking, the cap and the
-- batches. What was found on each pull request is an input. `list.sort`, which is stable, is an
-- insertion sort.
pub mod Ranked
pub mod Batches
use agentic_dev_kit.Base.{
  ℕ, zero, suc, ◌+◌, ◌-◌, ◌*◌, ◌/◌, ◌≤◌, String, Bool, true, false, ◌&&◌, not, Option, none, some,
  List, [], ◌∷◌, ◌++◌, map, filter, is_nil, length, ltb, leb, eqb, max, if◌then◌else◌,
}
use agentic_dev_kit.Systemize.Findings.{Severity, low, rank, Finding, is_addressed}
use agentic_dev_kit.Systemize.Tally.{Flags, Entry, reviewer_tally}

pub record PullRequest : Type 0 where
  pub number : ℕ
  pub findings : List Finding

pub record Candidate : Type 0 where
  pub number : ℕ
  pub max_severity : Severity
  pub unaddressed_count : ℕ
  pub finding_count : ℕ
  pub findings : List Finding

-- `max(severities, key=RANK.__getitem__)`: the first of the largest
unfoldable pub max_severity : Severity → List Finding → Severity
max_severity s [] = s
max_severity s (f ∷ fs) = max_severity (if ltb (rank s) (rank f.severity) then f.severity else s) fs

unfoldable pub count_unaddressed : List Finding → ℕ
count_unaddressed [] = 0
count_unaddressed (f ∷ fs) = (if is_addressed f.addressed then 0 else 1) + count_unaddressed fs

-- the loop of `build` over the pull requests
unfoldable pub candidate_of : ℕ → List Finding → List Candidate
candidate_of number [] = []
candidate_of number (f ∷ fs) =
    (record {
      number = number;
      max_severity = max_severity f.severity fs;
      unaddressed_count = count_unaddressed (f ∷ fs);
      finding_count = length (f ∷ fs);
      findings = f ∷ fs;
    })
    ∷ []

unfoldable pub candidates_of : List PullRequest → List Candidate
unfolding candidate_of
candidates_of [] = []
candidates_of (pr ∷ prs) = candidate_of pr.number pr.findings ++ candidates_of prs

-- one component of a comparison of tuples
unfoldable pub lex : ℕ → ℕ → Bool → Bool
lex x y rest = if ltb x y then true else if ltb y x then false else rest

-- `_rank_key(a) <= _rank_key(b)`; the first three components are negated in the key
unfoldable pub ranks_before : Candidate → Candidate → Bool
unfolding lex
ranks_before a b = lex (rank b.max_severity) (rank a.max_severity) (
    lex b.unaddressed_count a.unaddressed_count
      (lex b.finding_count a.finding_count (leb a.number b.number)))

unfoldable pub insert_ranked : Candidate → List Candidate → List Candidate
insert_ranked c [] = c ∷ []
insert_ranked c (d ∷ ds) =
    let rest = insert_ranked c ds in if ranks_before c d then c ∷ d ∷ ds else d ∷ rest

-- `candidates.sort(key=_rank_key)`
unfoldable pub sort_ranked : List Candidate → List Candidate
unfolding insert_ranked
sort_ranked [] = []
sort_ranked (c ∷ cs) = insert_ranked c (sort_ranked cs)

-- `candidates[:n]` and `candidates[n:]`
unfoldable pub take_first {ℓ} : {A : Type ℓ} → ℕ → List A → List A
take_first zero xs = []
take_first (suc n) [] = []
take_first (suc n) (x ∷ xs) = x ∷ take_first n xs

unfoldable pub drop_first {ℓ} : {A : Type ℓ} → ℕ → List A → List A
drop_first zero xs = xs
drop_first (suc n) [] = []
drop_first (suc n) (x ∷ xs) = drop_first n xs

-- the knobs of the digest; both sizes are positive
pub record Settings : Type 0 where
  pub batch_size : ℕ
  pub single_pass_max_prs : ℕ
  pub max_findings_prs_per_run : ℕ
  pub flags : Flags

pub record Limitation : Type 0 where
  pub pr : ℕ
  pub finding : String
  pub source_severity : Option String

unfoldable pub limitations_of : List Candidate → List Limitation
limitations_of [] = []
limitations_of (c ∷ cs) =
    map (λ f. record { pr = c.number; finding = f.id; source_severity = f.source_severity })
      (filter (λ f. not f.severity_mapped) c.findings)
    ++ limitations_of cs

-- `math.ceil(count / batch_size) if count else 0`
unfoldable pub n_batches : ℕ → ℕ → ℕ
n_batches zero batch_size = 0
n_batches (suc n) batch_size = (suc n + (batch_size - 1)) / batch_size

-- `every_finding`, of the pull requests that are omitted too
unfoldable pub every_finding : List PullRequest → List Finding
every_finding [] = []
every_finding (pr ∷ prs) = pr.findings ++ every_finding prs

-- the keys of the digest that the ranking decides
pub record Digest : Type 0 where
  pub prs : List Candidate
  pub cap_applied : Bool
  pub uncapped_findings_pr_count : ℕ
  pub omitted_prs : List ℕ
  pub findings_pr_count : ℕ
  pub single_pass_recommended : Bool
  pub batches : ℕ
  pub severity_limitations : List Limitation
  pub tally : List Entry

-- `build`, but for the identity of the run and the rounds of the tally
unfoldable pub build : Settings → List PullRequest → Digest
unfolding n_batches
build settings prs =
    let ranked = sort_ranked (candidates_of prs) in
    let kept = take_first settings.max_findings_prs_per_run ranked in
    let omitted = map (λ c. c.number) (drop_first settings.max_findings_prs_per_run ranked) in
    record {
      prs = kept;
      cap_applied = not (is_nil omitted);
      uncapped_findings_pr_count = length ranked;
      omitted_prs = omitted;
      findings_pr_count = length kept;
      single_pass_recommended = leb (length kept) settings.single_pass_max_prs;
      batches = n_batches (length kept) settings.batch_size;
      severity_limitations = limitations_of kept;
      tally = reviewer_tally settings.flags (every_finding prs);
    }
