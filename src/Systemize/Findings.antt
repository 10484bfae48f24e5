-- ===== src/Systemize/Findings.antt =====
-- Severities, stances and addressed states of review findings, in
-- scripts/lib/systemize/normalize.py. The texts of a finding are read elsewhere.
use agentic_dev_kit.Base.{
  ℕ, String, Bool, true, false, ◌||◌, not, Option, none, some, ◌∷◌, [], elem, leb, lower, strip,
  if◌then◌else◌,
}

-- `CANONICAL_SEVERITIES`
pub data Severity : Type 0 where
  low normal high critical : Severity

-- `RANK`
unfoldable pub rank : Severity → ℕ
rank low = 0
rank normal = 1
rank high = 2
rank critical = 3

-- `SEVERITY_TABLE`
unfoldable pub severity_of : String → Option Severity
severity_of key =
    if elem key ("low" ∷ "minor" ∷ "info" ∷ "informational" ∷ [])
    then some low
    else if elem key ("medium" ∷ "moderate" ∷ "normal" ∷ "warning" ∷ [])
    then some normal
    else if elem key ("high" ∷ "major" ∷ [])
    then some high
    else if elem key ("critical" ∷ "blocker" ∷ [])
    then some critical
    else none

or_normal : Option Severity → Severity × Bool
or_normal none = (normal, false)
or_normal (some s) = (s, true)

-- `normalize_severity(label)`: the severity, and whether the label is mapped
unfoldable pub normalize_severity : Option String → Severity × Bool
unfolding or_normal severity_of
normalize_severity none = (normal, true)
normalize_severity (some label) = or_normal (severity_of (lower (strip label)))

pub data Stance : Type 0 where
  accept dispute_evidence dispute_concern : Stance

-- `ADDRESSED_STATES`
pub data Addressed : Type 0 where
  addressed outdated unaddressed unevidenced : Addressed

unfoldable pub is_addressed : Addressed → Bool
is_addressed addressed = true
is_addressed state = false

-- `stance_addressed(stance, severity, known=..., regression=...)`
unfoldable pub stance_addressed : Stance → Severity → Bool → Bool → Addressed
unfolding rank
stance_addressed dispute_concern severity known regression =
    if regression || (not known || leb (rank high) (rank severity)) then unaddressed else addressed
stance_addressed stance severity known regression = addressed

-- `thread_addressed(thread)`
unfoldable pub thread_addressed : Bool → Bool → Addressed
thread_addressed is_resolved is_outdated =
    if is_resolved then addressed else if is_outdated then outdated else unaddressed

-- the source of a finding: a lens of the review panel, or a login of one kind
pub data Source : Type 0 where
  lens : (name : String) → Source
  account : (kind : String) → (login : String) → Source

-- `normalize_login(value)` of config.py
unfoldable pub normalize_login : String → String
normalize_login value = lower (strip value)

-- the fields of a finding that the digest ranks and counts by
pub record Finding : Type 0 where
  pub source : Source
  pub stance : Option Stance
  pub id : String
  pub source_severity : Option String
  pub severity : Severity
  pub severity_mapped : Bool
  pub addressed : Addressed
