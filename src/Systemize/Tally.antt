-- ===== src/Systemize/Tally.antt =====
-- `reviewer_tally` of scripts/lib/systemize/normalize.py: what each reviewer found, over the whole
-- window. The dict of groups is a list in the order of insertion, and `sorted` an insertion sort.
pub mod Counts
use Prim.Native.String
use agentic_dev_kit.Base.{
  ℕ, zero, suc, ◌+◌, ◌*◌, String, Bool, true, false, ◌&&◌, Option, none, some, List, [], ◌∷◌, ◌++◌,
  map, filter, length, leb, ◌==◌, starts_with, text_le, if◌then◌else◌,
}
use agentic_dev_kit.Systemize.Findings.{
  Addressed, addressed, outdated, unaddressed, unevidenced, Stance, accept, dispute_evidence,
  dispute_concern, Source, lens, account, Finding, normalize_login,
}

-- `_tally_key(finding)`
unfoldable pub key_of : Source → String
unfolding normalize_login
key_of (lens name) = String.◌++◌ "lens:" name
key_of (account kind login) = String.◌++◌ kind (String.◌++◌ ":" (normalize_login login))

unfoldable pub tally_key : Finding → String
unfolding key_of
tally_key finding = key_of finding.source

pub record Group : Type 0 where
  pub key : String
  pub members : List Finding

-- `grouped.setdefault(_tally_key(finding), []).append(finding)`
unfoldable pub add_finding : Finding → List Group → List Group
add_finding f [] = (record { key = tally_key f; members = f ∷ [] }) ∷ []
add_finding f (g ∷ gs) =
    let rest = add_finding f gs in
    if g.key == tally_key f then (record g { members = g.members ++ f ∷ [] }) ∷ gs else g ∷ rest

unfoldable pub group_findings : List Finding → List Group → List Group
group_findings [] gs = gs
group_findings (f ∷ fs) gs = group_findings fs (add_finding f gs)

unfoldable pub insert_group : Group → List Group → List Group
insert_group g [] = g ∷ []
insert_group g (h ∷ hs) =
    let rest = insert_group g hs in if text_le g.key h.key then g ∷ h ∷ hs else h ∷ rest

-- `sorted(grouped)`
unfoldable pub sort_groups : List Group → List Group
unfolding insert_group
sort_groups [] = []
sort_groups (g ∷ gs) = insert_group g (sort_groups gs)

same_state : Addressed → Addressed → Bool
same_state addressed addressed = true
same_state outdated outdated = true
same_state unaddressed unaddressed = true
same_state unevidenced unevidenced = true
same_state _ _ = false

same_stance : Stance → Option Stance → Bool
same_stance accept (some accept) = true
same_stance dispute_evidence (some dispute_evidence) = true
same_stance dispute_concern (some dispute_concern) = true
same_stance _ _ = false

-- `sum(1 for f in group if f["addressed"] == state)`
unfoldable pub count_state : Addressed → List Finding → ℕ
unfolding same_state
count_state state fs = length (filter (λ f. same_state state f.addressed) fs)

-- `sum(1 for f in group if f["stance"] == s)`
unfoldable pub count_stance : Stance → List Finding → ℕ
unfolding same_stance
count_stance s fs = length (filter (λ f. same_stance s f.stance) fs)

-- an entry of `sources`; the counts of each state and each stance are functions
pub record Entry : Type 0 where
  pub source : String
  pub findings : ℕ
  pub by_addressed : Addressed → ℕ
  pub by_stance : Option (Stance → ℕ)
  pub refuted : Option ℕ
  pub refuted_flag : Bool

-- the settings `refuted_flag_min_findings` and `refuted_flag_percent`
pub record Flags : Type 0 where
  pub min_findings : ℕ
  pub percent : ℕ

-- `refuted is not None and len(group) >= … and refuted * 100 >= … * len(group)`
unfoldable pub is_flagged : Flags → ℕ → Option ℕ → Bool
is_flagged flags count none = false
is_flagged flags count (some refuted) =
    leb flags.min_findings count && leb (flags.percent * count) (refuted * 100)

unfoldable pub stances_of : Group → Option (Stance → ℕ)
stances_of g = if starts_with g.key "lens:" then some (λ s. count_stance s g.members) else none

refuted_of : Option (Stance → ℕ) → Option ℕ
refuted_of none = none
refuted_of (some counts) = some (counts dispute_evidence)

-- the body of the loop of `reviewer_tally`
unfoldable pub entry_of : Flags → Group → Entry
unfolding refuted_of
entry_of flags g =
    let refuted = refuted_of (stances_of g) in
    record {
      source = g.key;
      findings = length g.members;
      by_addressed = λ state. count_state state g.members;
      by_stance = stances_of g;
      refuted = refuted;
      refuted_flag = is_flagged flags (length g.members) refuted;
    }

-- the `sources` of `reviewer_tally(findings, rounds, settings)`
unfoldable pub reviewer_tally : Flags → List Finding → List Entry
reviewer_tally flags findings = map (entry_of flags) (sort_groups (group_findings findings []))
