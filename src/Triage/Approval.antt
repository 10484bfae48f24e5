-- ===== src/Triage/Approval.antt =====
-- `parse_commands` and `_names_this_batch` of scripts/lib/triage/approval.py. A `TriageError` is a
-- value in place of its message, and what `\w` matches is a parameter.
pub mod Taken
pub mod Covers
use Prim.Native.Char.{Char}
use Prim.Native.String
use agentic_dev_kit.Base.{
  String, Bool, true, false, ◌&&◌, ◌||◌, not, Option, none, some, List, [], ◌∷◌, ◌++◌, map,
  if◌then◌else◌, elem, any, all, is_some, contains, strip, ◌==◌,
}
use agentic_dev_kit.Triage.Commands.{split_on, newline, space, command_of, modify_of}

-- one displayed candidate, with the digest of its payload
pub record Proposal : Type 0 where
  pub id : String
  pub digest : String

pub data Verdict : Type 0 where
  file archive park : Verdict
  modify : String → Verdict

pub record Decision : Type 0 where
  pub candidate_id : String
  pub verdict : Verdict
  pub proposal_digest : String

pub data ApprovalError : Type 0 where
  not_exact unknown_modify modify_not_alone line_not_exact unknown_command : ApprovalError
  comma mixed only_approve_all all_not_alone malformed_ids unknown_or_duplicate : ApprovalError

pub data Parsed {ℓ} (A : Type ℓ) : Type ℓ where
  parsed : A → Parsed A
  held : ApprovalError → Parsed A

-- `candidate_id in proposal_digests`
unfoldable pub is_shown : String → List Proposal → Bool
is_shown id ps = any (λ p. p.id == id) ps

-- `_names_this_batch(line, proposal_digests)`
names_batch : Option (String × String) → List Proposal → Bool
names_batch none ps = false
names_batch (some c) ps =
    if c.1 == "all" then c.0 == "approve" else all (λ id. is_shown id ps) (split_on space c.1)

unfoldable pub names_this_batch : String → List Proposal → Bool
unfolding names_batch
names_this_batch line ps = line == "cancel" || names_batch (command_of line) ps

-- the decision that is made on a candidate, in a dictionary in the order of the decisions
unfoldable pub decision_of : List Decision → String → Option Decision
decision_of [] id = none
decision_of (d ∷ ds) id =
    let rest = decision_of ds id in if d.candidate_id == id then some d else rest

-- `proposal_digests[id]`
unfoldable pub digest_of : List Proposal → String → String
digest_of [] id = ""
digest_of (p ∷ ps) id = let rest = digest_of ps id in if p.id == id then p.digest else rest

unfoldable pub decide : List Proposal → Verdict → String → Decision
decide ps v id = record { candidate_id = id; verdict = v; proposal_digest = digest_of ps id }

abbrev pub parked : Proposal → Decision
parked p = record { candidate_id = p.id; verdict = park; proposal_digest = p.digest }

abbrev pub or_parked : Option Decision → Proposal → Decision
or_parked (some d) p = d
or_parked none p = parked p

-- the decisions in the order of the proposals, `park` where there is none
unfoldable pub complete : List Decision → List Proposal → List Decision
complete ds [] = []
complete ds (p ∷ ps) = or_parked (decision_of ds p.id) p ∷ complete ds ps

abbrev pub verdict_for : String → Verdict
verdict_for verb = if verb == "approve" then file else if verb == "archive" then archive else park

-- the loop over the ids of one command
unfoldable pub take_ids :
    List Proposal → Verdict → List Decision → List String → Parsed (List Decision)
unfolding decide
take_ids ps v ds [] = parsed ds
take_ids ps v ds (id ∷ ids) =
    if not (is_shown id ps) || is_some (decision_of ds id)
    then held unknown_or_duplicate
    else take_ids ps v (ds ++ decide ps v id ∷ []) ids

unfoldable pub is_single : List String → Bool
is_single (l ∷ []) = true
is_single _ = false

module _ (is_word : Char → Bool) where
  -- the runs of word characters
  unfoldable pub words_of : String → List String
  words_of String.[] = "" ∷ []
  words_of (String.◌∷◌ c s) =
      let rest = words_of s in
      if is_word c
      then (elim rest [ [] ↦ String.◌∷◌ c "" ∷ [] | w ∷ ws ↦ String.◌∷◌ c w ∷ ws ])
      else "" ∷ rest

  -- `re.search(r"\b(?:approve|archive|park|modify|cancel)\b", ids_text)`
  unfoldable pub has_command_word : String → Bool
  has_command_word text =
      any (λ w. elem w ("approve" ∷ "archive" ∷ "park" ∷ "modify" ∷ "cancel" ∷ [])) (words_of text)

  -- the ids that one command names; `alone` is whether it is the only line
  unfoldable pub ids_of : List Proposal → Bool → String → String → Parsed (List String)
  ids_of ps alone verb text =
      if contains text ","
      then held comma
      else if has_command_word text
      then held mixed
      else if text == "all"
      then (if not (verb == "approve")
          then held only_approve_all
          else if alone
          then parsed (map (λ p. p.id) ps)
          else held all_not_alone)
      else if any (λ id. id == "") (split_on space text)
      then held malformed_ids
      else parsed (split_on space text)

  take_named :
      List Proposal → String → List Decision → Parsed (List String) → Parsed (List Decision)
  take_named ps verb ds (held e) = held e
  take_named ps verb ds (parsed ids) = take_ids ps (verdict_for verb) ds ids

  take_command :
      List Proposal → Bool → List Decision → Option (String × String) → Parsed (List Decision)
  unfolding take_named
  take_command ps alone ds none = held unknown_command
  take_command ps alone ds (some c) = take_named ps c.0 ds (ids_of ps alone c.0 c.1)

  -- one line
  unfoldable pub take_line : List Proposal → Bool → List Decision → String → Parsed (List Decision)
  unfolding take_command
  take_line ps alone ds line =
      if not (line == strip line) || line == ""
      then held line_not_exact
      else take_command ps alone ds (command_of line)

  and_then :
      (List Decision → Parsed (List Decision)) → Parsed (List Decision) → Parsed (List Decision)
  and_then k (held e) = held e
  and_then k (parsed ds) = k ds

  unfoldable pub take_lines :
      List Proposal → Bool → List Decision → List String → Parsed (List Decision)
  unfolding and_then
  take_lines ps alone ds [] = parsed ds
  take_lines ps alone ds (l ∷ ls) =
      and_then (λ es. take_lines ps alone es ls) (take_line ps alone ds l)

  -- the decision of a `modify`, which must be sent alone
  unfoldable pub take_modify : List Proposal → String → String → Parsed (List Decision)
  take_modify ps id body =
      if not (is_shown id ps)
      then held unknown_modify
      else if any (λ line. names_this_batch line ps) (split_on newline body)
      then held modify_not_alone
      else parsed (decide ps (modify body) id ∷ [])

  take_text : List Proposal → String → Option (String × String) → Parsed (List Decision)
  unfolding is_single
  take_text ps text (some m) = take_modify ps m.0 m.1
  take_text ps text none =
      take_lines ps (is_single (split_on newline text)) [] (split_on newline text)

  completed : List Proposal → Parsed (List Decision) → Parsed (List Decision)
  completed ps (held e) = held e
  completed ps (parsed ds) = parsed (complete ds ps)

  -- `parse_commands(text, proposal_digests)`
  unfoldable pub parse_commands : String → List Proposal → Parsed (List Decision)
  unfolding take_text completed
  parse_commands text ps =
      if not (text == strip text) || text == ""
      then held not_exact
      else if text == "cancel"
      then parsed (complete [] ps)
      else completed ps (take_text ps text (modify_of text))
