-- ===== src/Triage/Examples.antt =====
-- The theorems on a reply of two commands to a batch of three candidates.
mod Outcomes
mod Runs
use Prim.Native.Char.{Char, code}
use agentic_dev_kit.Base.{any, contains, elem, strip}
use agentic_dev_kit.Triage.Commands.{command_of, modify_of}
use agentic_dev_kit.Triage.Approval.{
  complete, decision_of, digest_of, has_command_word, ids_of, is_shown, take_ids, take_line,
  take_lines, words_of,
}
use agentic_dev_kit.Base.{◌≡◌, refl, String, Bool, true, ◌&&◌, leb, List, [], ◌∷◌, map, all}
use agentic_dev_kit.Triage.Commands.{split_on, newline}
use agentic_dev_kit.Triage.Approval.{
  Proposal, file, archive, park, Decision, parsed, parse_commands,
}
use agentic_dev_kit.Triage.Approval.Covers.{
  ids_once, is_backed, parse_commands_ids, parse_commands_files,
}

abbrev is_letter : Char → Bool
is_letter c = leb 97 (code c) && leb (code c) 122

abbrev batch : List Proposal
batch =
    (record { id = "A1"; digest = "d1" })
    ∷ (record { id = "A2"; digest = "d2" })
    ∷ (record { id = "A3"; digest = "d3" })
    ∷ []

abbrev text : String
text = "archive A3\napprove A1"

abbrev decisions : List Decision
decisions =
    (record { candidate_id = "A1"; verdict = file; proposal_digest = "d1" })
    ∷ (record { candidate_id = "A2"; verdict = park; proposal_digest = "d2" })
    ∷ (record { candidate_id = "A3"; verdict = archive; proposal_digest = "d3" })
    ∷ []

text_parsed : parse_commands is_letter text batch ≡ parsed decisions
unfolding any elem strip contains split_on command_of modify_of is_shown decision_of digest_of
    complete take_ids words_of has_command_word ids_of take_line take_lines parse_commands
text_parsed = refl

batch_once : ids_once batch ≡ true
unfolding any is_shown ids_once
batch_once = refl

parse_commands_ids_example : map (λ d. d.candidate_id) decisions ≡ map (λ q. q.id) batch
parse_commands_ids_example = parse_commands_ids is_letter text batch decisions text_parsed

parse_commands_files_example : all (is_backed (split_on newline text)) decisions ≡ true
parse_commands_files_example = parse_commands_files is_letter text batch decisions text_parsed
