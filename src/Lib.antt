-- ===== src/Lib.antt =====
-- A model of the watch loop and merge gate of scripts/pr_watch.py, of the scratch sweep of
-- scripts/sweep_scratch.py, of the heartbeat and the digest of scripts/lib/systemize, and of the
-- approval commands, the outcome receipts and the single-writer gate of scripts/lib/triage.
--
-- One invocation of pr_watch is a poll of one pull request. It reads a snapshot and the state
-- file, builds a report, decides whether the loop has converged and whether a merge is authorized,
-- and writes the state for the next poll. Comments that a poll showed stay actionable until
-- `--mark-seen` acknowledges them. A merge needs a settled green rollup, independent review of the
-- very head and no blocker. `--record-review` and `--record-round` are the other two writers of the
-- state file: a recorded review is the receipt that the gate reads at the next poll.
--
-- The sweep classifies every entry of a scratch root, and removes the stale ones after it has
-- read again what the decision rests on. The approval commands turn an operator's reply into one
-- decision for each candidate of a triage batch. A triage run holds the gate while it writes, and
-- leaves a receipt of its outcome, by which a scheduled caller tells completion from a wait or a
-- refusal. A systemize run marks its start, its steps and its end in the heartbeat file, which a
-- new start replaces, completed or not; its digest ranks the merged pull requests by what their
-- reviews found, and cuts them to a cap.
--
-- Base: the names shared by all files; Base/Text has Python's `str` methods, Base/Json the JSON
-- values that the state file and the receipts hold, with a dictionary as a list of fields.
-- PrWatch/Config: `ReviewConfig`. PrWatch/Clock: `_age_minutes`. PrWatch/Checks:
-- `summarize_checks` and `_check_is_pending`. PrWatch/Reviewer: `_match_bot`,
-- `_match_bot_identity` and the outage texts. PrWatch/Comments: `collect_comments`,
-- `all_comments` and `new_actionable`, with what a forge sends in Comments/Raw and
-- `_comment_key`, `_content_key` and `_ack_key` in Comments/Keys. PrWatch/Coverage:
-- `_reduce_latest_bot_reviews` and its readers `bot_review_coverage`, `bot_head_objections`,
-- `qualifying_bot_coverage`, `objecting_bot_coverage` and `bot_comment_verdicts`.
-- PrWatch/Pending: `summarize_review_bots` (its rows in Pending/Entries, its clock in
-- Pending/Clocks) and `review_owed`. PrWatch/State: the state file's readers and writers,
-- `mark_seen` and `_note_review_round`. PrWatch/Repo: `pr_review_class` over what Git answers.
-- PrWatch/Receipt: a composed receipt, with `_validate_composed_coverage` in Receipt/Validate and
-- `_compose_coverage` in Receipt/Compose. PrWatch/Gate: `decide_converged`, `decide_mergeable`,
-- `decide_done`; Gate/Settle, Gate/Evidence and Gate/Report are the parts of `build_report` in
-- the order of the code. PrWatch/Poll: `persist_settle_baseline`, `persist_poll` and the poll
-- path of `main`. PrWatch/Record: `record_review` and `record_round`. PrWatch/Delta:
-- `check_delta_verdicts`. PrWatch/Disposition: `disposition_body` and `_flat`. PrWatch/Budget:
-- `review_round_summary`. PrWatch/Pages: `_http_get_all` and `_http_get_all_wrapped`.
-- PrWatch/Rest: `_rest_review_decision`. Sweep/Paths: the walk of `_lineage` over
-- `os.path.dirname`. Sweep/Disk: what the sweep reads of a disk, with `_holds` and `_overlaps`.
-- Sweep/Classify: `scan` and `classify`. Sweep/Apply: `remove_entry` and `apply`, one turn of
-- fresh reads for each entry that is due. Triage/Commands: the two regular expressions of a
-- reply. Triage/Approval: `parse_commands` and `_names_this_batch`. Triage/Outcome:
-- `session_waiting_on` and `disposition_fields`; Triage/Outcome/Receipt: `write_receipt` and
-- `check_receipt`. Triage/Gate: the system calls of `acquire`, `verify` and `release` as turns of
-- concurrent runs, with the quarantine that a recovery makes. Systemize/Identity: the header of
-- an artifact and its check. Systemize/Tokens: the regular expressions of an invocation's
-- arguments. Systemize/Heartbeat: `start`, `tick` and `complete`. Systemize/Findings: the
-- severities and addressed states of scripts/lib/systemize/normalize.py; Systemize/Tally: its
-- `reviewer_tally`; Systemize/Digest: the ranking, the cap and the batches of its `build`. The
-- proofs stand in the children of each part; PrWatch/Examples, Sweep/Examples, Systemize/Examples
-- and Triage/Examples hold the test data, the tests and the theorems applied to concrete data.
--
-- Parameters: the answers of Git, `fnmatch` and the two regular expressions (record `Repo`),
-- `datetime` (record `Clock`, whose laws say that a printed time from the year 2000 on reads
-- back), the hashes and `json.dumps` (record `Digest`), and the snapshot that a transport delivers
-- (records `View` and `Reads`), one HTTP request with the next link of its answer, the post of a
-- comment, and what `\w` matches (a test on characters). The disk of the sweep is a record of
-- reads at one moment; its probes of git directories and the worktrees and stores that Git
-- registers are inputs too, and each turn of `apply` has reads of its own. Whether a write of the
-- state file succeeds, and the file that a failed write leaves, is an argument. The canonical
-- digest of a JSON object is a parameter, with no value where the object is not canonical, and so
-- is `int(...)` of a value that is no number. The target checks, the lock, the time and the success
-- of a heartbeat's write are inputs of each invocation (record `Moment`).
--
-- Fuel: `show`, the decimal digits of a number, runs on one more step than the number, and a
-- number has no more digits than that. `_lineage` runs on one more step than its path has
-- characters, since each ancestor is shorter than the path. The page loop counts its ceiling down.
-- All other loops are structural.
--
-- Not modelled: requests and retries; rendering and the command line; `evidence_findings`, which
-- reads prose by regular expressions; the report's keys that gate nothing, but for `review_owed`;
-- the sweep's survey, its configuration and its review rounds; the triage engine; of a recovery
-- of the gate all but the two calls that take it, where no two recoveries run at once; the shape
-- checks of a gate's record, which in the model belongs to the run that made it; the refusal of
-- the clean-up over the staged file of a run that goes on; the fetch of a systemize run, and of
-- its digest the texts, the rounds and the findings of a pull request, which are inputs. A file
-- that was published reads back as the value in it. A float index or total of a slice is not
-- represented. A save by `record_review` or `record_round` succeeds. Texts are mapped to lower
-- and upper case in ASCII, and white space is that of ASCII (tab to carriage return, and the
-- blank); list elements that are no objects and text fields of a snapshot that hold no text are
-- not represented; ages are ticks of the clock and not floats; refusals and blockers are values
-- in place of their messages.
pub mod Base
pub mod PrWatch
pub mod Sweep
pub mod Systemize
pub mod Triage
