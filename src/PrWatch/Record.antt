-- ===== src/PrWatch/Record.antt =====
-- `record_review` and `record_round` of scripts/pr_watch.py: what writes review evidence into the
-- state file. A refusal is a value in place of its message; it carries the state that was saved
-- before it, if one was. The post of a comment and the reads of the forge are parameters, and a
-- save succeeds.
pub mod Steps
pub mod Bound
pub mod Valid
pub mod Held
pub mod Refused
pub mod Warranted
pub mod Rounds
use Prim.Native.Char.{Char, code}
use Prim.Native.String
use agentic_dev_kit.Base.{
  ℕ, String, Bool, true, false, ◌&&◌, ◌||◌, not, Option, none, some, List, [], ◌∷◌, ◌++◌, length,
  is_nil, is_some, if◌then◌else◌, eqb, leb, filter, strip, ◌==◌,
}
use agentic_dev_kit.Base.Json.{
  Json, bool, str, arr, obj, Fields, end, field, get, put, as_obj, text_items,
}
use agentic_dev_kit.PrWatch.Config.{Config}
use agentic_dev_kit.PrWatch.Clock.{Clock}
use agentic_dev_kit.PrWatch.Checks.{CheckDetail}
use agentic_dev_kit.PrWatch.Coverage.{Signal, unavailable, skipped, ok, Review, bot_review_coverage}
use agentic_dev_kit.PrWatch.Pending.{summarize_review_bots, PendingBlocker, ReviewBots}
use agentic_dev_kit.PrWatch.State.{
  StateFile, holds, load_state, read_pending_since, write_pending_since, texts_of, put_seen,
  note_review_round,
}
use agentic_dev_kit.PrWatch.Repo.{
  Answer, answer, refusal, Repo, ReviewClass, pr_review_class, lens_floor, countable,
  single_lens_source, delta_source,
}
use agentic_dev_kit.PrWatch.Receipt.{CoverageError, Check, pass, fail}
use agentic_dev_kit.PrWatch.Receipt.Compose.{compose_coverage}
use agentic_dev_kit.PrWatch.Gate.{View, Backend, gh, rest}
use agentic_dev_kit.PrWatch.Delta.{DeltaError, check_delta_verdicts}
use agentic_dev_kit.PrWatch.Disposition.{disposition_body}

pub data RecordError : Type 0 where
  needs_gh no_source no_expected_head not_one_lens no_pr_head head_changed owes_two : RecordError
  delta_verdicts : DeltaError → RecordError
  bots_pending : List PendingBlocker → RecordError
  not_a_delta no_parent no_lens no_standing : RecordError
  not_composed : CoverageError → RecordError
  blank_disposition post_failed not_a_sha : RecordError
  unresolved : String → RecordError

-- a result, or a refusal with the state it saved
pub data Try {ℓ} (A : Type ℓ) : Type ℓ where
  done : A → Try A
  stop : RecordError → Option Fields → Try A

infixl 5 ◌>>=◌ ◌>>◌
unfoldable pub ◌>>=◌ {ℓ κ} : {A : Type ℓ} {B : Type κ} → Try A → (A → Try B) → Try B
done a >>= f = f a
stop e saved >>= f = stop e saved

unfoldable pub ◌>>◌ {ℓ} : {B : Type ℓ} → Try (Unit {0}) → Try B → Try B
m >> k = m >>= λ _. k

abbrev pub require : Bool → RecordError → Try (Unit {0})
require true e = done tt
require false e = stop e none

abbrev pub given {ℓ} : {A : Type ℓ} → Option A → RecordError → Try A
given none e = stop e none
given (some a) e = done a

abbrev pub not_refused {ℓ} : {A : Type ℓ} (why : A → RecordError) → Option A → Try (Unit {0})
not_refused why none = done tt
not_refused why (some e) = stop (why e) none

abbrev pub composed : Check Json → Try Json
composed (pass j) = done j
composed (fail e) = stop (not_composed e) none

-- `s.split(",")`
unfoldable pub split_commas : String → List String
split_commas String.[] = "" ∷ []
split_commas (String.◌∷◌ c s) =
    let rest = split_commas s in
    if eqb (code c) 44
    then "" ∷ rest
    else elim rest [ [] ↦ String.◌∷◌ c "" ∷ [] | part ∷ parts ↦ String.◌∷◌ c part ∷ parts ]

stripped : List String → List String
stripped [] = []
stripped (s ∷ ss) = let rest = stripped ss in if strip s == "" then rest else strip s ∷ rest

-- the lenses that `--lenses` names
unfoldable pub named_lenses : Option String → List String
unfolding split_commas stripped
named_lenses none = []
named_lenses (some lenses) = stripped (split_commas lenses)

-- the arguments of `record_review`
pub record Request : Type 0 where
  pub source : String
  pub expected_head : String
  pub allow_pending_bot : Bool
  pub lenses : Option String
  pub compose_parent : Option String
  pub disposition : Option String
  pub repair_pending : Bool

-- `_post_disposition_comment(pr, body)`: the comment's URL, and its key where the response has one;
-- `none` for a post that fails
abbrev pub Post : Type 0
Post = String → Option (String × Option String)

put_behind : Fields → List Review → Fields
put_behind behind [] = behind
put_behind behind (e ∷ es) =
    put_behind (if e.covers_head then behind else put behind e.bot (str e.sha)) es

-- `bots_behind_head`, the bots whose latest review is of another head
unfoldable pub behind_head : List Review → Fields
unfolding put_behind
behind_head es = put_behind end es

put_if : Bool → Fields → String → Json → Fields
put_if b fs k v = if b then put fs k v else fs

is_end : Fields → Bool
is_end end = true
is_end (field k v fs) = false

is_unavailable : Signal → Bool
is_unavailable unavailable = true
is_unavailable _ = false

-- the receipt before its coverage and its comment
unfoldable pub plain_receipt : Request → String → List String → Signal → Fields → String → Fields
unfolding put_if is_end is_unavailable
plain_receipt q head lenses signal behind at =
    put_if q.repair_pending
      (put_if (not (is_end behind))
        (put_if (is_unavailable signal)
          (put_if q.allow_pending_bot
            (put_if (not (is_nil lenses))
              (field "head" (str head)
                (field "source" (str (strip q.source)) (field "recorded_at" (str at) end)))
              "lenses" (arr (text_items lenses)))
            "override" (str "pending-bot"))
          "bot_signal" (str "unavailable"))
        "bots_behind_head" (obj behind))
      "repair_pending" (bool true)

-- the coverage that a composed receipt gets
unfoldable pub compose_step :
    Repo
    → ReviewClass
    → Request
    → String
    → List String
    → Fields
    → Fields
    → Option String
    → Try Fields
compose_step repo class q head lenses state receipt none = done receipt
compose_step repo class q head lenses state receipt (some parent) = do
  require (strip q.source == delta_source) not_a_delta
  require (not (strip parent == "")) no_parent
  require (not (is_nil lenses)) no_lens
  previous ← given (as_obj (get state "review_receipt")) no_standing
  coverage ←
      composed (compose_coverage repo (lens_floor class) previous (strip parent) head receipt)
  done (put receipt "coverage" coverage)

-- `state["seen"]` with the key of the engine's own comment
unfoldable pub acknowledge : Fields → Option String → Fields
acknowledge state none = state
acknowledge state (some key) = put_seen state (texts_of (get state "seen") ++ key ∷ [])

-- the state and the receipt after the post
unfoldable pub post_step : Post → Fields → Fields → Option String → Try (Fields × Fields)
unfolding acknowledge
post_step post state receipt none = done (state, receipt)
post_step post state receipt (some text) = do
  require (not (strip text == "")) blank_disposition
  posted ← given (post (disposition_body receipt text)) post_failed
  done (acknowledge state posted.1, put receipt "disposition_comment" (str posted.0))

unfoldable pub refuse_pending : Fields → String → ReviewBots → Try Signal
refuse_pending state head bots =
    if is_nil bots.blockers
    then done bots.signal
    else stop (bots_pending bots.blockers)
        (some (write_pending_since state (some head) bots.pending_since))

-- what is recorded: the saved state, the receipt in it and the review class
pub record Recording : Type 0 where
  pub state : Fields
  pub receipt : Fields
  pub class : ReviewClass

abbrev pub is_gh : Backend → Bool
is_gh gh = true
is_gh rest = false

module _ (clk : Clock) (cfg : Config) (repo : Repo) (is_word : Char → Bool) (post : Post) where
  -- the signal of the bot checks, which an override does not read
  unfoldable pub bot_step : Request → Fields → String → List CheckDetail → Signal → ℕ → Try Signal
  unfolding refuse_pending
  bot_step q state head details signal now =
      if q.allow_pending_bot
      then done ok
      else refuse_pending state head (
          summarize_review_bots clk cfg details [] now (read_pending_since state (some head)) signal
            [] none)

  unfoldable pub delta_error : Request → Option DeltaError
  delta_error q =
      if strip q.source == delta_source
      then check_delta_verdicts is_word repo (named_lenses q.lenses) q.disposition
      else none

  -- the refusals before the pull request is read
  unfoldable pub check_request : Request → Backend → Try (Unit {0})
  check_request q backend = do
    require (is_gh backend) needs_gh
    require (not (strip q.source == "")) no_source
    require (not (strip q.expected_head == "")) no_expected_head
    require
        (not (strip q.source == single_lens_source)
          || (eqb (length (named_lenses q.lenses)) 1
              && eqb (length (countable repo (named_lenses q.lenses))) 1))
        not_one_lens
    not_refused delta_verdicts (delta_error q)

  -- the refusals on the pull request; the result is its head and its class
  unfoldable pub check_head : Request → View → Try (String × ReviewClass)
  check_head q view = do
    head ← given view.head no_pr_head
    require (not (head == "")) no_pr_head
    require (head == strip q.expected_head) head_changed
    let class = pr_review_class repo view.base_oid (some head)
    require (not (strip q.source == single_lens_source && leb 2 (lens_floor class))) owes_two
    done (head, class)

  -- the receipt, its post and the new state
  unfoldable pub write_receipt :
      Request → Fields → String → ReviewClass → Signal → Fields → ℕ → Try Recording
  write_receipt q state head class signal behind now = do
    let lenses = named_lenses q.lenses
    let plain = plain_receipt q head lenses signal behind (clk.iso now)
    receipt ← compose_step repo class q head lenses state plain q.compose_parent
    posted ← post_step post state receipt q.disposition
    let noted = note_review_round posted.0 head (strip q.source) lenses (clk.iso now)
    done (record {
      state = put noted.0 "review_receipt" (obj posted.1);
      receipt = posted.1;
      class = class;
    })

  -- `record_review(pr, source, expected_head, ...)`
  unfoldable pub record_review :
      Request → Backend → View → List CheckDetail → Signal → StateFile → ℕ → Try Recording
  record_review q backend view details signal file now = do
    check_request q backend
    placed ← check_head q view
    let state = load_state file
    read ← bot_step q state placed.0 details signal now
    write_receipt q state placed.0 placed.1 read
        (behind_head (bot_review_coverage cfg view.reviews (some placed.0) cfg.bots)) now

  -- `_resolve_reviewed_head(reviewed, current)`
  resolved : Answer String → Try String
  resolved (answer head) = done head
  resolved (refusal why) = stop (unresolved why) none

  -- `record_round(pr, reviewed_head, ...)`: the saved state, whether the head was new, and the head
  unfoldable pub record_round :
      String → Option String → Backend → View → StateFile → ℕ → Try ((Fields × Bool) × String)
  unfolding resolved
  record_round reviewed lenses backend view file now = do
    require (is_gh backend) needs_gh
    require (not (strip reviewed == "")) no_expected_head
    require (repo.is_commit_sha (strip reviewed)) not_a_sha
    current ← given view.head no_pr_head
    require (not (current == "")) no_pr_head
    head ← resolved (repo.resolve_head (strip reviewed) current)
    done
        (note_review_round (load_state file) head "round" (named_lenses lenses) (clk.iso now), head)

-- the state file that a run leaves
unfoldable pub left {ℓ} : {A : Type ℓ} → (A → Fields) → StateFile → Try A → StateFile
left state_of file (done a) = holds (obj (state_of a))
left state_of file (stop e none) = file
left state_of file (stop e (some state)) = holds (obj state)
