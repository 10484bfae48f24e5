-- ===== src/PrWatch/Record/Refused.antt =====
-- What a refusal of `record_review` leaves behind.
use Prim.Native.Char.{Char}
use mathlib.Core.Path.{subst}
use agentic_dev_kit.Base.{
  ℕ, String, ◌≡◌, inl, inr, Bool, true, false, Option, none, some, List, [], is_nil, ◌==◌,
  Bool-cases,
}
use agentic_dev_kit.Base.Json.{Json, Fields, get}
use agentic_dev_kit.PrWatch.Config.{Config}
use agentic_dev_kit.PrWatch.Clock.{Clock}
use agentic_dev_kit.PrWatch.Checks.{CheckDetail}
use agentic_dev_kit.PrWatch.Coverage.{Signal}
use agentic_dev_kit.PrWatch.State.{StateFile, load_state}
use agentic_dev_kit.PrWatch.Repo.{Repo, ReviewClass}
use agentic_dev_kit.PrWatch.Receipt.{Check, pass, fail}
use agentic_dev_kit.PrWatch.Pending.{PendingBlocker, ReviewBots, summarize_review_bots}
use agentic_dev_kit.PrWatch.State.{read_pending_since}
use agentic_dev_kit.PrWatch.Gate.{View, Backend}
use agentic_dev_kit.PrWatch.Poll.Ageing.{get-write_pending_since}
use agentic_dev_kit.PrWatch.Record.{
  RecordError, bots_pending, Try, done, stop, ◌>>=◌, ◌>>◌, require, given, not_refused, composed,
  Request, Post, compose_step, post_step, refuse_pending, bot_step, check_request, check_head,
  write_receipt, record_review,
}

-- A refusal saves nothing; or it is that of a pending bot, and the state it saves differs from the
-- old one in the pending clock alone.
pub data Left (state : Fields) : RecordError → Option Fields → Type 0 where
  untouched : {e : RecordError} → Left state e none
  clocked :
      {bots : List PendingBlocker} {saved : Fields}
      → ((k : String) → ("bot_pending_since" == k) ≡ false → get saved k ≡ get state k)
      → Left state (bots_pending bots) (some saved)

-- whatever way a step ends, a refusal of it is one of those
abbrev Harmless {ℓ} : {A : Type ℓ} → Fields → Try A → Type 0
Harmless state (done a) = Unit
Harmless state (stop e saved) = Left state e saved

module _ (state : Fields) where
  bind_Harmless {ℓ κ} :
      {A : Type ℓ} {B : Type κ} (m : Try A) (f : A → Try B)
      → Harmless state m
      → ((a : A) → Harmless state (f a))
      → Harmless state (m >>= f)
  unfolding ◌>>=◌
  bind_Harmless (done a) f h k = k a
  bind_Harmless (stop e saved) f h k = h

  require-Harmless : (b : Bool) (e : RecordError) → Harmless state (require b e)
  require-Harmless true e = tt
  require-Harmless false e = untouched

  given-Harmless {ℓ} : {A : Type ℓ} (o : Option A) (e : RecordError) → Harmless state (given o e)
  given-Harmless none e = untouched
  given-Harmless (some a) e = tt

  composed-Harmless : (c : Check Json) → Harmless state (composed c)
  composed-Harmless (pass j) = tt
  composed-Harmless (fail e) = untouched

  not_refused-Harmless {ℓ} :
      {A : Type ℓ} (why : A → RecordError) (o : Option A) → Harmless state (not_refused why o)
  not_refused-Harmless why none = tt
  not_refused-Harmless why (some e) = untouched

  guard_Harmless {κ} :
      {B : Type κ} (b : Bool) (e : RecordError) (k : Try B)
      → Harmless state k
      → Harmless state (require b e >> k)
  unfolding ◌>>◌
  guard_Harmless b e k h = bind_Harmless (require b e) (λ _. k) (require-Harmless b e) (λ _. h)

  refuse_Harmless :
      (head : String) (bots : ReviewBots) → Harmless state (refuse_pending state head bots)
  unfolding refuse_pending
  refuse_Harmless head bots = elim (Bool-cases (is_nil bots.blockers)) [
    | inl y ↦ rw y tt
    | inr n ↦ rw n (clocked (get-write_pending_since state (some head) bots.pending_since))
  ]

  compose_Harmless :
      (repo : Repo) (class : ReviewClass) (q : Request) (head : String) (lenses : List String)
      (receipt : Fields) (parent : Option String)
      → Harmless state (compose_step repo class q head lenses state receipt parent)
  unfolding compose_step
  compose_Harmless repo class q head lenses receipt none = tt
  compose_Harmless repo class q head lenses receipt (some parent) = guard_Harmless _ _ _ (
      guard_Harmless _ _ _ (
        guard_Harmless _ _ _ (
          bind_Harmless _ _ (given-Harmless _ _)
            (λ previous. bind_Harmless _ _ (composed-Harmless _) (λ coverage. tt)))))

  post_Harmless :
      (post : Post) (old receipt : Fields) (text : Option String)
      → Harmless state (post_step post old receipt text)
  unfolding post_step
  post_Harmless post old receipt none = tt
  post_Harmless post old receipt (some text) =
      guard_Harmless _ _ _ (bind_Harmless _ _ (given-Harmless _ _) (λ posted. tt))

  module _ (clk : Clock) (cfg : Config) (repo : Repo) (is_word : Char → Bool) (post : Post)
      (q : Request) where
    request_Harmless :
        (backend : Backend) → Harmless state (check_request clk cfg repo is_word post q backend)
    unfolding check_request
    request_Harmless backend = guard_Harmless _ _ _ (
        guard_Harmless _ _ _
          (guard_Harmless _ _ _ (guard_Harmless _ _ _ (not_refused-Harmless _ _))))

    head_Harmless : (view : View) → Harmless state (check_head clk cfg repo is_word post q view)
    unfolding check_head
    head_Harmless view =
        bind_Harmless _ _ (given-Harmless _ _)
          (λ head. guard_Harmless _ _ _ (guard_Harmless _ _ _ (guard_Harmless _ _ _ tt)))

    bot_Harmless :
        (head : String) (details : List CheckDetail) (signal : Signal) (now : ℕ)
        → Harmless state (bot_step clk cfg repo is_word post q state head details signal now)
    unfolding bot_step
    bot_Harmless head details signal now = elim (Bool-cases q.allow_pending_bot) [
      | inl y ↦ rw y tt
      | inr n ↦ rw n (
          refuse_Harmless head (
            summarize_review_bots clk cfg details [] now (read_pending_since state (some head))
              signal [] none))
    ]

    write_Harmless :
        (head : String) (class : ReviewClass) (signal : Signal) (behind : Fields) (now : ℕ)
        → Harmless state
            (write_receipt clk cfg repo is_word post q state head class signal behind now)
    unfolding write_receipt
    write_Harmless head class signal behind now =
        bind_Harmless _ _ (compose_Harmless repo class q head _ _ q.compose_parent) (λ receipt.
          bind_Harmless _ _ (post_Harmless post state receipt q.disposition) (λ posted. tt))

review_Harmless :
    (clk : Clock) (cfg : Config) (repo : Repo) (is_word : Char → Bool) (post : Post) (q : Request)
    (backend : Backend) (view : View) (details : List CheckDetail) (signal : Signal)
    (file : StateFile) (now : ℕ)
    → Harmless
        (load_state file)
        (record_review clk cfg repo is_word post q backend view details signal file now)
unfolding record_review ◌>>◌
review_Harmless clk cfg repo is_word post q backend view details signal file now =
    let state = load_state file in
    bind_Harmless state _ _ (request_Harmless state clk cfg repo is_word post q backend) (λ _.
      bind_Harmless state _ _ (head_Harmless state clk cfg repo is_word post q view) (λ placed.
        bind_Harmless state _ _
          (bot_Harmless state clk cfg repo is_word post q placed.0 details signal now)
          (λ read. write_Harmless state clk cfg repo is_word post q placed.0 placed.1 read _ now)))

-- A review that is refused, a failed post included, leaves the state as it was: nothing is saved, or
-- the refusal is that of a pending bot and what is saved differs in the pending clock alone.
pub record_review_refused :
    (clk : Clock) (cfg : Config) (repo : Repo) (is_word : Char → Bool) (post : Post) (q : Request)
    (backend : Backend) (view : View) (details : List CheckDetail) (signal : Signal)
    (file : StateFile) (now : ℕ) (e : RecordError) (saved : Option Fields)
    → record_review clk cfg repo is_word post q backend view details signal file now ≡ stop e saved
    → Left (load_state file) e saved
record_review_refused clk cfg repo is_word post q backend view details signal file now e saved h =
    subst (Harmless (load_state file)) h
      (review_Harmless clk cfg repo is_word post q backend view details signal file now)
