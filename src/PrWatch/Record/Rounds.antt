-- ===== src/PrWatch/Record/Rounds.antt =====
-- What `record_round` counts.
use agentic_dev_kit.Base.{
  String, ◌≡◌, refl, ap, Bool, true, false, not, Option, some, List, strip, if◌then◌else◌, ◌==◌,
}
use mathlib.Core.Path.{subst}
use Prim.Native.Char.{Char}
use agentic_dev_kit.Base.Json.{Json, arr, Fields, get, put, get-put}
use agentic_dev_kit.Base.{ℕ}
use agentic_dev_kit.PrWatch.Config.{Config}
use agentic_dev_kit.PrWatch.Clock.{Clock}
use agentic_dev_kit.PrWatch.Repo.{Answer, answer, refusal, Repo}
use agentic_dev_kit.PrWatch.State.{
  StateFile, load_state, note_review_round, has_round, append_item, round_entry,
}
use agentic_dev_kit.PrWatch.State.Rounds.{rounds_of, noted_has}
use agentic_dev_kit.PrWatch.Gate.{View, Backend}
use agentic_dev_kit.PrWatch.Record.{done, Post, resolved, record_round, named_lenses}
use agentic_dev_kit.PrWatch.Record.Steps.{bind_inv, given_inv, guard_inv, done_inv}

-- both outcomes of `_note_review_round`, told by whether the head is known
one_of :
    (state : Fields) (b : Bool) (xs ys : Json)
    → let out : Fields × Bool =
        if b then (put state "review_rounds" xs, false) else (put state "review_rounds" ys, true) in
      ((k : String) → ("review_rounds" == k) ≡ false → get out.0 k ≡ get state k) × (out.1 ≡ not b)
one_of state true xs ys = (λ k n. simp (get-put, n), refl)
one_of state false xs ys = (λ k n. simp (get-put, n), refl)

note_review_round-kept :
    (state : Fields) (head source at : String) (lenses : List String)
    → let out = note_review_round state head source lenses at in
      ((k : String) → ("review_rounds" == k) ≡ false → get out.0 k ≡ get state k)
      × (out.1 ≡ not (has_round head (rounds_of state)))
unfolding note_review_round rounds_of
note_review_round-kept state head source at lenses =
    one_of state (has_round head (rounds_of state)) (arr (rounds_of state))
      (arr (append_item (rounds_of state) (round_entry head source lenses at)))

resolved_inv :
    (clk : Clock) (cfg : Config) (repo : Repo) (is_word : Char → Bool) (post : Post)
    (a : Answer String) (head : String)
    → resolved clk cfg repo is_word post a ≡ done head
    → a ≡ answer head
unfolding resolved
resolved_inv clk cfg repo is_word post (answer h) head e = ap answer (done_inv h head e)
resolved_inv clk cfg repo is_word post (refusal why) head e = cc

-- what a recorded round is, and what it changes of the state
pub record Counted (repo : Repo) (reviewed : String) (view : View) (state : Fields)
    (out : (Fields × Bool) × String) : Type 0 where
  pub placed :
      (current : String) × (view.head ≡ some current)
      × (repo.resolve_head (strip reviewed) current ≡ answer out.1)
  pub named : repo.is_commit_sha (strip reviewed) ≡ true
  pub noted : (strip out.1 == "") ≡ false → has_round out.1 (rounds_of out.0.0) ≡ true
  pub kept : (k : String) → ("review_rounds" == k) ≡ false → get out.0.0 k ≡ get state k
  pub was_new : out.0.1 ≡ not (has_round out.1 (rounds_of state))

-- A recorded round is a head that Git resolves from the sha that was given, against the current head;
-- it is counted among the rounds and told apart from one that was there, and nothing but the rounds
-- changes, so no round makes a receipt.
pub record_round-Counted :
    (clk : Clock) (cfg : Config) (repo : Repo) (is_word : Char → Bool) (post : Post)
    (reviewed : String) (lenses : Option String) (backend : Backend) (view : View)
    (file : StateFile) (now : ℕ) (out : (Fields × Bool) × String)
    → record_round clk cfg repo is_word post reviewed lenses backend view file now ≡ done out
    → Counted repo reviewed view (load_state file) out
unfolding record_round
record_round-Counted clk cfg repo is_word post reviewed lenses backend view file now out h =
    let (b1, h1) = guard_inv _ _ _ _ h in
    let (b2, h2) = guard_inv _ _ _ _ h1 in
    let (b3, h3) = guard_inv _ _ _ _ h2 in
    let (current, b4, h4) = given_inv _ _ _ _ h3 in
    let (b5, h5) = guard_inv _ _ _ _ h4 in
    let (head, b6, h6) = bind_inv _ _ _ h5 in
    let kept =
      note_review_round-kept (load_state file) head "round" (clk.iso now) (named_lenses lenses) in
    subst (Counted repo reviewed view (load_state file)) (done_inv _ _ h6) (record {
      placed = (current, b4, resolved_inv clk cfg repo is_word post _ head b6);
      named = b3;
      noted = noted_has (load_state file) head "round" (clk.iso now) (named_lenses lenses);
      kept = kept.0;
      was_new = kept.1;
    })
