-- ===== src/PrWatch/Poll/Ageing.antt =====
-- The settle stamp across polls: what one poll writes, the next one reads back.
use agentic_dev_kit.Base.{
  ℕ, ◌-◌, ◌≤◌, String, ◌≡◌, refl, ap, ◌∙◌, Bool, true, false, Option, none, some, List, arith,
  strip, ◌==◌, eq_refl, eqb, leb,
}
use agentic_dev_kit.Base.Json.{
  pos, Json, int, str, obj, Items, nil, cons, Fields, end, field, get, get-put, get-del,
}
use agentic_dev_kit.PrWatch.Clock.{Clock, age_minutes}
use agentic_dev_kit.PrWatch.Config.{Config}
use agentic_dev_kit.PrWatch.State.{
  StateFile, write_pending_since, Settled, stamp_of, is_for_head, read_settle_since,
}
use agentic_dev_kit.PrWatch.Gate.Settle.{
  head_changed, size_differs, rollup_moved, carried_stamp, settle_view,
}
use agentic_dev_kit.PrWatch.Gate.Report.{Report}
use agentic_dev_kit.PrWatch.Poll.{
  put_settle_baseline, carry_receipt, carry_rounds, poll_state, persist_poll, settle_json,
  head_json,
}

pub get-carry_receipt :
    (state : Fields) (receipt : Option Json) (k : String)
    → ("review_receipt" == k) ≡ false
    → get (carry_receipt state receipt) k ≡ get state k
unfolding carry_receipt
get-carry_receipt state (some (obj receipt)) k h = simp (get-put, h)
get-carry_receipt state _ k h = refl

pub get-carry_rounds :
    (state : Fields) (rounds : Items) (k : String)
    → ("review_rounds" == k) ≡ false
    → get (carry_rounds state rounds) k ≡ get state k
unfolding carry_rounds
get-carry_rounds state nil k h = refl
get-carry_rounds state (cons x xs) k h = simp (get-put, h)

pub get-write_pending_since :
    (state : Fields) (head : Option String) (bots : Fields) (k : String)
    → ("bot_pending_since" == k) ≡ false
    → get (write_pending_since state head bots) k ≡ get state k
unfolding write_pending_since
get-write_pending_since state none bots k h = simp (get-del, h)
get-write_pending_since state (some head) bots k h = ground (
  arith,
  get-put state "bot_pending_since" k (obj (field "head" (str head) (field "bots" (obj bots) end))),
  get-del state "bot_pending_since" k,
)

eqb_refl : (n : ℕ) → eqb n n ≡ true
eqb_refl n = ground arith

-- what a plain poll writes under a key of the settle baseline
settle_since-persist_poll :
    (file : StateFile) (r : Report) (seen : List String)
    → get (persist_poll file r seen) "settle_since" ≡ some (settle_json r)
unfolding persist_poll poll_state put_settle_baseline
settle_since-persist_poll file r seen =
    simp (get-carry_rounds, get-carry_receipt, get-write_pending_since, get-put)

-- the stored entry, written out
abbrev entry_at : Option String → String → ℕ → Json
entry_at head at n =
    obj (field "head" (head_json head) (field "at" (str at) (field "total" (int (pos n)) end)))

read_entry :
    (state : Fields) (head at : String) (n : ℕ)
    → get state "settle_since" ≡ some (entry_at (some head) at n)
    → (head == "") ≡ false
    → (strip at == "") ≡ false
    → read_settle_since state (some head) ≡ some (record { at = at; total = pos n })
unfolding read_settle_since is_for_head stamp_of get
read_entry state head at n stored h s = rw (stored, read_settle_since, eq_refl head, h, s)

-- What a plain poll writes of its settle stamp is what the next poll at the same head reads: the
-- stamp and the number of checks, where the head and the stamp are not empty.
pub read_settle_since-persist_poll :
    (file : StateFile) (r : Report) (seen : List String) (head : String)
    → r.head ≡ some head
    → (head == "") ≡ false
    → (strip r.gathered.settle.since == "") ≡ false
    → read_settle_since (persist_poll file r seen) r.head
      ≡ some (record { at = r.gathered.settle.since; total = pos r.gathered.checks.total })
read_settle_since-persist_poll file r seen head h n s =
    let since = r.gathered.settle.since in
    let total = r.gathered.checks.total in
    ap (read_settle_since (persist_poll file r seen)) h
    ∙ read_entry (persist_poll file r seen) head since total
        (settle_since-persist_poll file r seen ∙ ap (λ o. some (entry_at o since total)) h) n s

age_of_stamp :
    (clk : Clock) (t1 t2 : ℕ)
    → clk.year_2000 ≤ t1
    → t1 ≤ t2
    → (clk.iso_z t1 == "") ≡ false
    → age_minutes clk (some (clk.iso_z t1)) t2 ≡ some (t2 - t1)
unfolding age_minutes
age_of_stamp clk t1 t2 y le e =
    let (year, late, parsed) = clk.parse-iso_z t1 y in rw (e, parsed) (ground arith)

settled_at :
    (clk : Clock) (cfg : Config) (t1 t2 total : ℕ) (head : Option String) (prior_max : ℕ)
    (prior_head : Option Json)
    → head_changed prior_head head ≡ false
    → clk.year_2000 ≤ t1
    → t1 ≤ t2
    → (clk.iso_z t1 == "") ≡ false
    → (settle_view clk cfg t2 head total prior_head prior_max
        (some (record { at = clk.iso_z t1; total = pos total }))).settled
      ≡ leb cfg.settle_grace (t2 - t1)
unfolding settle_view carried_stamp rollup_moved size_differs
settled_at clk cfg t1 t2 total head prior_max prior_head c y le e =
    rw (c, eqb_refl total, e, age_of_stamp clk t1 t2 y le e)

-- The false-settle guard across two plain polls: after a poll whose stamp is of `t1`, a poll at
-- `t2` of the same head and the same number of checks has settled exactly when the grace window has
-- passed since `t1`. The head and the printed stamp are not blank, and the clock is past 2000.
pub settled_after_grace :
    (clk : Clock) (cfg : Config) (file : StateFile) (r : Report) (seen : List String)
    (head : String) (prior_max : ℕ) (prior_head : Option Json) (t1 t2 : ℕ)
    → r.head ≡ some head
    → (head == "") ≡ false
    → r.gathered.settle.since ≡ clk.iso_z t1
    → (strip (clk.iso_z t1) == "") ≡ false
    → (clk.iso_z t1 == "") ≡ false
    → head_changed prior_head r.head ≡ false
    → clk.year_2000 ≤ t1
    → t1 ≤ t2
    → (settle_view clk cfg t2 r.head r.gathered.checks.total prior_head prior_max
        (read_settle_since (persist_poll file r seen) r.head)).settled
      ≡ leb cfg.settle_grace (t2 - t1)
settled_after_grace clk cfg file r seen head prior_max prior_head t1 t2 h n since s e c y le =
    let total = r.gathered.checks.total in
    let settled : Option Settled → Bool =
      λ p. (settle_view clk cfg t2 r.head total prior_head prior_max p).settled in
    let read =
      read_settle_since-persist_poll file r seen head h n (ap (λ x. strip x == "") since ∙ s) in
    ap settled (read ∙ ap (λ x. some (record { at = x; total = pos total })) since)
    ∙ settled_at clk cfg t1 t2 total r.head prior_max prior_head c y le e
