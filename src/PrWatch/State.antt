-- ===== src/PrWatch/State.antt =====
-- The per-PR watch state of scripts/pr_watch.py, a JSON object on disk: `read_pending_since`,
-- `read_settle_since`, `write_pending_since`, `load_state`, `load_seen`, `save_seen`, `mark_seen`,
-- `_recorded_review_rounds` and `_note_review_round`. A file is what `load_state` can tell of it.
pub mod Acks
pub mod Rounds
use agentic_dev_kit.Base.{
  String, Bool, true, false, ◌&&◌, ◌||◌, not, Option, none, some, List, [], ◌∷◌, ◌++◌,
  if◌then◌else◌, is_some, elem, strip, sorted, sorted_set, ◌==◌,
}
use agentic_dev_kit.Base.Json.{
  ℤ, Json, null, bool, int, float, str, arr, obj, Items, nil, cons, Fields, end, field, get, put,
  del, as_text, as_obj, as_arr, as_int, texts, text_items,
}

-- the state file: missing, unreadable or no JSON, or a JSON value
pub data StateFile : Type 0 where
  missing corrupt : StateFile
  holds : Json → StateFile

-- `load_state(pr)`
unfoldable pub load_state : StateFile → Fields
load_state (holds (obj fs)) = fs
load_state _ = end

-- whether a stored value is the text `head`, for a head that is there and not empty
unfoldable pub is_for_head : Option Json → Option String → Bool
is_for_head stored none = false
is_for_head stored (some head) =
    not (head == "") && elim (as_text stored) [ none ↦ false | some s ↦ s == head ]

unfoldable pub bots_of : Fields → Fields
bots_of stored = elim (as_obj (get stored "bots")) [ none ↦ end | some bots ↦ bots ]

-- `read_pending_since(state, head)`
unfoldable pub read_pending_since : Fields → Option String → Fields
unfolding is_for_head bots_of
read_pending_since state head = elim (as_obj (get state "bot_pending_since")) [
  | none ↦ end
  | some stored ↦ if is_for_head (get stored "head") head then bots_of stored else end
]

-- a settle stamp and the check count that it was taken at
pub record Settled : Type 0 where
  pub at : String
  pub total : ℤ

unfoldable pub stamp_of : Option String → Option ℤ → Option Settled
stamp_of (some at) (some total) =
    if strip at == "" then none else some (record { at = at; total = total })
stamp_of _ _ = none

-- `read_settle_since(state, head)`; `none` for `(None, None)`
unfoldable pub read_settle_since : Fields → Option String → Option Settled
unfolding is_for_head stamp_of
read_settle_since state head = elim (as_obj (get state "settle_since")) [
  | none ↦ none
  | some stored ↦
      if is_for_head (get stored "head") head
      then stamp_of (as_text (get stored "at")) (as_int (get stored "total"))
      else none
]

abbrev is_end : Fields → Bool
is_end end = true
is_end (field k v fs) = false

-- `write_pending_since(state, head, bots)`
unfoldable pub write_pending_since : Fields → Option String → Fields → Fields
write_pending_since state none bots = del state "bot_pending_since"
write_pending_since state (some head) bots =
    if not (is_end bots) && not (head == "")
    then put state "bot_pending_since" (obj (field "head" (str head) (field "bots" (obj bots) end)))
    else del state "bot_pending_since"

unfoldable pub texts_of : Option Json → List String
texts_of stored = elim (as_arr stored) [ none ↦ [] | some xs ↦ texts xs ]

-- `set(load_state(pr).get("seen", []))`, for a `seen` that is a list of texts
unfoldable pub seen_of : Fields → List String
unfolding texts_of
seen_of state = texts_of (get state "seen")

-- `state["seen"] = sorted(seen)`
unfoldable pub put_seen : Fields → List String → Fields
put_seen state seen = put state "seen" (arr (text_items (sorted_set seen)))

-- `save_seen(pr, seen)`
unfoldable pub save_seen : StateFile → List String → StateFile
save_seen file seen = holds (obj (put_seen (load_state file) seen))

-- The state after `mark_seen(pr)` and the keys it reports; without a pending list nothing changes.
unfoldable pub mark_seen : Fields → Fields × List String
unfolding seen_of put_seen
mark_seen state = elim (as_arr (get state "pending_seen")) [
  | none ↦ (state, [])
  | some pending ↦
      (del (put_seen state (seen_of state ++ texts pending)) "pending_seen", sorted (texts pending))
]

-- `_recorded_review_rounds(value)`: an entry is usable if it is an object with a head
unfoldable pub round_head : Json → Option String
round_head (obj entry) = elim (as_text (get entry "head")) [
  | none ↦ none
  | some head ↦ if strip head == "" then none else some head
]
round_head _ = none

unfoldable pub usable_rounds : Items → Items
usable_rounds nil = nil
usable_rounds (cons entry rest) =
    let kept = usable_rounds rest in if is_some (round_head entry) then cons entry kept else kept

unfoldable pub recorded_review_rounds : Option Json → Items
unfolding usable_rounds round_head
recorded_review_rounds value = elim (as_arr value) [ none ↦ nil | some xs ↦ usable_rounds xs ]

unfoldable pub has_round : String → Items → Bool
unfolding round_head
has_round head nil = false
has_round head (cons entry rest) =
    elim (round_head entry) [ none ↦ false | some h ↦ h == head ] || has_round head rest

unfoldable pub append_item : Items → Json → Items
append_item nil x = cons x nil
append_item (cons y ys) x = cons y (append_item ys x)

abbrev is_empty : List String → Bool
is_empty [] = true
is_empty (x ∷ xs) = false

-- the entry of a round; `lenses` only where some were named
unfoldable pub round_entry : String → String → List String → String → Json
round_entry head source lenses recorded_at = obj (
    field "head" (str head) (
      field "source" (str source) (
        field "recorded_at" (str recorded_at)
          (if is_empty lenses then end else field "lenses" (arr (text_items lenses)) end))))

-- `_note_review_round(state, head, ...)`: the new state, and whether the head was new
unfoldable pub note_review_round : Fields → String → String → List String → String → Fields × Bool
unfolding recorded_review_rounds has_round append_item round_entry
note_review_round state head source lenses recorded_at =
    let rounds = recorded_review_rounds (get state "review_rounds") in
    if has_round head rounds then (put state "review_rounds" (arr rounds), false) else (
      put state "review_rounds"
          (arr (append_item rounds (round_entry head source lenses recorded_at))),
      true,
    )
