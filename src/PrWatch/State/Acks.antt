-- ===== src/PrWatch/State/Acks.antt =====
-- What `mark_seen` acknowledges.
use agentic_dev_kit.Base.{
  String, ◌≡◌, refl, ap, ◌∙◌, ◌||◌, none, some, List, [], ◌++◌, elem, elem-append, elem-sorted_set,
  sorted_set, sorted,
}
use agentic_dev_kit.Base.Json.{
  arr, Items, Fields, get, del, get-put, get-del, texts, text_items, texts-text_items,
}
use agentic_dev_kit.PrWatch.State.{seen_of, put_seen, texts_of, mark_seen}

pub seen_of-put_seen :
    (state : Fields) (seen : List String) → seen_of (put_seen state seen) ≡ sorted_set seen
unfolding seen_of put_seen texts_of
seen_of-put_seen state seen = simp (get-put, texts-text_items)

mark_seen-found :
    (state : Fields) (xs : Items)
    → get state "pending_seen" ≡ some (arr xs)
    → mark_seen state
      ≡ (del (put_seen state (seen_of state ++ texts xs)) "pending_seen", sorted (texts xs))
unfolding mark_seen
mark_seen-found state xs h = rw (h, mark_seen) refl

seen_of-del : (state : Fields) → seen_of (del state "pending_seen") ≡ seen_of state
unfolding seen_of
seen_of-del state = simp get-del

-- `mark_seen` adds just the texts that the last poll left to acknowledge.
pub elem-mark_seen :
    (state : Fields) (ps : List String) (k : String)
    → get state "pending_seen" ≡ some (arr (text_items ps))
    → elem k (seen_of (mark_seen state).0) ≡ (elem k (seen_of state) || elem k ps)
elem-mark_seen state ps k h =
    ap (λ m. elem k (seen_of m.0)) (mark_seen-found state (text_items ps) h)
    ∙ simp (seen_of-del, seen_of-put_seen, elem-sorted_set, elem-append, texts-text_items)

no_pending : (state : Fields) → get state "pending_seen" ≡ none → mark_seen state ≡ (state, [])
unfolding mark_seen
no_pending state h = rw (h, mark_seen) refl

-- Acknowledging twice is acknowledging once: the second `mark_seen` finds nothing to acknowledge
-- and leaves the state as it is, where the first found a list.
pub mark_seen-mark_seen :
    (state : Fields) (xs : Items)
    → get state "pending_seen" ≡ some (arr xs)
    → mark_seen (mark_seen state).0 ≡ ((mark_seen state).0, [])
mark_seen-mark_seen state xs h =
    no_pending (mark_seen state).0
      (ap (λ m. get m.0 "pending_seen") (mark_seen-found state xs h) ∙ simp get-del)
