-- ===== src/PrWatch/State/Rounds.antt =====
-- What `_note_review_round` records, and that it records a head once.
use agentic_dev_kit.Base.{
  String, ◌≡◌, refl, ap, ◌∙◌, true, false, ◌||◌, Option, none, some, List, arith, is_some, strip,
  ◌==◌, eq_refl, inl, inr, Bool-cases,
}
use agentic_dev_kit.Base.Json.{Json, arr, Items, nil, cons, Fields, get, put, get-put, as_arr}
use agentic_dev_kit.PrWatch.State.{
  round_head, usable_rounds, append_item, recorded_review_rounds, has_round, round_entry,
  note_review_round,
}

round_head-entry :
    (head source at : String) (lenses : List String)
    → (strip head == "") ≡ false
    → round_head (round_entry head source lenses at) ≡ some head
unfolding round_head round_entry get
round_head-entry head source at lenses h = rw h refl

usable_rounds-usable_rounds : (xs : Items) → usable_rounds (usable_rounds xs) ≡ usable_rounds xs
unfolding usable_rounds
usable_rounds-usable_rounds nil = refl
usable_rounds-usable_rounds (cons x xs) = ground (arith, usable_rounds-usable_rounds xs)

usable_rounds-append :
    (xs : Items) (x : Json)
    → is_some (round_head x) ≡ true
    → usable_rounds (append_item xs x) ≡ append_item (usable_rounds xs) x
unfolding usable_rounds append_item
usable_rounds-append nil x h = rw h refl
usable_rounds-append (cons y ys) x h = ground (arith, usable_rounds-append ys x h)

has_round-append :
    (head : String) (xs : Items) (x : Json)
    → has_round head (append_item xs x) ≡ (has_round head xs || has_round head (cons x nil))
unfolding has_round append_item
has_round-append head nil x = refl
has_round-append head (cons y ys) x = ground (arith, has_round-append head ys x)

pub usable_rounds-recorded :
    (o : Option Json) → usable_rounds (recorded_review_rounds o) ≡ recorded_review_rounds o
unfolding recorded_review_rounds
usable_rounds-recorded o =
    elim (as_arr o)
      as (λ r.
        usable_rounds (elim r [ none ↦ nil | some xs ↦ usable_rounds xs ])
        ≡ (elim r [ none ↦ nil | some xs ↦ usable_rounds xs ])) [
          | none ↦ refl
          | some xs ↦ usable_rounds-usable_rounds xs
        ]

recorded-put :
    (state : Fields) (xs : Items)
    → recorded_review_rounds (get (put state "review_rounds" (arr xs)) "review_rounds")
      ≡ usable_rounds xs
unfolding recorded_review_rounds
recorded-put state xs = simp get-put

unfoldable pub rounds_of : Fields → Items
rounds_of state = recorded_review_rounds (get state "review_rounds")

-- the recorded rounds after a call
noted_known :
    (state : Fields) (head source at : String) (lenses : List String)
    → has_round head (rounds_of state) ≡ true
    → ((note_review_round state head source lenses at).1 ≡ false)
      × (rounds_of (note_review_round state head source lenses at).0 ≡ rounds_of state)
unfolding note_review_round rounds_of
noted_known state head source at lenses k =
    rw (k, note_review_round)
      (
        refl,
        recorded-put state (rounds_of state) ∙ usable_rounds-recorded (get state "review_rounds"),
      )

noted_new :
    (state : Fields) (head source at : String) (lenses : List String)
    → has_round head (rounds_of state) ≡ false
    → note_review_round state head source lenses at ≡ (
      put state "review_rounds"
          (arr (append_item (rounds_of state) (round_entry head source lenses at))),
      true,
    )
unfolding note_review_round rounds_of
noted_new state head source at lenses n = rw (n, note_review_round) refl

has_own : (head : String) (x : Json) → round_head x ≡ some head → has_round head (cons x nil) ≡ true
unfolding has_round
has_own head x e = rw (e, eq_refl head) refl

new_has :
    (head : String) (xs : Items) (x : Json)
    → round_head x ≡ some head
    → usable_rounds xs ≡ xs
    → has_round head (usable_rounds (append_item xs x)) ≡ true
new_has head xs x e u =
    rw (usable_rounds-append xs x (ap is_some e), u, has_round-append, has_own head x e)
      (ground arith)

pub noted_has :
    (state : Fields) (head source at : String) (lenses : List String)
    → (strip head == "") ≡ false
    → has_round head (rounds_of (note_review_round state head source lenses at).0) ≡ true
unfolding note_review_round rounds_of
noted_has state head source at lenses h = elim (Bool-cases (has_round head (rounds_of state))) [
  | inl y ↦ ap (has_round head) (noted_known state head source at lenses y).1 ∙ y
  | inr n ↦
      ap (λ m. has_round head (rounds_of m.0)) (noted_new state head source at lenses n)
      ∙ ap (has_round head)
          (recorded-put state (append_item (rounds_of state) (round_entry head source lenses at)))
      ∙ new_has head (rounds_of state) (round_entry head source lenses at)
          (round_head-entry head source at lenses h)
          (usable_rounds-recorded (get state "review_rounds"))
]

-- A head is counted as a review round once: after a call for a head that is not blank, another call
-- for the same head, whatever else it names, adds no round and says so.
pub note_review_round-twice :
    (state : Fields) (head s1 s2 at1 at2 : String) (l1 l2 : List String)
    → (strip head == "") ≡ false
    → let after = (note_review_round state head s1 l1 at1).0 in
      let again = note_review_round after head s2 l2 at2 in
      (again.1 ≡ false) × (rounds_of again.0 ≡ rounds_of after)
note_review_round-twice state head s1 s2 at1 at2 l1 l2 h =
    noted_known (note_review_round state head s1 l1 at1).0 head s2 at2 l2
      (noted_has state head s1 at1 l1 h)
