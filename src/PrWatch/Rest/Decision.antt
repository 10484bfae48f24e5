-- ===== src/PrWatch/Rest/Decision.antt =====
-- The review decision told from each reviewer's last verdict.
use agentic_dev_kit.Base.{
  String, ◌≡◌, refl, ap, sym, ◌∙◌, ◌↔◌, inl, inr, Bool, true, false, ◌&&◌, ◌||◌, Option, none, some,
  List, [], ◌∷◌, if◌then◌else◌, ◌==◌, eq_iff, eq_refl, arith, Bool-cases,
}
use mathlib.Core.Bool.{true≢false}
use agentic_dev_kit.Base.Json.{Json, str, Fields, end, field, get, put, as_text, get-put}
use agentic_dev_kit.PrWatch.Rest.{
  verdict_of, reviewer, is_verdict, latest_verdicts, has_value, rest_review_decision,
}

-- the last verdict that an author gave, comments and pending reviews aside
unfoldable pub last_verdict : String → List Fields → Option String
last_verdict a [] = none
last_verdict a (r ∷ rs) =
    let later = last_verdict a rs in
    elim later [
      | some v ↦ some v
      | none ↦ if is_verdict (verdict_of r) && reviewer r == a then some (verdict_of r) else none
    ]

-- each key stands once
keys_once : Fields → Bool
keys_once end = true
keys_once (field k v fs) = elim (get fs k) [ none ↦ keys_once fs | some w ↦ false ]

-- what the dictionary holds for an author
read_value : Fields → String → Option String
read_value fs a = as_text (get fs a)

or_else : Option String → Option String → Option String
or_else none o = o
or_else (some v) o = some v

latest_last :
    (latest : Fields) (rs : List Fields) (a : String)
    → as_text (get (latest_verdicts latest rs) a)
      ≡ or_else (last_verdict a rs) (as_text (get latest a))
unfolding latest_verdicts last_verdict or_else
latest_last latest [] a = refl
latest_last latest (r ∷ rs) a =
    let next =
      if is_verdict (verdict_of r) then put latest (reviewer r) (str (verdict_of r)) else latest in
    latest_last next rs a ∙ go (last_verdict a rs)
  where
    go :
        (o : Option String)
        → or_else o (
            as_text (
              get
                (if is_verdict (verdict_of r)
                  then put latest (reviewer r) (str (verdict_of r))
                  else latest)
                a))
          ≡ or_else
              (elim o [
                | some v ↦ some v
                | none ↦
                    if is_verdict (verdict_of r) && reviewer r == a
                    then some (verdict_of r)
                    else none
              ])
              (as_text (get latest a))
    go (some v) = refl
    go none = ground (arith, get-put latest (reviewer r) a (str (verdict_of r)))

keys_once-put :
    (fs : Fields) (k : String) (v : Json) → keys_once fs ≡ true → keys_once (put fs k v) ≡ true
unfolding keys_once put get
keys_once-put end k v h = refl
keys_once-put (field j w fs) k v h =
    ground (arith, eq_iff j k, eq_iff k j, get-put fs k j v, keys_once-put fs k v)

keys_once-latest :
    (latest : Fields) (rs : List Fields)
    → keys_once latest ≡ true
    → keys_once (latest_verdicts latest rs) ≡ true
unfolding latest_verdicts
keys_once-latest latest [] h = h
keys_once-latest latest (r ∷ rs) h =
    keys_once-latest
      (if is_verdict (verdict_of r) then put latest (reviewer r) (str (verdict_of r)) else latest)
      rs (ground (arith, keys_once-put latest (reviewer r) (str (verdict_of r)) h))

is_value : Json → String → Bool
is_value j v = elim (as_text (some j)) [ none ↦ false | some s ↦ s == v ]

is_value-of : (j : Json) (v : String) → as_text (some j) ≡ some v → is_value j v ≡ true
unfolding is_value
is_value-of j v h = ap (λ o. elim o [ none ↦ false | some s ↦ s == v ]) h ∙ eq_refl v

value_of_is : (j : Json) (v : String) → is_value j v ≡ true → as_text (some j) ≡ some v
unfolding is_value
value_of_is (str s) v h = ap some ((eq_iff s v).0 h)
value_of_is _ v h = cc h

has_value-of : (fs : Fields) (a v : String) → as_text (get fs a) ≡ some v → has_value fs v ≡ true
unfolding has_value get is_value
has_value-of end a v h = cc h
has_value-of (field k j fs) a v h = elim (Bool-cases (k == a)) [
  | inl y ↦
      ap (λ b. b || has_value fs v)
        (is_value-of j v (ap (λ b. as_text (if b then some j else get fs a)) (sym y) ∙ h))
  | inr n ↦
      ground (
        arith,
        has_value-of fs a v (ap (λ b. as_text (if b then some j else get fs a)) (sym n) ∙ h),
      )
]

once_inv :
    (o : Option Json) (b : Bool)
    → elim o [ none ↦ b | some w ↦ false ] ≡ true
    → (o ≡ none) × (b ≡ true)
once_inv none b h = (refl, h)
once_inv (some w) b h = cc h

-- a key of the tail is not the head's
behind_head :
    (k a v : String) (j : Json) (fs : Fields)
    → get fs k ≡ none
    → as_text (get fs a) ≡ some v
    → as_text (get (field k j fs) a) ≡ some v
unfolding get
behind_head k a v j fs lost e = elim (Bool-cases (k == a)) [
  | inl y ↦
      let found : none ≡ some v =
        sym (ap as_text lost) ∙ (ap (λ b. as_text (get fs b)) ((eq_iff k a).0 y) ∙ e) in
      cc found
  | inr n ↦ ap (λ b. as_text (if b then some j else get fs a)) n ∙ e
]

-- a value that stands in a dictionary is that of a key
value_key :
    (fs : Fields) (v : String)
    → keys_once fs ≡ true
    → has_value fs v ≡ true
    → (a : String) × (as_text (get fs a) ≡ some v)
unfolding has_value get keys_once is_value
value_key end v o h = cc h
value_key (field k j fs) v o h = elim (Bool-cases (is_value j v)) [
  | inl y ↦ (k, ap (λ b. as_text (if b then some j else get fs k)) (eq_refl k) ∙ value_of_is j v y)
  | inr n ↦
      let (lost, once) = once_inv (get fs k) (keys_once fs) o in
      let (a, e) = value_key fs v once (ap (λ b. b || has_value fs v) (sym n) ∙ h) in
      (a, behind_head k a v j fs lost e)
]

-- what the dictionary of the whole list holds is the last verdict
latest_of :
    (reviews : List Fields) (a : String)
    → as_text (get (latest_verdicts end reviews) a) ≡ last_verdict a reviews
unfolding get or_else
latest_of reviews a = latest_last end reviews a ∙ go (last_verdict a reviews)
  where
    go : (o : Option String) → or_else o none ≡ o
    go none = refl
    go (some v) = refl

value_of :
    (reviews : List Fields) (v : String)
    → has_value (latest_verdicts end reviews) v ≡ true
    → (a : String) × (last_verdict a reviews ≡ some v)
unfolding keys_once
value_of reviews v h =
    let (a, e) = value_key (latest_verdicts end reviews) v (keys_once-latest end reviews refl) h in
    (a, sym (latest_of reviews a) ∙ e)

of_value :
    (reviews : List Fields) (v a : String)
    → last_verdict a reviews ≡ some v
    → has_value (latest_verdicts end reviews) v ≡ true
of_value reviews v a e = has_value-of (latest_verdicts end reviews) a v (latest_of reviews a ∙ e)

abbrev pick : Bool → Bool → Option String
pick changes approves =
    if changes then some "CHANGES_REQUESTED" else if approves then some "APPROVED" else none

-- The decision asks for changes exactly when the last verdict of some author does, whatever came
-- before it; it approves exactly when no author's last verdict asks for changes and some author's
-- approves.
pub rest_review_decision_iff :
    (reviews : List Fields)
    → ((rest_review_decision reviews ≡ some "CHANGES_REQUESTED")
        ↔ ((a : String) × (last_verdict a reviews ≡ some "CHANGES_REQUESTED")))
      × ((rest_review_decision reviews ≡ some "APPROVED") ↔ (
          ((a : String) → ¬ (last_verdict a reviews ≡ some "CHANGES_REQUESTED"))
          × ((a : String) × (last_verdict a reviews ≡ some "APPROVED"))))
unfolding rest_review_decision
rest_review_decision_iff reviews =
    let changes = has_value (latest_verdicts end reviews) "CHANGES_REQUESTED" in
    let approves = has_value (latest_verdicts end reviews) "APPROVED" in
    (
      (
        λ h. value_of reviews "CHANGES_REQUESTED" (decided changes approves h),
        λ p. ap (λ b. pick b approves) (of_value reviews "CHANGES_REQUESTED" p.0 p.1),
      ),
      (
        λ h.
            let (calm, yes_to) = approved changes approves h in
            (
              λ a e. true≢false (sym (of_value reviews "CHANGES_REQUESTED" a e) ∙ calm),
              value_of reviews "APPROVED" yes_to,
            ),
        λ p.
            ap (λ b. pick b approves) (none_asks p.0)
            ∙ ap (λ b. pick false b) (of_value reviews "APPROVED" p.1.0 p.1.1),
      ),
    )
  where
    none_asks :
        ((a : String) → ¬ (last_verdict a reviews ≡ some "CHANGES_REQUESTED"))
        → has_value (latest_verdicts end reviews) "CHANGES_REQUESTED" ≡ false
    none_asks f = elim (Bool-cases (has_value (latest_verdicts end reviews) "CHANGES_REQUESTED")) [
      | inl y ↦ let p = value_of reviews "CHANGES_REQUESTED" y in absurd (f p.0 p.1)
      | inr n ↦ n
    ]

    approves_is : Option String → Bool
    approves_is none = false
    approves_is (some s) = s == "APPROVED"

    decided : (c a : Bool) → pick c a ≡ some "CHANGES_REQUESTED" → c ≡ true
    decided true a h = refl
    decided false true h = absurd (true≢false (ap approves_is h))
    decided false false h = cc h

    approved : (c a : Bool) → pick c a ≡ some "APPROVED" → (c ≡ false) × (a ≡ true)
    approved true a h = absurd (true≢false (sym (ap approves_is h)))
    approved false true h = (refl, refl)
    approved false false h = cc h
