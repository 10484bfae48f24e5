-- ===== src/Systemize/Tally/Counts.antt =====
-- What an entry of the tally counts.
use mathlib.Core.Bool.{true≢false}
use mathlib.Core.Path.{subst}
use mathlib.Core.List.{append-nil, append_assoc}
use agentic_dev_kit.Base.{
  ◌≡◌, refl, sym, ap, ◌∙◌, String, true, false, List, [], ◌∷◌, ◌++◌, map, filter, ◌==◌, eq_iff,
  eq_refl, text_le, text_le_refl, Bool-cases, inl, inr, if◌then◌else◌,
}
use agentic_dev_kit.Systemize.Findings.{Finding}
use agentic_dev_kit.Systemize.Tally.{
  tally_key, Group, add_finding, group_findings, insert_group, sort_groups, Flags, entry_of,
  reviewer_tally,
}

abbrev of_key : String → List Group → List Group
of_key k gs = filter (λ g. g.key == k) gs

-- one group of the key, or none where nothing has it
abbrev one_group : String → List Finding → List Group
one_group k [] = []
one_group k (f ∷ fs) = (record { key = k; members = f ∷ fs }) ∷ []

abbrev append_to : Finding → List Group → List Group
append_to f [] = (record { key = tally_key f; members = f ∷ [] }) ∷ []
append_to f (g ∷ gs) = (record g { members = g.members ++ f ∷ [] }) ∷ gs

other_key : (a b k : String) → (a == b) ≡ true → (b == k) ≡ false → (a == k) ≡ false
other_key a b k h n = rw ((eq_iff a b).0 h) n

add_finding-other :
    (f : Finding) (gs : List Group) (k : String)
    → (tally_key f == k) ≡ false
    → of_key k (add_finding f gs) ≡ of_key k gs
unfolding add_finding filter
add_finding-other f [] k n = rw n refl
add_finding-other f (g ∷ gs) k n = elim (Bool-cases (g.key == tally_key f)) [
  | inl y ↦ rw y (rw (other_key g.key (tally_key f) k y n) refl)
  | inr m ↦ rw m (rw (add_finding-other f gs k n) refl)
]

add_finding-own :
    (f : Finding) (gs : List Group)
    → of_key (tally_key f) (add_finding f gs) ≡ append_to f (of_key (tally_key f) gs)
unfolding add_finding filter
add_finding-own f [] = rw (eq_refl (tally_key f)) refl
add_finding-own f (g ∷ gs) = elim (Bool-cases (g.key == tally_key f)) [
  | inl y ↦ rw y (rw y refl)
  | inr m ↦ rw m (rw m (add_finding-own f gs))
]

append_to-one_group :
    (f : Finding) (xs : List Finding)
    → append_to f (one_group (tally_key f) xs) ≡ one_group (tally_key f) (xs ++ f ∷ [])
append_to-one_group f [] = refl
append_to-one_group f (x ∷ xs) = refl

add_finding-grows :
    (f : Finding) (gs : List Group) (k : String) (xs : List Finding)
    → (tally_key f == k) ≡ true
    → of_key k gs ≡ one_group k xs
    → of_key k (add_finding f gs) ≡ one_group k (xs ++ f ∷ [])
add_finding-grows f gs k xs e =
    subst
      (λ k. of_key k gs ≡ one_group k xs → of_key k (add_finding f gs) ≡ one_group k (xs ++ f ∷ []))
      ((eq_iff (tally_key f) k).0 e)
      (λ h. add_finding-own f gs ∙ ap (append_to f) h ∙ append_to-one_group f xs)

group_findings-key :
    (fs : List Finding) (gs : List Group) (k : String) (xs : List Finding)
    → of_key k gs ≡ one_group k xs
    → of_key k (group_findings fs gs) ≡ one_group k (xs ++ filter (λ f. tally_key f == k) fs)
unfolding group_findings filter
group_findings-key [] gs k xs h = h ∙ ap (one_group k) (sym (append-nil xs))
group_findings-key (f ∷ fs) gs k xs h = elim (Bool-cases (tally_key f == k)) [
  | inl y ↦ rw y (
      group_findings-key fs (add_finding f gs) k (xs ++ f ∷ []) (add_finding-grows f gs k xs y h)
      ∙ ap (one_group k) (append_assoc xs (f ∷ []) (filter (λ f. tally_key f == k) fs)))
  | inr n ↦ rw n (group_findings-key fs (add_finding f gs) k xs (add_finding-other f gs k n ∙ h))
]

-- the sort stops at a group of the same key
sorts_before_own : (a b k : String) → (a == k) ≡ true → (b == k) ≡ true → text_le a b ≡ true
sorts_before_own a b k h l = rw ((eq_iff a k).0 h) (rw ((eq_iff b k).0 l) (text_le_refl k))

insert_group-of_key :
    (g : Group) (hs : List Group) (k : String) → of_key k (insert_group g hs) ≡ of_key k (g ∷ hs)
unfolding insert_group filter
insert_group-of_key g [] k = refl
insert_group-of_key g (h ∷ hs) k = elim (Bool-cases (text_le g.key h.key)) [
  | inl y ↦ rw y refl
  | inr n ↦ rw n (
      rw (insert_group-of_key g hs k) (elim (Bool-cases (h.key == k)) [
        | inr m ↦ rw m refl
        | inl a ↦ elim (Bool-cases (g.key == k)) [
          | inr b ↦ rw a (rw b refl)
          | inl b ↦ absurd (true≢false (sym (sorts_before_own g.key h.key k b a) ∙ n))
        ]
      ]))
]

sort_groups-of_key : (gs : List Group) (k : String) → of_key k (sort_groups gs) ≡ of_key k gs
unfolding sort_groups filter
sort_groups-of_key [] k = refl
sort_groups-of_key (g ∷ gs) k =
    insert_group-of_key g (sort_groups gs) k
    ∙ ap (λ rest. if g.key == k then g ∷ rest else rest) (sort_groups-of_key gs k)

entries_of_key :
    (flags : Flags) (gs : List Group) (k : String)
    → filter (λ e. e.source == k) (map (entry_of flags) gs) ≡ map (entry_of flags) (of_key k gs)
unfolding filter entry_of
entries_of_key flags [] k = refl
entries_of_key flags (g ∷ gs) k = elim (Bool-cases (g.key == k)) [
  | inl y ↦ rw y (rw (entries_of_key flags gs k) refl)
  | inr n ↦ rw n (entries_of_key flags gs k)
]

-- A reviewer has exactly one entry in the tally where a finding of the window is theirs, and none
-- otherwise; the entry is that of just their findings, in the order of the window.
pub reviewer_tally-filter :
    (flags : Flags) (findings : List Finding) (k : String)
    → filter (λ e. e.source == k) (reviewer_tally flags findings)
      ≡ map (entry_of flags) (one_group k (filter (λ f. tally_key f == k) findings))
unfolding reviewer_tally filter
reviewer_tally-filter flags findings k =
    entries_of_key flags (sort_groups (group_findings findings [])) k
    ∙ ap (map (entry_of flags)) (
        sort_groups-of_key (group_findings findings []) k
        ∙ group_findings-key findings [] k [] refl)
