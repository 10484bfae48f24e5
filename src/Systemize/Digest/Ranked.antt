-- ===== src/Systemize/Digest/Ranked.antt =====
-- The ranking of the digest's candidates, and what the cap keeps of it.
use mathlib.Core.List.{Perm}
use mathlib.Core.List.Perm
use agentic_dev_kit.Base.{
  ℕ, zero, suc, ◌≤◌, ◌≡◌, refl, ap, inl, inr, Bool, true, false, not, List, [], ◌∷◌, ◌++◌, map,
  is_nil, length, leb, arith, Bool-cases,
}
use agentic_dev_kit.Systemize.Findings.{rank}
use agentic_dev_kit.Systemize.Digest.{
  Candidate, PullRequest, candidates_of, lex, ranks_before, insert_ranked, sort_ranked, take_first,
  drop_first, Settings, build,
}

lex_trans :
    (x y z : ℕ) (r s t : Bool)
    → (r ≡ true → s ≡ true → t ≡ true)
    → lex y x r ≡ true
    → lex z y s ≡ true
    → lex z x t ≡ true
unfolding lex
lex_trans x y z r s t h p q = ground (arith, h)

lex_total : (x y : ℕ) (r s : Bool) → (r ≡ false → s ≡ true) → lex x y r ≡ false → lex y x s ≡ true
unfolding lex
lex_total x y r s h p = ground (arith, h)

leb_trans : (a b c : ℕ) → leb a b ≡ true → leb b c ≡ true → leb a c ≡ true
leb_trans a b c h k = ground arith

leb_total : (a b : ℕ) → leb a b ≡ false → leb b a ≡ true
leb_total a b h = ground arith

ranks_before_trans :
    (a b c : Candidate)
    → ranks_before a b ≡ true
    → ranks_before b c ≡ true
    → ranks_before a c ≡ true
unfolding ranks_before
ranks_before_trans a b c =
    lex_trans (rank a.max_severity) (rank b.max_severity) (rank c.max_severity) _ _ _ (
      lex_trans a.unaddressed_count b.unaddressed_count c.unaddressed_count _ _ _ (
        lex_trans a.finding_count b.finding_count c.finding_count _ _ _
          (leb_trans a.number b.number c.number)))

ranks_before_total : (a b : Candidate) → ranks_before a b ≡ false → ranks_before b a ≡ true
unfolding ranks_before
ranks_before_total a b = lex_total (rank b.max_severity) (rank a.max_severity) _ _ (
    lex_total b.unaddressed_count a.unaddressed_count _ _
      (lex_total b.finding_count a.finding_count _ _ (leb_total a.number b.number)))

-- every one of the list ranks behind
abbrev AllBehind : Candidate → List Candidate → Type 0
AllBehind c [] = Unit {0}
AllBehind c (d ∷ ds) = (ranks_before c d ≡ true) × AllBehind c ds

abbrev IsRanked : List Candidate → Type 0
IsRanked [] = Unit {0}
IsRanked (c ∷ cs) = AllBehind c cs × IsRanked cs

AllBehind-before :
    (c d : Candidate) (ds : List Candidate)
    → ranks_before c d ≡ true
    → AllBehind d ds
    → AllBehind c ds
AllBehind-before c d [] h a = tt
AllBehind-before c d (e ∷ es) h (b, a) = (ranks_before_trans c d e h b, AllBehind-before c d es h a)

AllBehind-insert_ranked :
    (c d : Candidate) (ds : List Candidate)
    → ranks_before d c ≡ true
    → AllBehind d ds
    → AllBehind d (insert_ranked c ds)
unfolding insert_ranked
AllBehind-insert_ranked c d [] h a = (h, tt)
AllBehind-insert_ranked c d (e ∷ es) h (b, a) = elim (Bool-cases (ranks_before c e)) [
  | inl y ↦ rw y (h, (b, a))
  | inr n ↦ rw n (b, AllBehind-insert_ranked c d es h a)
]

insert_ranked-IsRanked :
    (c : Candidate) (ds : List Candidate) → IsRanked ds → IsRanked (insert_ranked c ds)
unfolding insert_ranked
insert_ranked-IsRanked c [] r = (tt, tt)
insert_ranked-IsRanked c (d ∷ ds) (a, r) = elim (Bool-cases (ranks_before c d)) [
  | inl y ↦ rw y ((y, AllBehind-before c d ds y a), (a, r))
  | inr n ↦
      rw n
        (AllBehind-insert_ranked c d ds (ranks_before_total c d n) a, insert_ranked-IsRanked c ds r)
]

sort_ranked-IsRanked : (cs : List Candidate) → IsRanked (sort_ranked cs)
unfolding sort_ranked
sort_ranked-IsRanked [] = tt
sort_ranked-IsRanked (c ∷ cs) = insert_ranked-IsRanked c (sort_ranked cs) (sort_ranked-IsRanked cs)

insert_ranked-perm : (c : Candidate) (ds : List Candidate) → Perm (insert_ranked c ds) (c ∷ ds)
unfolding insert_ranked
insert_ranked-perm c [] = Perm.rfl
insert_ranked-perm c (d ∷ ds) = elim (Bool-cases (ranks_before c d)) [
  | inl y ↦ rw y Perm.rfl
  | inr n ↦ rw n (Perm.trans (Perm.cons d (insert_ranked-perm c ds)) (Perm.swap c d ds))
]

sort_ranked-perm : (cs : List Candidate) → Perm (sort_ranked cs) cs
unfolding sort_ranked
sort_ranked-perm [] = Perm.rfl
sort_ranked-perm (c ∷ cs) =
    Perm.trans (insert_ranked-perm c (sort_ranked cs)) (Perm.cons c (sort_ranked-perm cs))

-- the more severe one, then the one with more unaddressed findings, then the one with more findings,
-- then the one of the lower number
abbrev pub Precedes : Candidate → Candidate → Type 0
Precedes a b =
    (rank b.max_severity ≤ rank a.max_severity)
    × (rank b.max_severity ≡ rank a.max_severity
        → (b.unaddressed_count ≤ a.unaddressed_count)
          × (b.unaddressed_count ≡ a.unaddressed_count
              → (b.finding_count ≤ a.finding_count)
                × (b.finding_count ≡ a.finding_count → a.number ≤ b.number)))

abbrev pub AllAfter : Candidate → List Candidate → Type 0
AllAfter c [] = Unit {0}
AllAfter c (d ∷ ds) = Precedes c d × AllAfter c ds

abbrev pub IsOrdered : List Candidate → Type 0
IsOrdered [] = Unit {0}
IsOrdered (c ∷ cs) = AllAfter c cs × IsOrdered cs

lex_le : (x y : ℕ) (r : Bool) → lex x y r ≡ true → (x ≤ y) × (x ≡ y → r ≡ true)
unfolding lex
lex_le x y r h = (ground arith, λ e. ground arith)

leb_le : (a b : ℕ) → leb a b ≡ true → a ≤ b
leb_le a b h = ground arith

Precedes-ranks_before : (a b : Candidate) → ranks_before a b ≡ true → Precedes a b
unfolding ranks_before
Precedes-ranks_before a b h =
    let (s, next) = lex_le (rank b.max_severity) (rank a.max_severity) _ h in
    (
      s,
      λ e.
          let (u, last) = lex_le b.unaddressed_count a.unaddressed_count _ (next e) in
          (
            u,
            λ e'.
                let (f, key) = lex_le b.finding_count a.finding_count _ (last e') in
                (f, λ e''. leb_le a.number b.number (key e'')),
          ),
    )

AllAfter-AllBehind : (c : Candidate) (ds : List Candidate) → AllBehind c ds → AllAfter c ds
AllAfter-AllBehind c [] h = tt
AllAfter-AllBehind c (d ∷ ds) (h, hs) = (Precedes-ranks_before c d h, AllAfter-AllBehind c ds hs)

IsOrdered-IsRanked : (cs : List Candidate) → IsRanked cs → IsOrdered cs
IsOrdered-IsRanked [] h = tt
IsOrdered-IsRanked (c ∷ cs) (h, hs) = (AllAfter-AllBehind c cs h, IsOrdered-IsRanked cs hs)

take-drop {ℓ} : {A : Type ℓ} (n : ℕ) (xs : List A) → take_first n xs ++ drop_first n xs ≡ xs
unfolding take_first drop_first
take-drop zero xs = refl
take-drop (suc n) [] = refl
take-drop (suc n) (x ∷ xs) = ap (λ ys. x ∷ ys) (take-drop n xs)

-- the cap keeps no more than it says, and so many where something is left out
take_first_full {ℓ} :
    {A : Type ℓ} (n : ℕ) (xs : List A)
    → (length (take_first n xs) ≤ n)
      × (is_nil (drop_first n xs) ≡ false → length (take_first n xs) ≡ n)
unfolding take_first drop_first
take_first_full zero xs = (omega arith, λ h. refl)
take_first_full (suc n) [] = (omega arith, λ h. cc)
take_first_full (suc n) (x ∷ xs) =
    let (le, full) = take_first_full n xs in (omega arith, λ h. ap suc (full h))

is_nil-map {ℓ κ} :
    {A : Type ℓ} {B : Type κ} (f : A → B) (xs : List A) → is_nil (map f xs) ≡ is_nil xs
is_nil-map f [] = refl
is_nil-map f (x ∷ xs) = refl

-- The digest keeps the first candidates of the ranking and drops none silently: its pull requests
-- and the omitted ones are together the candidates, the more severe ones first, then those with more
-- unaddressed findings, then those with more findings, then the lower numbers. The number of each
-- omitted one is recorded, the digest says that the cap applied exactly if some are omitted, no more
-- are kept than the cap allows, and just that many where some are omitted.
pub build-ranks :
    (settings : Settings) (prs : List PullRequest)
    → (rest : List Candidate) × ((build settings prs).omitted_prs ≡ map (λ c. c.number) rest)
      × Perm ((build settings prs).prs ++ rest) (candidates_of prs)
      × IsOrdered ((build settings prs).prs ++ rest)
      × (length (build settings prs).prs ≤ settings.max_findings_prs_per_run)
      × ((build settings prs).cap_applied ≡ not (is_nil rest))
      × (is_nil rest ≡ false → length (build settings prs).prs ≡ settings.max_findings_prs_per_run)
unfolding build
build-ranks settings prs =
    let n = settings.max_findings_prs_per_run in
    let ranked = sort_ranked (candidates_of prs) in
    let whole = take-drop n ranked in
    let (le, full) = take_first_full n ranked in
    (
      drop_first n ranked,
      refl,
      rw whole (sort_ranked-perm (candidates_of prs)),
      rw whole (IsOrdered-IsRanked ranked (sort_ranked-IsRanked (candidates_of prs))),
      le,
      ap not (is_nil-map (λ c. c.number) (drop_first n ranked)),
      full,
    )
