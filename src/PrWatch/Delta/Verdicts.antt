-- ===== src/PrWatch/Delta/Verdicts.antt =====
-- What a disposition that `check_delta_verdicts` accepts carries.
use Prim.Native.Char.{Char, code}
use Prim.Native.String
use Prim.Native.String.append
use agentic_dev_kit.Base.{
  String, ◌≡◌, refl, sym, ap, ◌∙◌, ◌↔◌, inl, inr, Bool, true, false, ◌&&◌, ◌||◌, not, Option, none,
  some, List, [], ◌∷◌, ◌++◌, is_nil, is_some, if◌then◌else◌, strip, lower, arith, ◌==◌, all, any,
  elem, all_chars, eqb, eq_iff, eq_refl, Bool-cases,
}
use agentic_dev_kit.PrWatch.Repo.{Repo, countable}
use agentic_dev_kit.PrWatch.Delta.{
  DeltaProblem, no_block, draw_names, delta_verdicts, Walk, split_lines, split_word, stands_alone,
  delta_verdict, values_of, problems, walk_disposition, check_delta_verdicts, draw_problem,
  lens_problems, verdict_error,
}
use agentic_dev_kit.PrWatch.Delta.Blocks.{
  opens, block_values, block_behind, just_opened, walk_lines-values, walk_lines-seen,
}

-- a text that goes on with the word before it, or with `|` or `-`
abbrev pub goes_on : (Char → Bool) → String → Bool
goes_on is_word String.[] = false
goes_on is_word (String.◌∷◌ c s) = is_word c || (eqb (code c) 124 || eqb (code c) 45)

-- behind blanks, a value starts with one of the verdict words, alone
pub record IsVerdict (is_word : Char → Bool) (value : String) : Type 0 where
  pub word : String
  pub rest : String
  pub splits : strip value ≡ String.◌++◌ word rest
  pub whole : all_chars is_word word ≡ true
  pub ends : goes_on is_word rest ≡ false
  pub known : elem (lower word) delta_verdicts ≡ true

-- the lens has a block, and in its blocks one line for each draw, with a verdict
pub record IsAnswered (is_word : Char → Bool) (repo : Repo) (lenses lines : List String)
    (lens : String) : Type 0 where
  pub opened : any (opens repo lenses lens) lines ≡ true
  pub answers :
      (draw : String)
      → elem draw draw_names ≡ true
      → (value : String) × (block_values repo lenses lens draw [] lines ≡ value ∷ [])
        × IsVerdict is_word value

module _ (is_word : Char → Bool) where
  starts_word : String → Bool
  starts_word String.[] = false
  starts_word (String.◌∷◌ c s) = is_word c

  split_word-split :
      (s : String)
      → (s ≡ String.◌++◌ (split_word is_word s).0 (split_word is_word s).1)
        × ((all_chars is_word (split_word is_word s).0 ≡ true)
            × (starts_word (split_word is_word s).1 ≡ false))
  unfolding split_word all_chars starts_word
  split_word-split String.[] = (sym (append.nil ""), (refl, refl))
  split_word-split (String.◌∷◌ c s) = elim (Bool-cases (is_word c)) [
    | inl y ↦
        let (whole, (word, rest)) = split_word-split s in
        rw y (
          ap (String.◌∷◌ c) whole
              ∙ sym (append.cons c (split_word is_word s).0 (split_word is_word s).1),
          (rw y word, rest),
        )
    | inr n ↦ rw n (sym (append.nil (String.◌∷◌ c s)), (refl, n))
  ]

  split_word-join :
      (word rest : String)
      → all_chars is_word word ≡ true
      → goes_on is_word rest ≡ false
      → split_word is_word (String.◌++◌ word rest) ≡ (word, rest)
  unfolding split_word all_chars
  split_word-join String.[] String.[] w e = rw (append.nil "") refl
  split_word-join String.[] (String.◌∷◌ c s) w e =
      let off : is_word c ≡ false = ground arith in rw (append.nil (String.◌∷◌ c s)) (rw off refl)
  split_word-join (String.◌∷◌ c s) rest w e =
      let on : is_word c ≡ true = ground arith in
      let more : all_chars is_word s ≡ true = ground arith in
      let rec = split_word-join s rest more e in
      rw (append.cons c s rest) (rw on (ap (λ p. (String.◌∷◌ c p.0, p.1)) rec))

  ends_word :
      (s : String) → starts_word s ≡ false → goes_on is_word s ≡ not (stands_alone is_word s)
  unfolding starts_word stands_alone
  ends_word String.[] h = refl
  ends_word (String.◌∷◌ c s) h = ground arith

  goes_on-starts : (s : String) → goes_on is_word s ≡ false → stands_alone is_word s ≡ true
  unfolding stands_alone
  goes_on-starts String.[] h = refl
  goes_on-starts (String.◌∷◌ c s) h = ground arith

  delta_verdict-IsVerdict :
      (value : String) → (delta_verdict is_word value ≡ true) ↔ IsVerdict is_word value
  unfolding delta_verdict
  delta_verdict-IsVerdict value = (
    λ h.
        let w = split_word is_word (strip value) in
        let (whole, (word, rest)) = split_word-split (strip value) in
        let alone : stands_alone is_word w.1 ≡ true = ground arith in
        record {
          word = w.0;
          rest = w.1;
          splits = whole;
          whole = word;
          ends = ends_word w.1 rest ∙ ap not alone;
          known = ground arith;
        },
    λ v.
        let e = ap (split_word is_word) v.splits ∙ split_word-join v.word v.rest v.whole v.ends in
        rw e (rw (v.known, goes_on-starts v.rest v.ends) refl),
  )

-- exactly one line, and a verdict on it
one_verdict : (Char → Bool) → List String → Bool
one_verdict is_word (value ∷ []) = delta_verdict is_word value
one_verdict is_word _ = false

-- every lens has a block, and its one verdict line for every draw
all_verdicts : (Char → Bool) → List String → Walk → Bool
unfolding one_verdict
all_verdicts is_word lenses w =
    all
      (λ lens.
        elem lens w.seen && all (λ d. one_verdict is_word (values_of lens d w.counted)) draw_names)
      lenses

draw_problem_nil :
    (is_word : Char → Bool) (lens draw : String) (values : List String)
    → is_nil (draw_problem is_word lens draw values) ≡ one_verdict is_word values
unfolding draw_problem one_verdict
draw_problem_nil is_word lens draw [] = refl
draw_problem_nil is_word lens draw (v ∷ []) = ground arith
draw_problem_nil is_word lens draw (v ∷ w ∷ vs) = refl

nil-append {ℓ} : {A : Type ℓ} (xs ys : List A) → is_nil (xs ++ ys) ≡ (is_nil xs && is_nil ys)
nil-append [] ys = refl
nil-append (x ∷ xs) ys = refl

lens_problems_nil :
    (is_word : Char → Bool) (w : Walk) (lens : String) (draws : List String)
    → is_nil (lens_problems is_word w lens draws)
      ≡ all (λ d. one_verdict is_word (values_of lens d w.counted)) draws
unfolding lens_problems all
lens_problems_nil is_word w lens [] = refl
lens_problems_nil is_word w lens (d ∷ ds) =
    nil-append (draw_problem is_word lens d (values_of lens d w.counted))
      (lens_problems is_word w lens ds)
    ∙ rw
        (
          draw_problem_nil is_word lens d (values_of lens d w.counted),
          lens_problems_nil is_word w lens ds,
        )
        refl

problems_nil :
    (is_word : Char → Bool) (w : Walk) (lenses : List String)
    → is_nil (problems is_word w lenses)
      ≡ all
          (λ lens.
            elem lens w.seen
            && all (λ d. one_verdict is_word (values_of lens d w.counted)) draw_names)
          lenses
unfolding problems all
problems_nil is_word w [] = refl
problems_nil is_word w (lens ∷ ls) =
    nil-append
      (if elem lens w.seen then lens_problems is_word w lens draw_names else no_block lens ∷ [])
      (problems is_word w ls)
    ∙ ground (arith, lens_problems_nil is_word w lens draw_names, problems_nil is_word w ls)

error_nil : (ps : List DeltaProblem) → is_some (verdict_error ps) ≡ not (is_nil ps)
unfolding verdict_error
error_nil [] = refl
error_nil (p ∷ ps) = refl

is_some-check :
    (is_word : Char → Bool) (repo : Repo) (named : List String) (disposition : String)
    → is_some (check_delta_verdicts is_word repo named (some disposition))
      ≡ not (
          not (strip disposition == "")
          && (not (is_nil (countable repo named))
              && all_verdicts is_word
                  (countable repo named)
                  (walk_disposition repo (countable repo named) disposition)))
unfolding check_delta_verdicts all_verdicts
is_some-check is_word repo named disposition =
    let w = walk_disposition repo (countable repo named) disposition in
    ground (
      arith,
      error_nil (problems is_word w (countable repo named)),
      problems_nil is_word w (countable repo named),
    )

one_verdict-IsVerdict :
    (is_word : Char → Bool) (values : List String)
    → (one_verdict is_word values ≡ true)
      ↔ ((value : String) × (values ≡ value ∷ []) × IsVerdict is_word value)
unfolding one_verdict
one_verdict-IsVerdict is_word [] = (λ h. cc, λ (v, e, i). cc)
one_verdict-IsVerdict is_word (v ∷ []) = (
  λ h. (v, refl, (delta_verdict-IsVerdict is_word v).0 h),
  λ (u, e, i). let same : v ≡ u = cc e in rw same ((delta_verdict-IsVerdict is_word u).1 i),
)
one_verdict-IsVerdict is_word (v ∷ u ∷ vs) = (λ h. cc, λ (t, e, i). cc)

all-elem :
    (p : String → Bool) (xs : List String)
    → all p xs ≡ true
    → (x : String) → elem x xs ≡ true
    → p x ≡ true
unfolding all elem
all-elem p [] h x m = cc
all-elem p (y ∷ ys) h x m = elim (Bool-cases (y == x)) [
  | inl e ↦ ap p (sym ((eq_iff y x).0 e)) ∙ ground arith
  | inr n ↦ all-elem p ys (ground arith) x (ground arith)
]

elem-all :
    (p : String → Bool) (xs : List String)
    → ((x : String) → elem x xs ≡ true → p x ≡ true)
    → all p xs ≡ true
unfolding all elem
elem-all p [] h = refl
elem-all p (y ∷ ys) h =
    rw (h y (rw (eq_refl y) refl)) (elem-all p ys (λ x m. h x (ground (arith, m))))

none_of_is_some {ℓ} : {A : Type ℓ} (o : Option A) → is_some o ≡ false → o ≡ none
none_of_is_some none h = refl
none_of_is_some (some a) h = cc

module _ (is_word : Char → Bool) (repo : Repo) (lenses : List String) (disposition : String) where
  walked-values :
      (lens draw : String)
      → values_of lens draw (walk_disposition repo lenses disposition).counted
        ≡ block_values repo lenses lens draw [] (split_lines false disposition)
  unfolding walk_disposition values_of block_behind just_opened
  walked-values lens draw =
      walk_lines-values repo lenses (split_lines false disposition) _ [] lens draw
        (record { block = refl; fresh = refl })

  walked-seen :
      (lens : String)
      → elem lens lenses ≡ true
      → elem lens (walk_disposition repo lenses disposition).seen
        ≡ any (opens repo lenses lens) (split_lines false disposition)
  unfolding walk_disposition elem
  walked-seen lens h = walk_lines-seen repo lenses (split_lines false disposition) _ lens h

  lens-IsAnswered :
      (lens : String)
      → elem lens lenses ≡ true
      → ((elem lens (walk_disposition repo lenses disposition).seen
            && all
                (λ d.
                  one_verdict is_word
                    (values_of lens d (walk_disposition repo lenses disposition).counted))
                draw_names)
          ≡ true)
        ↔ IsAnswered is_word repo lenses (split_lines false disposition) lens
  lens-IsAnswered lens named =
      let w = walk_disposition repo lenses disposition in
      let answered : String → Bool = λ d. one_verdict is_word (values_of lens d w.counted) in
      (
        λ h.
            let every : all answered draw_names ≡ true = ground arith in
            record {
              opened = sym (walked-seen lens named) ∙ ground arith;
              answers = λ draw m. rw (← walked-values lens draw) (
                  (one_verdict-IsVerdict is_word (values_of lens draw w.counted)).0
                    (all-elem answered draw_names every draw m));
            },
        λ a.
            let every = elem-all answered draw_names (λ draw m.
              (one_verdict-IsVerdict is_word (values_of lens draw w.counted)).1
                (rw (walked-values lens draw) (a.answers draw m))) in
            rw (walked-seen lens named ∙ a.opened) every,
      )

-- A delta's disposition is accepted exactly when it is not blank, a lens is named, and each named
-- lens has a header of its own and, on the lines of its blocks, exactly one value for each of the two
-- draws, which starts with a verdict word that stands alone. A block goes on behind its header up to
-- the next header, or to the first blank line after a line of it that is not blank; which lines are
-- headers and which carry a draw's value is what `_DELTA_HEADER_RE` and `_delta_draw` read.
pub check_delta_verdicts_iff :
    (is_word : Char → Bool) (repo : Repo) (named : List String) (disposition : String)
    → (check_delta_verdicts is_word repo named (some disposition) ≡ none) ↔ (
        ((strip disposition == "") ≡ false)
        × ((is_nil (countable repo named) ≡ false)
            × ((lens : String)
                → elem lens (countable repo named) ≡ true
                → IsAnswered is_word repo
                    (countable repo named)
                    (split_lines false disposition)
                    lens)))
unfolding all_verdicts
check_delta_verdicts_iff is_word repo named disposition =
    let lenses = countable repo named in
    let w = walk_disposition repo lenses disposition in
    let whole = is_some-check is_word repo named disposition in
    let passes : String → Bool = λ lens.
      elem lens w.seen && all (λ d. one_verdict is_word (values_of lens d w.counted)) draw_names in
    (
      λ h.
          let none_there = sym (ap is_some h) ∙ whole in
          let every : all passes lenses ≡ true = ground arith in
          (
            ground arith,
            (
              ground arith,
              λ lens m.
                  (lens-IsAnswered is_word repo lenses disposition lens m).0
                    (all-elem passes lenses every lens m),
            ),
          ),
      λ (text, (some_lens, answered)).
          let every = elem-all passes lenses (λ lens m.
            (lens-IsAnswered is_word repo lenses disposition lens m).1 (answered lens m)) in
          none_of_is_some (check_delta_verdicts is_word repo named (some disposition))
            (whole ∙ rw (text, some_lens, every) refl),
    )
