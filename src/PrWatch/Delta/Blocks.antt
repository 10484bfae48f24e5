-- ===== src/PrWatch/Delta/Blocks.antt =====
-- Which lens's block a line of a disposition stands in, read from the lines before it.
use mathlib.Core.Bool.{true≢false}
use agentic_dev_kit.Base.{
  String, ◌≡◌, refl, sym, ap, ◌∙◌, inl, inr, Bool, true, false, ◌&&◌, ◌||◌, Option, none, some,
  List, [], ◌∷◌, ◌++◌, any, elem, elem-append, strip, if◌then◌else◌, ◌==◌, eq_iff, arith,
  Bool-cases,
}
use mathlib.Core.List.{append-nil, append_assoc}
use agentic_dev_kit.PrWatch.Repo.{Repo}
use agentic_dev_kit.PrWatch.Delta.{
  delta_draw, split_colon, DrawLine, Walk, header_name, open_block, note_draw, body_line, take_line,
  walk_line, walk_lines, values_of,
}

-- a name that is there and is the one given
abbrev pub is_same : Option String → String → Bool
is_same none lens = false
is_same (some name) lens = name == lens

-- the value on a draw's line
abbrev pub value_for : String → Option (String × String) → List String
value_for draw none = []
value_for draw (some d) = if d.0 == draw then d.1 ∷ [] else []

-- what a line leaves open: its own name if it is a header, or else what is given
abbrev pub or_header : (String → Option String) → Option String → Option String → Option String
or_header f none rest = rest
or_header f (some name) rest = f name

abbrev pub unless_header : Option String → List String → List String
unless_header none values = values
unless_header (some name) values = []

module _ (repo : Repo) (lenses : List String) where
  abbrev pub if_named : String → Option String
  if_named name = if elem name lenses then some name else none

  -- the lens whose header was the last line but blank ones, with the nearest line first
  unfoldable pub just_opened : List String → Option String
  just_opened [] = none
  just_opened (line ∷ before) =
      let rest = just_opened before in
      or_header if_named (header_name repo line) (if line == "" then rest else none)

  -- the lens whose block goes on behind the lines, with the nearest line first: the last header was
  -- that of the lens, and no blank line follows a line of the block that is not blank
  unfoldable pub block_behind : List String → Option String
  unfolding just_opened
  block_behind [] = none
  block_behind (line ∷ before) =
      let rest = block_behind before in
      or_header if_named (header_name repo line) (if line == "" then just_opened before else rest)

  -- what a line counts for a lens's draw, behind the lines before it
  unfoldable pub line_value : String → String → List String → String → List String
  line_value lens draw before line =
      unless_header (header_name repo line)
        (if is_same (block_behind before) lens then value_for draw (delta_draw line) else [])

  -- the values of a lens's draw in its blocks
  unfoldable pub block_values : String → String → List String → List String → List String
  block_values lens draw before [] = []
  block_values lens draw before (l ∷ ls) =
      line_value lens draw before (strip l) ++ block_values lens draw (strip l ∷ before) ls

  -- the line is the lens's header
  unfoldable pub opens : String → String → Bool
  opens lens line = is_same (header_name repo (strip line)) lens

  -- where the walk stands behind the lines
  pub record Behind (w : Walk) (before : List String) : Type 0 where
    pub block : w.current ≡ block_behind before
    pub fresh : just_opened before ≡ (if w.started then none else w.current)

  note_draw-current :
      (w : Walk) (lens : String) (d : Option (String × String))
      → (note_draw w lens d).current ≡ w.current
  unfolding note_draw
  note_draw-current w lens none = refl
  note_draw-current w lens (some d) = refl

  note_draw-started :
      (w : Walk) (lens : String) (d : Option (String × String))
      → (note_draw w lens d).started ≡ true
  unfolding note_draw
  note_draw-started w lens none = refl
  note_draw-started w lens (some d) = refl

  -- a line that is no header, given the block it stands in
  body-Behind :
      (w : Walk) (before : List String) (line : String) (o : Option String)
      → w.current ≡ o
      → Behind w before
      → ((body_line w o line).current
          ≡ (if line == "" then just_opened before else block_behind before))
        × ((if line == "" then just_opened before else none)
            ≡ (if (body_line w o line).started then none else (body_line w o line).current))
  unfolding body_line
  body-Behind w before line none c b = ground (arith, c, b.block, b.fresh)
  body-Behind w before line (some lens) c b = elim (Bool-cases (line == "")) [
    | inl y ↦ elim (Bool-cases w.started) [
      | inl s ↦
          let ended : just_opened before ≡ none = b.fresh ∙ rw s refl in
          rw y (rw s (sym ended, ended))
      | inr m ↦
          let still : just_opened before ≡ w.current = b.fresh ∙ rw m refl in
          rw y (rw m (sym still, still))
    ]
    | inr n ↦ rw n (
      note_draw-current w lens (delta_draw line) ∙ b.block,
      rw (note_draw-started w lens (delta_draw line)) refl,
    )
  ]

  open-Behind :
      (w : Walk) (name : String)
      → ((open_block lenses w name).current ≡ if_named name)
        × ((open_block lenses w name).started ≡ false)
  unfolding open_block
  open-Behind w name = elim (Bool-cases (elem name lenses)) [
    | inl y ↦ rw y (refl, refl)
    | inr n ↦ rw n (refl, refl)
  ]

  take_line-Behind :
      (w : Walk) (before : List String) (line : String) (o : Option String)
      → Behind w before
      → ((take_line lenses w line o).current
          ≡ or_header if_named o (if line == "" then just_opened before else block_behind before))
        × (or_header if_named o (if line == "" then just_opened before else none) ≡ (
            if (take_line lenses w line o).started
            then none
            else (take_line lenses w line o).current))
  unfolding take_line
  take_line-Behind w before line none b = body-Behind w before line w.current refl b
  take_line-Behind w before line (some name) b =
      let (cur, off) = open-Behind w name in (cur, rw off (sym cur))

  walk_line-Behind :
      (w : Walk) (before : List String) (line : String)
      → Behind w before
      → Behind (walk_line repo lenses w line) (line ∷ before)
  unfolding walk_line block_behind just_opened
  walk_line-Behind w before line b =
      let (cur, still) = take_line-Behind w before line (header_name repo line) b in
      record { block = cur; fresh = still }

  values_of-append :
      (lens draw : String) (xs ys : List DrawLine)
      → values_of lens draw (xs ++ ys) ≡ values_of lens draw xs ++ values_of lens draw ys
  unfolding values_of
  values_of-append lens draw [] ys = refl
  values_of-append lens draw (x ∷ xs) ys = elim (Bool-cases (x.lens == lens && x.draw == draw)) [
    | inl y ↦ rw y (ap (λ vs. x.value ∷ vs) (values_of-append lens draw xs ys))
    | inr n ↦ rw n (values_of-append lens draw xs ys)
  ]

  add_nothing : (b : Bool) (xs : List String) → xs ≡ xs ++ (if b then [] else [])
  add_nothing true xs = sym (append-nil xs)
  add_nothing false xs = sym (append-nil xs)

  delta_draw-blank : (line : String) → (line == "") ≡ true → delta_draw line ≡ none
  unfolding delta_draw split_colon
  delta_draw-blank line y = ap delta_draw ((eq_iff line "").0 y)

  end_block-counted :
      (w : Walk) → (if w.started then record w { current = none } else w).counted ≡ w.counted
  end_block-counted w = elim (Bool-cases w.started) [ inl s ↦ rw s refl | inr m ↦ rw m refl ]

  note_draw-values :
      (w : Walk) (cur lens draw : String) (d : Option (String × String))
      → values_of lens draw (note_draw w cur d).counted
        ≡ values_of lens draw w.counted ++ (if cur == lens then value_for draw d else [])
  unfolding note_draw values_of
  note_draw-values w cur lens draw none = add_nothing (cur == lens) (values_of lens draw w.counted)
  note_draw-values w cur lens draw (some d) =
      values_of-append lens draw w.counted ((record { lens = cur; draw = d.0; value = d.1 }) ∷ [])
      ∙ ap (λ vs. values_of lens draw w.counted ++ vs) (ground arith)

  body-values :
      (w : Walk) (line lens draw : String) (o : Option String)
      → values_of lens draw (body_line w o line).counted
        ≡ values_of lens draw w.counted
          ++ (if is_same o lens then value_for draw (delta_draw line) else [])
  unfolding body_line
  body-values w line lens draw none = sym (append-nil (values_of lens draw w.counted))
  body-values w line lens draw (some cur) = elim (Bool-cases (line == "")) [
    | inl y ↦ rw y (
        ap (values_of lens draw) (end_block-counted w)
        ∙ rw (delta_draw-blank line y) (add_nothing (cur == lens) (values_of lens draw w.counted)))
    | inr n ↦ rw n (note_draw-values w cur lens draw (delta_draw line))
  ]

  open-counted : (w : Walk) (name : String) → (open_block lenses w name).counted ≡ w.counted
  unfolding open_block
  open-counted w name = elim (Bool-cases (elem name lenses)) [
    | inl y ↦ rw y refl
    | inr n ↦ rw n refl
  ]

  take_line-values :
      (w : Walk) (line lens draw : String) (o : Option String)
      → values_of lens draw (take_line lenses w line o).counted
        ≡ values_of lens draw w.counted
          ++ unless_header o
              (if is_same w.current lens then value_for draw (delta_draw line) else [])
  unfolding take_line
  take_line-values w line lens draw none = body-values w line lens draw w.current
  take_line-values w line lens draw (some name) =
      ap (values_of lens draw) (open-counted w name)
      ∙ sym (append-nil (values_of lens draw w.counted))

  walk_line-values :
      (w : Walk) (before : List String) (line lens draw : String)
      → Behind w before
      → values_of lens draw (walk_line repo lenses w line).counted
        ≡ values_of lens draw w.counted ++ line_value lens draw before line
  unfolding walk_line line_value
  walk_line-values w before line lens draw b =
      rw (← b.block) (take_line-values w line lens draw (header_name repo line))

  pub walk_lines-values :
      (ls : List String) (w : Walk) (before : List String) (lens draw : String)
      → Behind w before
      → values_of lens draw (walk_lines repo lenses w ls).counted
        ≡ values_of lens draw w.counted ++ block_values lens draw before ls
  unfolding walk_lines block_values
  walk_lines-values [] w before lens draw b = sym (append-nil (values_of lens draw w.counted))
  walk_lines-values (l ∷ ls) w before lens draw b =
      walk_lines-values ls (walk_line repo lenses w (strip l)) (strip l ∷ before) lens draw
        (walk_line-Behind w before (strip l) b)
      ∙ ap (λ vs. vs ++ block_values lens draw (strip l ∷ before) ls)
          (walk_line-values w before (strip l) lens draw b)
      ∙ append_assoc (values_of lens draw w.counted) (line_value lens draw before (strip l))
          (block_values lens draw (strip l ∷ before) ls)

  note_draw-seen :
      (w : Walk) (lens : String) (d : Option (String × String)) → (note_draw w lens d).seen ≡ w.seen
  unfolding note_draw
  note_draw-seen w lens none = refl
  note_draw-seen w lens (some d) = refl

  body-seen : (w : Walk) (line : String) (o : Option String) → (body_line w o line).seen ≡ w.seen
  unfolding body_line
  body-seen w line none = refl
  body-seen w line (some lens) = elim (Bool-cases (line == "")) [
    | inl y ↦ elim (Bool-cases w.started) [ inl s ↦ rw (y, s) refl | inr m ↦ rw (y, m) refl ]
    | inr n ↦ rw n (note_draw-seen w lens (delta_draw line))
  ]

  take_line-seen :
      (w : Walk) (line lens : String) (o : Option String)
      → elem lens lenses ≡ true
      → elem lens (take_line lenses w line o).seen ≡ (elem lens w.seen || is_same o lens)
  unfolding take_line open_block elem
  take_line-seen w line lens none h = ap (elem lens) (body-seen w line w.current) ∙ ground arith
  take_line-seen w line lens (some name) h = elim (Bool-cases (elem name lenses)) [
    | inl y ↦ rw y (elem-append lens w.seen (name ∷ []) ∙ ground arith)
    | inr n ↦ elim (Bool-cases (name == lens)) [
      | inl e ↦
          let same : name ≡ lens = (eq_iff name lens).0 e in
          absurd (true≢false (sym h ∙ ap (λ k. elem k lenses) (sym same) ∙ n))
      | inr d ↦ rw n (rw d (ground arith))
    ]
  ]

  pub walk_lines-seen :
      (ls : List String) (w : Walk) (lens : String)
      → elem lens lenses ≡ true
      → elem lens (walk_lines repo lenses w ls).seen ≡ (elem lens w.seen || any (opens lens) ls)
  unfolding walk_lines walk_line any opens
  walk_lines-seen [] w lens h = ground arith
  walk_lines-seen (l ∷ ls) w lens h =
      walk_lines-seen ls (walk_line repo lenses w (strip l)) lens h
      ∙ ground (arith, take_line-seen w (strip l) lens (header_name repo (strip l)) h)
