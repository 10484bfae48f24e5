-- ===== src/PrWatch/Delta.antt =====
-- `check_delta_verdicts` of scripts/pr_watch.py: the draw verdicts that a delta receipt's disposition
-- carries. What `\w` matches is a parameter; the hints of a refusal's message are not kept.
pub mod Verdicts
pub mod Blocks
use Prim.Native.Char.{Char, code}
use Prim.Native.String
use agentic_dev_kit.Base.{
  ℕ, String, Bool, true, false, ◌&&◌, ◌||◌, not, Option, none, some, List, [], ◌∷◌, ◌++◌, map,
  length, is_nil, is_some, if◌then◌else◌, eqb, leb, elem, filter, all, lower, strip, without_suffix,
  ◌==◌,
}
use agentic_dev_kit.PrWatch.Repo.{Repo, countable}

-- the characters that end a line for `str.splitlines`
unfoldable pub ends_line : Char → Bool
ends_line c =
    (leb 10 (code c) && leb (code c) 13)
    || ((leb 28 (code c) && leb (code c) 30)
        || (eqb (code c) 133 || (eqb (code c) 8232 || eqb (code c) 8233)))

first_line : Char → List String → List String
first_line c [] = String.◌∷◌ c "" ∷ []
first_line c (l ∷ ls) = String.◌∷◌ c l ∷ ls

-- `s.splitlines()`; the flag tells that the text so far ended in a carriage return
unfoldable pub split_lines : Bool → String → List String
unfolding ends_line first_line
split_lines after_return String.[] = []
split_lines after_return (String.◌∷◌ c s) =
    let next = split_lines (eqb (code c) 13) s in
    if after_return && eqb (code c) 10
    then next
    else if ends_line c
    then "" ∷ next
    else first_line c next

-- `DELTA_DRAW_NAMES`
abbrev pub draw_names : List String
draw_names = "prose-class" ∷ "safety-critical" ∷ []

-- `_DELTA_VERDICTS`
abbrev pub delta_verdicts : List String
delta_verdicts = "confirmed" ∷ "disputed" ∷ []

-- the text before the first colon, and the text behind it
unfoldable pub split_colon : String → Option (String × String)
split_colon String.[] = none
split_colon (String.◌∷◌ c s) =
    let rest = split_colon s in
    if eqb (code c) 58
    then some ("", s)
    else elim rest [ none ↦ none | some p ↦ some (String.◌∷◌ c p.0, p.1) ]

named_draw : Option (String × String) → Option (String × String)
named_draw none = none
named_draw (some p) = if elem (lower p.0) draw_names then some (lower p.0, p.1) else none

-- `_delta_draw(line)`
unfoldable pub delta_draw : String → Option (String × String)
unfolding named_draw split_colon
delta_draw line = named_draw (split_colon line)

-- a counted draw line: its lens, its draw and the text behind the colon
pub record DrawLine : Type 0 where
  pub lens : String
  pub draw : String
  pub value : String

-- the loop's variables; `counted` is the lists of `values`, in one
pub record Walk : Type 0 where
  pub seen : List String
  pub current : Option String
  pub started : Bool
  pub counted : List DrawLine

pub data DeltaProblem : Type 0 where
  no_block : String → DeltaProblem
  wrong_count : String → String → ℕ → DeltaProblem
  no_verdict : String → String → DeltaProblem

pub data DeltaError : Type 0 where
  no_disposition no_lens : DeltaError
  missing_verdicts : List DeltaProblem → DeltaError

module _ (is_word : Char → Bool) where
  -- the word at the start, and what follows it
  unfoldable pub split_word : String → String × String
  split_word String.[] = ("", "")
  split_word (String.◌∷◌ c s) =
      let rest = split_word s in
      if is_word c then (String.◌∷◌ c rest.0, rest.1) else ("", String.◌∷◌ c s)

  -- the lookahead behind the word
  stands_alone : String → Bool
  stands_alone String.[] = true
  stands_alone (String.◌∷◌ c s) = not (eqb (code c) 124 || eqb (code c) 45)

  -- `_delta_verdict(value)`
  unfoldable pub delta_verdict : String → Bool
  unfolding stands_alone
  delta_verdict value =
      let w = split_word (strip value) in elem (lower w.0) delta_verdicts && stands_alone w.1

-- a header's name, folded: `_DELTA_HEADER_RE` is `_LENS_NAME_RE` and a colon
unfoldable pub header_name : Repo → String → Option String
header_name repo line = elim (without_suffix line ":") [
  | none ↦ none
  | some name ↦
      if repo.is_lens_name name && not (is_some (delta_draw line)) then some (lower name) else none
]

unfoldable pub open_block : List String → Walk → String → Walk
open_block lenses w name =
    if elem name lenses
    then record w { seen = w.seen ++ name ∷ []; current = some name; started = false }
    else record w { current = none; started = false }

note_draw : Walk → String → Option (String × String) → Walk
note_draw w lens none = record w { started = true }
note_draw w lens (some d) = record w {
  started = true;
  counted = w.counted ++ (record { lens = lens; draw = d.0; value = d.1 }) ∷ [];
}

-- a line that is no header
unfoldable pub body_line : Walk → Option String → String → Walk
unfolding note_draw
body_line w none line = w
body_line w (some lens) line =
    if line == ""
    then (if w.started then record w { current = none } else w)
    else note_draw w lens (delta_draw line)

-- a line, given whether it is a header
unfoldable pub take_line : List String → Walk → String → Option String → Walk
unfolding open_block body_line
take_line lenses w line (some name) = open_block lenses w name
take_line lenses w line none = body_line w w.current line

unfoldable pub walk_line : Repo → List String → Walk → String → Walk
unfolding header_name take_line
walk_line repo lenses w line = take_line lenses w line (header_name repo line)

unfoldable pub walk_lines : Repo → List String → Walk → List String → Walk
walk_lines repo lenses w [] = w
walk_lines repo lenses w (l ∷ ls) = walk_lines repo lenses (walk_line repo lenses w (strip l)) ls

unfoldable pub walk_disposition : Repo → List String → String → Walk
walk_disposition repo lenses disposition =
    walk_lines repo lenses (record { seen = []; current = none; started = false; counted = [] })
      (split_lines false disposition)

verdict_error : List DeltaProblem → Option DeltaError
verdict_error [] = none
verdict_error (p ∷ ps) = some (missing_verdicts (p ∷ ps))

-- the values that one lens has for one draw
unfoldable pub values_of : String → String → List DrawLine → List String
values_of lens draw [] = []
values_of lens draw (d ∷ ds) =
    let rest = values_of lens draw ds in
    if d.lens == lens && d.draw == draw then d.value ∷ rest else rest

module _ (is_word : Char → Bool) where
  draw_problem : String → String → List String → List DeltaProblem
  draw_problem lens draw (value ∷ []) =
      if delta_verdict is_word value then [] else no_verdict lens draw ∷ []
  draw_problem lens draw values = wrong_count lens draw (length values) ∷ []

  lens_problems : Walk → String → List String → List DeltaProblem
  unfolding draw_problem
  lens_problems w lens [] = []
  lens_problems w lens (d ∷ ds) =
      draw_problem lens d (values_of lens d w.counted) ++ lens_problems w lens ds

  unfoldable pub problems : Walk → List String → List DeltaProblem
  unfolding lens_problems
  problems w [] = []
  problems w (lens ∷ rest) =
      (if elem lens w.seen then lens_problems w lens draw_names else no_block lens ∷ [])
      ++ problems w rest

  -- `check_delta_verdicts(named_lenses, disposition)`; `none` for no refusal
  unfoldable pub check_delta_verdicts : Repo → List String → Option String → Option DeltaError
  unfolding walk_disposition verdict_error
  check_delta_verdicts repo named none = some no_disposition
  check_delta_verdicts repo named (some disposition) =
      let lenses = countable repo named in
      if strip disposition == ""
      then some no_disposition
      else if is_nil lenses
      then some no_lens
      else verdict_error (problems (walk_disposition repo lenses disposition) lenses)
