-- ===== src/Triage/Commands.antt =====
-- `COMMAND_RE` and `MODIFY_RE` of scripts/lib/triage/approval.py, and the splits of a text.
use Prim.Native.Char.{Char, code}
use agentic_dev_kit.Base.{
  String, Bool, ◌&&◌, ◌||◌, Option, none, some, List, [], ◌∷◌, if◌then◌else◌, eqb, leb, ◌==◌,
}

-- what `\s` matches
unfoldable pub is_blank : Char → Bool
is_blank c = eqb (code c) 32 || (leb 9 (code c) && leb (code c) 13)

-- `s.split(sep)` for a separator of one character
unfoldable pub split_on : Char → String → List String
split_on sep String.[] = "" ∷ []
split_on sep (String.◌∷◌ c s) =
    let rest = split_on sep s in
    if eqb (code c) (code sep)
    then "" ∷ rest
    else elim rest [ [] ↦ String.◌∷◌ c "" ∷ [] | part ∷ parts ↦ String.◌∷◌ c part ∷ parts ]

abbrev pub newline : Char
newline = "\n"

abbrev pub space : Char
space = " "

-- `s` behind the prefix `t`
unfoldable pub behind : String → String → Option String
behind s String.[] = some s
behind String.[] (String.◌∷◌ d t) = none
behind (String.◌∷◌ c s) (String.◌∷◌ d t) = if eqb (code c) (code d) then behind s t else none

last_text : String → String
last_text String.[] = ""
last_text (String.◌∷◌ c s) = let rest = last_text s in if s == "" then String.◌∷◌ c "" else rest

skip_blanks : String → String
skip_blanks String.[] = ""
skip_blanks (String.◌∷◌ c s) =
    let rest = skip_blanks s in if is_blank c then rest else String.◌∷◌ c s

-- what `\s+(.+)` gives for the last group: all behind the blanks; of blanks alone, the last one
unfoldable pub behind_blanks : String → Option String
unfolding last_text skip_blanks is_blank
behind_blanks String.[] = none
behind_blanks (String.◌∷◌ c s) =
    if is_blank c
    then (if s == ""
        then none
        else if skip_blanks s == ""
        then some (last_text s)
        else some (skip_blanks s))
    else none

abbrev pub verbs : List String
verbs = "approve" ∷ "archive" ∷ "park" ∷ []

first_verb : String → List String → Option (String × String)
first_verb line [] = none
first_verb line (v ∷ vs) =
    let rest = first_verb line vs in
    elim (behind line v) [
      | none ↦ rest
      | some s ↦ elim (behind_blanks s) [ none ↦ rest | some ids ↦ some (v, ids) ]
    ]

-- `COMMAND_RE.fullmatch(line)` for a line without a newline: the verb and the ids
unfoldable pub command_of : String → Option (String × String)
unfolding first_verb behind behind_blanks
command_of line = first_verb line verbs

is_id_char : Char → Bool
is_id_char c =
    (leb 48 (code c) && leb (code c) 57)
    || ((leb 65 (code c) && leb (code c) 90)
        || ((leb 97 (code c) && leb (code c) 122) || (eqb (code c) 95 || eqb (code c) 45)))

-- the identifier up to a colon, and the text behind it
id_before : String → Option (String × String)
id_before String.[] = none
id_before (String.◌∷◌ c s) =
    let rest = id_before s in
    if eqb (code c) 58
    then some ("", s)
    else if is_id_char c
    then elim rest [ none ↦ none | some p ↦ some (String.◌∷◌ c p.0, p.1) ]
    else none

with_body : Option (String × String) → Option (String × String)
with_body none = none
with_body (some p) =
    if p.0 == ""
    then none
    else elim (behind_blanks p.1) [ none ↦ none | some body ↦ some (p.0, body) ]

of_modify : Option String → Option (String × String)
unfolding with_body id_before is_id_char
of_modify none = none
of_modify (some s) = with_body (id_before s)

blanks_of : Option String → Option String
blanks_of none = none
blanks_of (some s) = behind_blanks s

-- `MODIFY_RE.fullmatch(text)`: the candidate and the body
unfoldable pub modify_of : String → Option (String × String)
unfolding of_modify blanks_of behind behind_blanks
modify_of text = of_modify (blanks_of (behind text "modify"))
