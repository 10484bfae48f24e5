-- ===== src/Base/Text.antt =====
-- Python's `str` methods on native texts. The case mappings are those of ASCII letters; other
-- characters are left alone. `sorted_set` is `sorted(set(xs))`, ordered by code points.
use Prim.Native.Nat.{ℕ, zero, suc, ◌/◌, ◌%◌, Ordering}
use Prim.Native.Char.{Char, code}
use Prim.Native.String.{String, compare}
use Prim.Native.String
use mathlib.Core.Path.{◌≡◌, refl, sym, ap, ◌∙◌}
use mathlib.Core.Logic.{◌⊎◌, inl, inr}
use mathlib.Core.Bool.{Bool, true, false, ◌&&◌, ◌||◌, not, true≢false}
use mathlib.Core.Option.{Option, none, some}
use mathlib.Core.List.{List, [], ◌∷◌, ◌++◌}
use native.Mathlib.Omega.{arith}
use text.Mathlib.Text.{◌==◌}
use text.Mathlib.TextEquality.{eq_iff}
use text.Mathlib.TextPositions.{compare_refl}
use agentic_dev_kit.Base.Tests.{if◌then◌else◌, ltb, eqb, leb, Bool-cases}
use agentic_dev_kit.Base.Lists.{elem}

-- the character of `to` that stands where `c` stands in `from`, or `c`
translate : String → String → Char → Char
translate (String.◌∷◌ a from) (String.◌∷◌ b to) c =
    let rest = translate from to c in if eqb (code a) (code c) then b else rest
translate _ _ c = c

abbrev upper_letters : String
upper_letters = "ABCDEFGHIJKLMNOPQRSTUVWXYZ"

abbrev lower_letters : String
lower_letters = "abcdefghijklmnopqrstuvwxyz"

-- `s.lower()`
unfoldable pub lower : String → String
unfolding translate
lower String.[] = ""
lower (String.◌∷◌ c s) = String.◌∷◌ (translate upper_letters lower_letters c) (lower s)

-- `s.upper()`
unfoldable pub upper : String → String
unfolding translate
upper String.[] = ""
upper (String.◌∷◌ c s) = String.◌∷◌ (translate lower_letters upper_letters c) (upper s)

is_space : Char → Bool
is_space c = eqb (code c) 32 || (leb 9 (code c) && leb (code c) 13)

strip_left : String → String
strip_left String.[] = ""
strip_left (String.◌∷◌ c s) = let rest = strip_left s in if is_space c then rest else String.◌∷◌ c s

strip_right : String → String
strip_right String.[] = ""
strip_right (String.◌∷◌ c s) =
    let rest = strip_right s in if is_space c && rest == "" then "" else String.◌∷◌ c rest

-- the texts of a list, one behind the other
unfoldable pub concat : List String → String
concat [] = ""
concat (s ∷ ss) = String.◌++◌ s (concat ss)

-- `", ".join(ss)`, with the separator given
unfoldable pub join : String → List String → String
unfolding concat
join sep [] = ""
join sep (s ∷ []) = s
join sep (s ∷ t ∷ ss) = concat (s ∷ sep ∷ join sep (t ∷ ss) ∷ [])

-- `s.strip()`
unfoldable pub strip : String → String
unfolding strip_left strip_right is_space
strip s = strip_right (strip_left s)

-- a text that starts with a character that is no space
is_solid : String → Bool
is_solid String.[] = false
is_solid (String.◌∷◌ c s) = not (is_space c)

solid-strip_left : (s : String) → (strip_left s ≡ "") ⊎ (is_solid (strip_left s) ≡ true)
unfolding strip_left
solid-strip_left String.[] = inl refl
solid-strip_left (String.◌∷◌ c s) = elim (Bool-cases (is_space c)) [
  | inl y ↦ rw y (solid-strip_left s)
  | inr n ↦ inr (rw n (unfold is_solid in rw n refl))
]

solid-strip_right : (s : String) → is_solid s ≡ true → is_solid (strip_right s) ≡ true
unfolding strip_right is_solid
solid-strip_right String.[] h = h
solid-strip_right (String.◌∷◌ c s) h = ground arith

solid_left : (s : String) → is_solid s ≡ true → strip_left s ≡ s
unfolding strip_left is_solid
solid_left String.[] h = refl
solid_left (String.◌∷◌ c s) h = ground arith

solid_some : (s : String) → is_solid s ≡ true → (s == "") ≡ false
unfolding is_solid
solid_some s h = elim (Bool-cases (s == "")) [
  | inl y ↦ absurd (true≢false (sym h ∙ ap is_solid ((eq_iff s "").0 y)))
  | inr n ↦ n
]

-- a text with something left after a strip has something left after another
pub strip-strip_some : (s : String) → (strip s == "") ≡ false → (strip (strip s) == "") ≡ false
unfolding strip strip_right
strip-strip_some s h = elim (solid-strip_left s) [
  | inl e ↦ absurd (true≢false (sym (ap (λ t. strip_right t == "") e) ∙ h))
  | inr l ↦
      let r = solid-strip_right (strip_left s) l in
      solid_some (strip_right (strip_left (strip_right (strip_left s)))) (
        solid-strip_right (strip_left (strip_right (strip_left s)))
          (rw (solid_left (strip_right (strip_left s)) r) r))
]

-- `s.startswith(t)`
unfoldable pub starts_with : String → String → Bool
starts_with s String.[] = true
starts_with String.[] (String.◌∷◌ d t) = false
starts_with (String.◌∷◌ c s) (String.◌∷◌ d t) = eqb (code c) (code d) && starts_with s t

-- `t in s`
unfoldable pub contains : String → String → Bool
unfolding starts_with
contains String.[] t = t == ""
contains (String.◌∷◌ c s) t = starts_with (String.◌∷◌ c s) t || contains s t

-- `s.endswith(t)`
unfoldable pub ends_with : String → String → Bool
ends_with String.[] t = t == ""
ends_with (String.◌∷◌ c s) t = String.◌∷◌ c s == t || ends_with s t

-- `s <= t`
unfoldable pub text_le : String → String → Bool
text_le s t = elim (compare s t) [ Ordering.gt ↦ false | _ ↦ true ]

pub text_le_refl : (s : String) → text_le s s ≡ true
unfolding text_le
text_le_refl s = rw (text_le, compare_refl s) refl

-- `s[:-len(t)]` where `s` ends with `t`
unfoldable pub without_suffix : String → String → Option String
without_suffix String.[] t = if t == "" then some "" else none
without_suffix (String.◌∷◌ c s) t =
    let rest = without_suffix s t in
    if String.◌∷◌ c s == t
    then some ""
    else elim rest [ none ↦ none | some r ↦ some (String.◌∷◌ c r) ]

-- `s[:n]`
unfoldable pub take_chars : ℕ → String → String
take_chars (suc n) (String.◌∷◌ c s) = String.◌∷◌ c (take_chars n s)
take_chars _ _ = ""

space : Char
space = " "

-- the loop of `" ".join(s.split())`: whether a word was printed, and whether a space is owed
join_words : Bool → Bool → String → String
join_words started owed String.[] = ""
join_words started owed (String.◌∷◌ c s) =
    let gap = is_space c in
    let rest = join_words (started || not gap) (started && gap) s in
    if gap then rest else if owed then String.◌∷◌ space (String.◌∷◌ c rest) else String.◌∷◌ c rest

-- `" ".join(s.split())`
unfoldable pub squeeze : String → String
unfolding join_words is_space space
squeeze s = join_words false false s

digit_at : ℕ → String → String
digit_at n String.[] = ""
digit_at zero (String.◌∷◌ c s) = String.◌∷◌ c ""
digit_at (suc n) (String.◌∷◌ c s) = digit_at n s

-- the decimal digits, on fuel: a number has no more digits than its value plus one
digits : ℕ → ℕ → String
digits zero n = ""
digits (suc f) n =
    let last = digit_at (n % 10) "0123456789" in
    let rest = digits f (n / 10) in if ltb n 10 then last else String.◌++◌ rest last

-- `str(n)`
unfoldable pub show : ℕ → String
unfolding digits digit_at
show n = digits (suc n) n

-- `a or d`, for a text that may be `None`
abbrev pub or_text : Option String → String → String
or_text none d = d
or_text (some s) d = if s == "" then d else s

insert_sorted : String → List String → List String
insert_sorted s [] = s ∷ []
insert_sorted s (x ∷ xs) =
    let rest = insert_sorted s xs in
    if x == s then x ∷ xs else if text_le s x then s ∷ x ∷ xs else x ∷ rest

-- `sorted(set(xs))`
unfoldable pub sorted_set : List String → List String
unfolding insert_sorted text_le
sorted_set [] = []
sorted_set (x ∷ xs) = insert_sorted x (sorted_set xs)

insert_text : String → List String → List String
insert_text s [] = s ∷ []
insert_text s (x ∷ xs) = let rest = insert_text s xs in if text_le s x then s ∷ x ∷ xs else x ∷ rest

-- `sorted(xs)`
unfoldable pub sorted : List String → List String
unfolding insert_text text_le
sorted [] = []
sorted (x ∷ xs) = insert_text x (sorted xs)

elem-insert_sorted :
    (k s : String) (xs : List String) → elem k (insert_sorted s xs) ≡ (s == k || elem k xs)
unfolding insert_sorted elem
elem-insert_sorted k s [] = refl
elem-insert_sorted k s (x ∷ xs) =
    ground (arith, elem-insert_sorted k s xs, eq_iff x s, eq_iff x k, eq_iff s k)

-- Sorting into a set keeps exactly the members.
pub elem-sorted_set : (k : String) (xs : List String) → elem k (sorted_set xs) ≡ elem k xs
unfolding sorted_set elem
elem-sorted_set k [] = refl
elem-sorted_set k (x ∷ xs) =
    ground (arith, elem-sorted_set k xs, elem-insert_sorted k x (sorted_set xs))

pub elem-append : (k : String) (xs ys : List String) → elem k (xs ++ ys) ≡ (elem k xs || elem k ys)
unfolding elem
elem-append k [] ys = refl
elem-append k (x ∷ xs) ys = ground (arith, elem-append k xs ys)

lower_example : lower "CodeRabbit-9" ≡ "coderabbit-9"
unfolding lower
lower_example = refl

strip_example : strip "  a b " ≡ "a b"
unfolding strip
strip_example = refl

contains_example : contains "rate limit exceeded" "limit" ≡ true
unfolding contains
contains_example = refl

sorted_set_example : sorted_set ("b" ∷ "a" ∷ "b" ∷ []) ≡ "a" ∷ "b" ∷ []
unfolding sorted_set
sorted_set_example = refl

squeeze_example : squeeze " a  b c " ≡ "a b c"
unfolding squeeze
squeeze_example = refl

show_example : show 1050 ≡ "1050"
unfolding show
show_example = refl

without_suffix_example : without_suffix "coderabbitai[bot]" "[bot]" ≡ some "coderabbitai"
unfolding without_suffix
without_suffix_example = refl
