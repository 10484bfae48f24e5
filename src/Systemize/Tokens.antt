-- ===== src/Systemize/Tokens.antt =====
-- The regular expressions of scripts/lib/systemize/heartbeat.py that an invocation's arguments
-- match whole: `_STEP`, `_SLICE` and `_DIGEST`. `read_number` reads `[1-9][0-9]*`.
use Prim.Native.Char.{Char, code}
use agentic_dev_kit.Base.{
  ℕ, ◌+◌, ◌-◌, ◌*◌, String, Bool, false, ◌&&◌, ◌||◌, Option, none, some, List, [], ◌∷◌, leb, eqb,
  if◌then◌else◌, all_chars, text_length, is_digit, is_token,
}
use agentic_dev_kit.Triage.Commands.{split_on, behind}

-- `[._:-]`
step_mark : Char → Bool
step_mark c = (eqb (code c) 46 || eqb (code c) 95) || (eqb (code c) 58 || eqb (code c) 45)

-- `_STEP.fullmatch(step)`
unfoldable pub is_step : String → Bool
unfolding is_token step_mark
is_step step = is_token step_mark 63 step

-- the value of decimal digits behind a number
digits_value : ℕ → String → Option ℕ
unfolding is_digit
digits_value n String.[] = some n
digits_value n (String.◌∷◌ c s) =
    let rest = digits_value (n * 10 + (code c - 48)) s in if is_digit c then rest else none

unfoldable pub read_number : String → Option ℕ
unfolding digits_value is_digit
read_number String.[] = none
read_number (String.◌∷◌ c s) =
    if is_digit c && leb 49 (code c) then digits_value (code c - 48) s else none

abbrev slash : Char
slash = "/"

-- a slice `index/total`
pub record Slice : Type 0 where
  pub index : ℕ
  pub total : ℕ

in_order : ℕ → ℕ → Option Slice
in_order i n = if leb i n then some (record { index = i; total = n }) else none

numbers : Option ℕ → Option ℕ → Option Slice
unfolding in_order
numbers (some i) (some n) = in_order i n
numbers _ _ = none

slice_parts : List String → Option Slice
unfolding numbers read_number
slice_parts (a ∷ b ∷ []) = numbers (read_number a) (read_number b)
slice_parts _ = none

-- `_SLICE.fullmatch(text)` with `1 <= i <= n`
unfoldable pub read_slice : String → Option Slice
unfolding slice_parts split_on
read_slice text = slice_parts (split_on slash text)

is_hex : Char → Bool
is_hex c = is_digit c || (leb 97 (code c) && leb (code c) 102)

hex_64 : Option String → Bool
unfolding is_hex is_digit all_chars text_length
hex_64 none = false
hex_64 (some s) = all_chars is_hex s && eqb (text_length s) 64

-- `_DIGEST.fullmatch(text)`
unfoldable pub is_run_digest : String → Bool
unfolding hex_64 behind
is_run_digest text = hex_64 (behind text "sha256:")
