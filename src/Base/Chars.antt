-- ===== src/Base/Chars.antt =====
-- Tests on the characters of a text, for the whole matches of regular expressions.
use Prim.Native.Nat.{ℕ, suc}
use Prim.Native.Char.{Char, code}
use Prim.Native.String.{String}
use mathlib.Core.Bool.{Bool, true, false, ◌&&◌, ◌||◌}
use agentic_dev_kit.Base.Tests.{leb}

unfoldable pub all_chars : (Char → Bool) → String → Bool
all_chars p String.[] = true
all_chars p (String.◌∷◌ c s) = p c && all_chars p s

unfoldable pub text_length : String → ℕ
text_length String.[] = 0
text_length (String.◌∷◌ c s) = suc (text_length s)

unfoldable pub is_digit : Char → Bool
is_digit c = leb 48 (code c) && leb (code c) 57

-- `[A-Za-z0-9]`
unfoldable pub is_alnum : Char → Bool
unfolding is_digit
is_alnum c =
    is_digit c || ((leb 65 (code c) && leb (code c) 90) || (leb 97 (code c) && leb (code c) 122))

-- `[A-Za-z0-9]`, then at most so many characters that are alphanumeric or pass the test
unfoldable pub is_token : (Char → Bool) → ℕ → String → Bool
unfolding all_chars is_alnum text_length
is_token extra n String.[] = false
is_token extra n (String.◌∷◌ c s) =
    is_alnum c && (all_chars (λ d. is_alnum d || extra d) s && leb (text_length s) n)
