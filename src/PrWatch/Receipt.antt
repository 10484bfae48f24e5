-- ===== src/PrWatch/Receipt.antt =====
-- Review receipts of scripts/pr_watch.py: `_receipt_lenses` and `_receipt_caveats`, and the checks
-- that the children compose. A receipt is a JSON object; a refusal is a `CoverageError` in place
-- of its message.
pub mod Validate
pub mod Compose
pub mod Inversion
pub mod Chain
use agentic_dev_kit.Base.{
  ℕ, String, Bool, true, false, ◌&&◌, ◌||◌, not, Option, none, some, List, [], ◌∷◌, ◌++◌, length,
  is_nil, if◌then◌else◌, is_some, leb, eqb, strip, sorted_set, ◌==◌,
}
use agentic_dev_kit.Base.Json.{
  ℤ, pos, negsuc, Json, null, bool, int, float, str, arr, obj, Items, nil, cons, Fields, end, field,
  get, put, as_text, as_obj, as_arr, as_int, texts, text_items,
}
use agentic_dev_kit.PrWatch.Repo.{
  Answer, answer, refusal, Repo, countable, single_lens_source, delta_source,
}

pub data CoverageError : Type 0 where
  not_object bad_version full_missing deltas_missing full_head_missing : CoverageError
  full_source_missing full_is_delta full_not_anchor bad_caveat : CoverageError
  delta_malformed delta_breaks_chain delta_no_head delta_bad_source : CoverageError
  delta_no_lens delta_bad_paths delta_paths_differ : CoverageError
  git_refused : String → CoverageError
  source_differs lenses_differ caveats_differ wrong_end : CoverageError
  parent_differs no_parent_source legacy_delta : CoverageError

-- a check that passes, or its first failure
pub data Check {ℓ} (A : Type ℓ) : Type ℓ where
  pass : A → Check A
  fail : CoverageError → Check A

infixl 5 ◌>>=◌ ◌>>◌
unfoldable pub ◌>>=◌ {ℓ κ} : {A : Type ℓ} {B : Type κ} → Check A → (A → Check B) → Check B
pass a >>= f = f a
fail e >>= f = fail e

unfoldable pub ◌>>◌ {ℓ} : {B : Type ℓ} → Check (Unit {0}) → Check B → Check B
m >> k = m >>= λ _. k

abbrev pub require : Bool → CoverageError → Check (Unit {0})
require true e = pass tt
require false e = fail e

abbrev pub need {ℓ} : {A : Type ℓ} → Option A → CoverageError → Check A
need none e = fail e
need (some a) e = pass a

abbrev pub is_blank : String → Bool
is_blank s = strip s == ""

-- the lenses that are texts and not blank, stripped
strip_all : List String → List String
strip_all [] = []
strip_all (s ∷ ss) = let rest = strip_all ss in if is_blank s then rest else strip s ∷ rest

-- `_receipt_lenses(receipt)`
unfoldable pub receipt_lenses : Fields → List String
unfolding strip_all
receipt_lenses receipt = elim (as_arr (get receipt "lenses")) [
  | none ↦ []
  | some xs ↦ strip_all (texts xs)
]

-- one of the two text caveats: kept if it is absent or a text that is not blank
text_caveat : Option Json → Check (Option String)
text_caveat none = pass none
text_caveat (some (str s)) = if is_blank s then fail bad_caveat else pass (some s)
text_caveat (some _) = fail bad_caveat

all_named : Fields → Bool
all_named end = true
all_named (field bot (str sha) fs) = not (is_blank bot) && (not (is_blank sha) && all_named fs)
all_named (field bot _ fs) = false

behind_caveat : Option Json → Check (Option Fields)
behind_caveat none = pass none
behind_caveat (some (obj behind)) = if all_named behind then pass (some behind) else fail bad_caveat
behind_caveat (some _) = fail bad_caveat

pub record Caveats : Type 0 where
  pub override : Option String
  pub bot_signal : Option String
  pub bots_behind_head : Option Fields

-- `_receipt_caveats(receipt)`
unfoldable pub receipt_caveats : Fields → Check Caveats
unfolding text_caveat behind_caveat all_named
receipt_caveats receipt = do
  override ← text_caveat (get receipt "override")
  bot_signal ← text_caveat (get receipt "bot_signal")
  behind ← behind_caveat (get receipt "bots_behind_head")
  pass (record { override = override; bot_signal = bot_signal; bots_behind_head = behind })

-- one list of texts against another
unfoldable pub same_texts : List String → List String → Bool
same_texts [] [] = true
same_texts (x ∷ xs) (y ∷ ys) = x == y && same_texts xs ys
same_texts _ _ = false

same_option : Option String → Option String → Bool
same_option none none = true
same_option (some a) (some b) = a == b
same_option _ _ = false

-- every entry of the first object stands in the second
within : Fields → Fields → Bool
within end other = true
within (field k v fs) other =
    elim (as_text (get other k)) [
      | none ↦ false
      | some b ↦ elim (as_text (some v)) [ none ↦ false | some a ↦ a == b ]
    ]
    && within fs other

same_behind : Option Fields → Option Fields → Bool
same_behind none none = true
same_behind (some a) (some b) = within a b && within b a
same_behind _ _ = false

-- equality of two caveat dictionaries
unfoldable pub same_caveats : Caveats → Caveats → Bool
unfolding same_option within same_behind
same_caveats a b =
    same_option a.override b.override
    && (same_option a.bot_signal b.bot_signal && same_behind a.bots_behind_head b.bots_behind_head)

-- a list of texts none of which is empty
unfoldable pub text_list : Items → Option (List String)
text_list nil = some []
text_list (cons (str s) xs) =
    let rest = text_list xs in
    if s == "" then none else elim rest [ none ↦ none | some ss ↦ some (s ∷ ss) ]
text_list (cons _ xs) = none
