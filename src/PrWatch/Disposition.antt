-- ===== src/PrWatch/Disposition.antt =====
-- `disposition_body` and `_flat` of scripts/pr_watch.py: the comment that a recorded review posts.
use Prim.Native.Char.{Char, code}
use agentic_dev_kit.Base.{
  ℕ, ◌-◌, String, Bool, ◌&&◌, ◌||◌, some, [], ◌∷◌, map, if◌then◌else◌, leb, strip, squeeze, concat,
  join, take_chars, ◌==◌,
}
use agentic_dev_kit.Base.Json.{str, Fields, get}
use agentic_dev_kit.PrWatch.Receipt.{receipt_lenses}

-- the control characters, `unicodedata.category(c) == "Cc"`
is_control : Char → Bool
is_control c = leb (code c) 31 || (leb 127 (code c) && leb (code c) 159)

blank : Char
blank = " "

clean : String → String
clean String.[] = ""
clean (String.◌∷◌ c s) = String.◌∷◌ (if is_control c then blank else c) (clean s)

-- `_flat(text, n)`
unfoldable pub flat : ℕ → String → String
unfolding clean is_control blank
flat n text =
    let line = squeeze (clean text) in
    if take_chars n line == line then line else concat (take_chars (n - 1) line ∷ "…" ∷ [])

text_at : Fields → String → String
text_at fs k = elim (get fs k) [ some (str s) ↦ s | _ ↦ "" ]

-- `disposition_body(receipt, disposition)`, for a receipt whose head and source are texts
unfoldable pub disposition_body : Fields → String → String
unfolding text_at
disposition_body receipt disposition =
    let head = text_at receipt "head" in
    let lenses = join ", " (map (flat 40) (receipt_lenses receipt)) in
    join "\n" (
      concat ("<!-- pr-watch:disposition head=" ∷ head ∷ " -->" ∷ [])
      ∷ concat (
          "## Review disposition — "
          ∷ (if take_chars 7 head == "" then "(unknown head)" else take_chars 7 head)
          ∷ [])
      ∷ ""
      ∷ concat ("- reviewed head: `" ∷ flat 60 head ∷ "`" ∷ [])
      ∷ concat ("- review source: `" ∷ flat 120 (text_at receipt "source") ∷ "`" ∷ [])
      ∷ concat ("- lenses: " ∷ (if lenses == "" then "(none named)" else lenses) ∷ [])
      ∷ ""
      ∷ strip disposition
      ∷ ""
      ∷ [])
