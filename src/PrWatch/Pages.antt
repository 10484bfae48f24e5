-- ===== src/PrWatch/Pages.antt =====
-- The paginated REST reads of scripts/pr_watch.py, `_http_get_all` and `_http_get_all_wrapped`. One
-- request with the `rel="next"` link of its answer is a parameter; a `RuntimeError` is a value.
pub mod Complete
use agentic_dev_kit.Base.{
  ℕ, zero, suc, String, Bool, true, false, ◌&&◌, not, Option, none, some, List, [], ◌∷◌, ◌++◌,
  length, max, if◌then◌else◌, ltb, ◌==◌,
}
use agentic_dev_kit.Base.Json.{
  ℤ, pos, negsuc, Json, null, bool, int, float, str, arr, obj, Items, nil, cons, Fields, get,
}

-- an answer: the body and the next link; `failed` for a request that raises
pub data Fetched : Type 0 where
  failed : Fetched
  answered : Json → Option String → Fetched

pub data PageError : Type 0 where
  request_failed not_an_array not_an_object no_key key_not_an_array no_count bad_element : PageError

-- the items of one page, and the count that it sends
pub data Page : Type 0 where
  bad : PageError → Page
  good : List Fields → ℕ → Page

-- `_require_dict_items`
unfoldable pub objects : Items → Option (List Fields)
objects nil = some []
objects (cons (obj fs) xs) = elim (objects xs) [ none ↦ none | some rest ↦ some (fs ∷ rest) ]
objects (cons _ xs) = none

unfoldable pub page_of : Option (List Fields) → ℕ → Page
page_of none count = bad bad_element
page_of (some items) count = good items count

-- a page whose body is the array
unfoldable pub array_page : Json → Page
unfolding objects page_of
array_page (arr xs) = page_of (objects xs) 0
array_page _ = bad not_an_array

keyed_page : Option Json → Option Json → Page
unfolding objects page_of
keyed_page none count = bad no_key
keyed_page (some (arr xs)) (some (int (pos n))) = page_of (objects xs) n
keyed_page (some (arr xs)) _ = bad no_count
keyed_page (some _) count = bad key_not_an_array

-- a page that wraps the array in an object under a key, with its `total_count`
unfoldable pub wrapped_page : String → Json → Page
unfolding keyed_page
wrapped_page key (obj fs) = keyed_page (get fs key) (get fs "total_count")
wrapped_page key _ = bad not_an_object

-- the loop's variables when it ends: the items, the link that is left, and the largest count
pub record Walked : Type 0 where
  pub items : List Fields
  pub next : Option String
  pub total : ℕ

pub data Walk : Type 0 where
  raised : PageError → Walk
  walked : Walked → Walk

-- `while next_url`: a link that is there and not empty
unfoldable pub is_link : Option String → Bool
is_link none = false
is_link (some u) = not (u == "")

module _ (fetch : String → Fetched) (page : Json → Page) where
  -- one turn of the loop, from what the next turns give
  take_page : (Walked → Walk) → Walked → Option String → Page → Walk
  take_page next_turns w link (bad e) = raised e
  take_page next_turns w link (good items count) =
      next_turns (record { items = w.items ++ items; next = link; total = max w.total count })

  take_answer : (Walked → Walk) → Walked → Fetched → Walk
  unfolding take_page
  take_answer next_turns w failed = raised request_failed
  take_answer next_turns w (answered body link) = take_page next_turns w link (page body)

  unfoldable pub turn : (Walked → Walk) → Walked → Option String → Walk
  unfolding take_answer
  turn next_turns w none = walked w
  turn next_turns w (some u) = if u == "" then walked w else take_answer next_turns w (fetch u)

  -- at most so many turns
  unfoldable pub read_pages : ℕ → Walked → Walk
  unfolding turn
  read_pages zero w = walked w
  read_pages (suc n) w = turn (λ v. read_pages n v) w w.next

-- `_REST_MAX_PAGES`
abbrev pub rest_max_pages : ℕ
rest_max_pages = 20

-- what `_truncated_reads` records of a read
pub data Gap : Type 0 where
  at_ceiling : Gap
  short_of : ℕ → Gap

pub data Read : Type 0 where
  refused : PageError → Read
  read : List Fields → Option Gap → Read

unfoldable pub gap_of : Walked → Option ℕ → Option Gap
unfolding is_link
gap_of w expected = if is_link w.next then some at_ceiling else elim expected [
  | none ↦ none
  | some n ↦ if ltb (length w.items) n then some (short_of n) else none
]

unfoldable pub finish : Walk → (Walked → Option ℕ) → Read
unfolding gap_of
finish (raised e) expected = refused e
finish (walked w) expected = read w.items (gap_of w (expected w))

abbrev pub from_url : String → Walked
from_url url = record { items = []; next = some url; total = 0 }

-- `_http_get_all(url, token, max_pages=…, expected_count=…)`
unfoldable pub http_get_all : (String → Fetched) → ℕ → Option ℕ → String → Read
unfolding finish
http_get_all fetch max_pages expected url =
    finish (read_pages fetch array_page max_pages (from_url url)) (λ w. expected)

-- `_http_get_all_wrapped(url, token, key, max_pages=…)`
unfoldable pub http_get_all_wrapped : (String → Fetched) → ℕ → String → String → Read
unfolding finish
http_get_all_wrapped fetch max_pages key url =
    finish (read_pages fetch (wrapped_page key) max_pages (from_url url)) (λ w. some w.total)
