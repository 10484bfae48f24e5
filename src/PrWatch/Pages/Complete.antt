-- ===== src/PrWatch/Pages/Complete.antt =====
-- What a paginated read returns: the pages of a chain of links, all of them or with the gap recorded.
use mathlib.Core.List.{append-nil, append_assoc}
use agentic_dev_kit.Base.{
  ℕ, zero, suc, ◌≤◌, String, ◌≡◌, refl, ap, sym, ◌∙◌, true, false, not, Option, none, some, List,
  [], ◌∷◌, ◌++◌, length, max, if◌then◌else◌, ltb, ◌==◌, arith, Bool-cases, inl, inr,
}
use mathlib.Core.Path.{subst}
use mathlib.Core.Bool.{true≢false}
use agentic_dev_kit.Base.Json.{Json, Fields}
use agentic_dev_kit.PrWatch.Pages.{
  Fetched, failed, answered, Page, bad, good, array_page, wrapped_page, Walked, Walk, raised,
  walked, is_link, take_page, take_answer, turn, read_pages, Gap, at_ceiling, short_of, Read,
  refused, read, gap_of, finish, from_url, http_get_all, http_get_all_wrapped,
}

pub concat_pages : List (List Fields) → List Fields
concat_pages [] = []
concat_pages (p ∷ ps) = p ++ concat_pages ps

-- the pages met by following the links from one to another, each answered and well formed, and the
-- largest count among them
pub data Chain (fetch : String → Fetched) (page : Json → Page)
    : Option String → List (List Fields) → ℕ → Option String → Type 0 where
  stays : {u : Option String} → Chain fetch page u [] 0 u
  turns :
      {u : String} {body : Json} {link last : Option String} {items : List Fields} {count total : ℕ}
      {pages : List (List Fields)}
      → (u == "") ≡ false
      → fetch u ≡ answered body link
      → page body ≡ good items count
      → Chain fetch page link pages total last
      → Chain fetch page (some u) (items ∷ pages) (max count total) last

-- what a walk of at most `n` turns from `start` ends with
pub record Followed (fetch : String → Fetched) (page : Json → Page) (n : ℕ) (start w : Walked)
    : Type 0 where
  pub pages : List (List Fields)
  pub total : ℕ
  pub chain : Chain fetch page start.next pages total w.next
  pub all_items : w.items ≡ start.items ++ concat_pages pages
  pub largest : w.total ≡ max start.total total
  pub bounded : length pages ≤ n
  pub exhausted : is_link w.next ≡ true → length pages ≡ n

module _ (fetch : String → Fetched) (page : Json → Page) where
  stopped :
      (n : ℕ) (start w : Walked)
      → walked start ≡ walked w
      → (is_link start.next ≡ true → 0 ≡ n)
      → Followed fetch page n start w
  unfolding concat_pages
  stopped n start w h e =
      let same : start ≡ w = cc h in
      subst (Followed fetch page n start) same (record {
        pages = [];
        total = 0;
        chain = stays;
        all_items = sym (append-nil start.items);
        largest = omega arith;
        bounded = omega arith;
        exhausted = e;
      })

  -- one page more
  grown :
      (n : ℕ) (start w : Walked) (u : String) (body : Json) (link : Option String)
      (items : List Fields) (count : ℕ)
      → start.next ≡ some u
      → (u == "") ≡ false
      → fetch u ≡ answered body link
      → page body ≡ good items count
      → Followed fetch page n
          (record { items = start.items ++ items; next = link; total = max start.total count })
          w
      → Followed fetch page (suc n) start w
  unfolding concat_pages
  grown n start w u body link items count at some_u asked well f = record {
    pages = items ∷ f.pages;
    total = max count f.total;
    chain = rw at (turns some_u asked well f.chain);
    all_items = f.all_items ∙ append_assoc start.items items (concat_pages f.pages);
    largest = f.largest ∙ omega arith;
    bounded = omega (arith, f.bounded);
    exhausted = λ l. ap suc (f.exhausted l);
  }

  module _ (n : ℕ) (start w : Walked)
      (rest : (v : Walked) → read_pages fetch page n v ≡ walked w → Followed fetch page n v w) where
    from_page :
        (u : String) (body : Json) (link : Option String) (p : Page)
        → start.next ≡ some u
        → (u == "") ≡ false
        → fetch u ≡ answered body link
        → page body ≡ p
        → take_page fetch page (λ v. read_pages fetch page n v) start link p ≡ walked w
        → Followed fetch page (suc n) start w
    unfolding take_page
    from_page u body link (bad e) at some_u asked well h = cc
    from_page u body link (good items count) at some_u asked well h =
        grown n start w u body link items count at some_u asked well (rest _ h)

    from_answer :
        (u : String) (a : Fetched)
        → start.next ≡ some u
        → (u == "") ≡ false
        → fetch u ≡ a
        → take_answer fetch page (λ v. read_pages fetch page n v) start a ≡ walked w
        → Followed fetch page (suc n) start w
    unfolding take_answer
    from_answer u failed at some_u asked h = cc
    from_answer u (answered body link) at some_u asked h =
        from_page u body link (page body) at some_u asked refl h

    from_link :
        (o : Option String)
        → start.next ≡ o
        → turn fetch page (λ v. read_pages fetch page n v) start o ≡ walked w
        → Followed fetch page (suc n) start w
    unfolding turn is_link
    from_link none at h =
        stopped (suc n) start w h (λ l. absurd (true≢false (sym l ∙ ap is_link at)))
    from_link (some u) at h = elim (Bool-cases (u == "")) [
      | inl y ↦
          stopped (suc n) start w
            (ap
                (λ b.
                  if b
                  then walked start
                  else take_answer fetch page (λ v. read_pages fetch page n v) start (fetch u))
                (sym y)
              ∙ h)
            (λ l. absurd (true≢false (sym l ∙ (ap is_link at ∙ ap not y))))
      | inr m ↦ from_answer u (fetch u) at m refl (
          ap
            (λ b.
              if b
              then walked start
              else take_answer fetch page (λ v. read_pages fetch page n v) start (fetch u))
            (sym m)
          ∙ h)
    ]

  read_pages-Followed :
      (n : ℕ) (start w : Walked)
      → read_pages fetch page n start ≡ walked w
      → Followed fetch page n start w
  unfolding read_pages
  read_pages-Followed zero start w h = stopped zero start w h (λ _. refl)
  read_pages-Followed (suc n) start w h =
      from_link n start w (λ v. read_pages-Followed n v w) start.next refl h

-- how a read that returns ends: with all the pages, or with the gap on record
pub data Ended (items : List Fields) (expected : Option ℕ) (n turns_taken : ℕ)
    (last : Option String) : Option Gap → Type 0 where
  cut :
      is_link last ≡ true
      → turns_taken ≡ n
      → Ended items expected n turns_taken last (some at_ceiling)
  short :
      {count : ℕ}
      → is_link last ≡ false
      → expected ≡ some count
      → ltb (length items) count ≡ true
      → Ended items expected n turns_taken last (some (short_of count))
  whole :
      is_link last ≡ false
      → ((count : ℕ) → expected ≡ some count → ltb (length items) count ≡ false)
      → Ended items expected n turns_taken last none

gap_Ended :
    (w : Walked) (expected : Option ℕ) (n taken : ℕ)
    → (is_link w.next ≡ true → taken ≡ n)
    → Ended w.items expected n taken w.next (gap_of w expected)
unfolding gap_of
gap_Ended w none n taken h = elim (Bool-cases (is_link w.next)) [
  | inl y ↦ rw y (cut y (h y))
  | inr m ↦ rw m (whole m (λ c e. cc e))
]
gap_Ended w (some c) n taken h = elim (Bool-cases (is_link w.next)) [
  | inl y ↦ rw y (cut y (h y))
  | inr m ↦ elim (Bool-cases (ltb (length w.items) c)) [
    | inl y ↦ rw (m, y) (short m refl y)
    | inr k ↦
        rw (m, k)
          (whole m (λ d e.
            ap (λ o. elim o [ none ↦ false | some b ↦ ltb (length w.items) b ]) (sym e) ∙ k))
  ]
]

-- what a read returned
pub record Delivered (fetch : String → Fetched) (page : Json → Page) (n : ℕ) (url : String)
    (expected : ℕ → Option ℕ) (items : List Fields) (gap : Option Gap) : Type 0 where
  pub pages : List (List Fields)
  pub total : ℕ
  pub last : Option String
  pub chain : Chain fetch page (some url) pages total last
  pub all_items : items ≡ concat_pages pages
  pub bounded : length pages ≤ n
  pub ended : Ended items (expected total) n (length pages) last gap

parts : Read → List Fields × Option Gap
parts (refused e) = ([], none)
parts (read items gap) = (items, gap)

finish_walk :
    (fetch : String → Fetched) (page : Json → Page) (n : ℕ) (url : String) (expected : ℕ → Option ℕ)
    (k : Walk) (items : List Fields) (gap : Option Gap)
    → read_pages fetch page n (from_url url) ≡ k
    → finish k (λ w. expected w.total) ≡ read items gap
    → Delivered fetch page n url expected items gap
unfolding finish parts concat_pages
finish_walk fetch page n url expected (raised e) items gap r h = cc h
finish_walk fetch page n url expected (walked w) items gap r h =
    let f = read_pages-Followed fetch page n (from_url url) w r in
    let largest : w.total ≡ f.total = f.largest ∙ omega arith in
    let ended = gap_Ended w (expected w.total) n (length f.pages) f.exhausted in
    subst (λ o. Delivered fetch page n url expected o.0 o.1) (ap parts h)
      (record {
        pages = f.pages;
        total = f.total;
        last = w.next;
        chain = f.chain;
        all_items = f.all_items;
        bounded = f.bounded;
        ended =
            subst
              (λ t.
                Ended w.items (expected t) n (length f.pages) w.next (gap_of w (expected w.total)))
              largest ended;
      })

-- What `_http_get_all` returns are the items of a chain of at most `max_pages` well-formed pages from
-- the URL on. No gap is recorded only if no link is left and no expected count is missed; a link that
-- is left means that `max_pages` were read, and is recorded, and so is a count that is missed.
pub http_get_all-Delivered :
    (fetch : String → Fetched) (n : ℕ) (expected : Option ℕ) (url : String) (items : List Fields)
    (gap : Option Gap)
    → http_get_all fetch n expected url ≡ read items gap
    → Delivered fetch array_page n url (λ t. expected) items gap
unfolding http_get_all
http_get_all-Delivered fetch n expected url items gap h =
    finish_walk fetch array_page n url (λ t. expected)
      (read_pages fetch array_page n (from_url url)) items gap refl h

-- What `_http_get_all_wrapped` returns are the items of a chain of at most `max_pages` pages, each with
-- its key and a count. No gap is recorded only if no link is left and there are as many items as the
-- largest count of the pages; a link that is left means that `max_pages` were read.
pub http_get_all_wrapped-Delivered :
    (fetch : String → Fetched) (n : ℕ) (key url : String) (items : List Fields) (gap : Option Gap)
    → http_get_all_wrapped fetch n key url ≡ read items gap
    → Delivered fetch (wrapped_page key) n url (λ t. some t) items gap
unfolding http_get_all_wrapped
http_get_all_wrapped-Delivered fetch n key url items gap h =
    finish_walk fetch (wrapped_page key) n url (λ t. some t)
      (read_pages fetch (wrapped_page key) n (from_url url)) items gap refl h
