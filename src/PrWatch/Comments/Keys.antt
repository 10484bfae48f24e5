-- ===== src/PrWatch/Comments/Keys.antt =====
-- The keys of a comment in scripts/pr_watch.py: `_comment_key`, `_content_key` and `_ack_key`.
use agentic_dev_kit.Base.{
  String, ◌||◌, Option, none, some, [], ◌∷◌, eqb, if◌then◌else◌, lower, strip, squeeze, take_chars,
  show, concat, ◌==◌,
}
use agentic_dev_kit.PrWatch.Comments.Raw.{
  AuthorField, Ident, RawComment, Kind, Digest, absent, person, named, no_ident, number, node,
  kind_text, author_name, author_of, body_of,
}

abbrev text_or_none : Option String → String
text_or_none none = "None"
text_or_none (some s) = s

module _ (dg : Digest) where
  fallback_ident : RawComment → String
  fallback_ident raw = take_chars 12 (
      dg.sha1 (
        concat (
          text_or_none raw.created_at
          ∷ "|"
          ∷ author_of raw
          ∷ "|"
          ∷ take_chars 80 (body_of raw)
          ∷ [])))

  ident_text : RawComment → Ident → String
  ident_text raw no_ident = fallback_ident raw
  ident_text raw (number n) = show n
  ident_text raw (node s) = if s == "" then fallback_ident raw else s

  -- `_comment_key(kind, raw)`
  unfoldable pub comment_key : Kind → RawComment → String
  unfolding ident_text fallback_ident
  comment_key kind raw = concat (kind_text kind ∷ ":" ∷ ident_text raw raw.id ∷ [])

  -- `_content_key(kind, author, body)`
  unfoldable pub content_key : Kind → String → String → String
  content_key kind author body = concat (
      "content:"
      ∷ take_chars 16
          (dg.sha1 (concat (kind_text kind ∷ "|" ∷ author ∷ "|" ∷ lower (squeeze body) ∷ [])))
      ∷ [])

-- the occurrence that `_ack_key` binds to: a node id that is not blank, or the `id`
occurrence_of : Ident → Option String
occurrence_of no_ident = none
occurrence_of (number n) = if eqb n 0 then none else some (show n)
occurrence_of (node s) = if strip s == "" then none else some s

unfoldable pub occurrence : RawComment → Option String
unfolding occurrence_of
occurrence raw = elim raw.node_id [
  | none ↦ occurrence_of raw.id
  | some s ↦ if strip s == "" then occurrence_of raw.id else some s
]

-- the author that `_ack_key` binds to, `none` where it has no usable name
login_of : AuthorField → Option String
login_of absent = none
login_of (person login name) = login
login_of (named s) = some s

usable : Option String → Option String
usable none = none
usable (some s) = if strip s == "" || s == "?" then none else some s

unfoldable pub ack_author : RawComment → Option String
unfolding login_of usable
ack_author raw = elim (author_name raw.author) [
  | some a ↦ usable (login_of raw.author)
  | none ↦ usable (login_of raw.user)
]

module _ (dg : Digest) where
  -- `_ack_key(kind, raw)`: one token for the occurrence, its author and its content
  unfoldable pub ack_key : Kind → RawComment → Option String
  ack_key kind raw = elim (occurrence raw) [
    | none ↦ none
    | some ident ↦ elim (ack_author raw) [
      | none ↦ none
      | some author ↦ some (
          concat (
            "ack:v1:"
            ∷ dg.sha256
                (dg.dumps (kind_text kind ∷ ident ∷ author ∷ lower (squeeze (body_of raw)) ∷ []))
            ∷ []))
    ]
  ]
