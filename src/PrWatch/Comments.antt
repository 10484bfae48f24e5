-- ===== src/PrWatch/Comments.antt =====
-- The comment surfaces of scripts/pr_watch.py: `collect_comments`, `all_comments` and
-- `new_actionable`; the comments as they come in Comments/Raw, their keys in Comments/Keys.
mod Raw
mod Keys
pub mod Acks
unfoldable pub use Raw.*
unfoldable pub use Keys.*
use agentic_dev_kit.Base.{
  ℕ, String, Bool, true, false, ◌&&◌, ◌||◌, not, Option, none, some, List, [], ◌∷◌, ◌++◌, map, eqb,
  if◌then◌else◌, filter, elem, lower, strip, squeeze, take_chars, show, concat, or_text, ◌==◌,
}
use agentic_dev_kit.PrWatch.Config.{Config}
use agentic_dev_kit.PrWatch.Reviewer.{
  review_unavailable_reason, untrusted_review_unavailable_candidate, is_noise,
}

module _ (dg : Digest) where
  -- one appended entry of `collect_comments`
  unfoldable pub make_comment : Config → Kind → Option String → Option ℕ → RawComment → Comment
  make_comment cfg kind path line raw =
      let body = body_of raw in
      let author = author_of raw in
      record {
        key = comment_key dg kind raw;
        content_key = content_key dg kind author body;
        ack_key = ack_key dg kind raw;
        kind = kind;
        author = author;
        path = path;
        line = line;
        body = body;
        unavailable = review_unavailable_reason cfg body (some author);
        untrusted = untrusted_review_unavailable_candidate cfg body (some author);
      }

  -- `collect_comments(view, inline)`
  unfoldable pub collect_comments :
      Config → List RawComment → List RawComment → List RawComment → List Comment
  collect_comments cfg comments reviews inlines =
      map (make_comment cfg issue none none) comments
      ++ (map (make_comment cfg review none none)
            (filter (λ raw. not (strip (body_of raw) == "")) reviews)
          ++ map (λ raw. make_comment cfg inline raw.path (line_of raw) raw) inlines)

-- `all_comments(view, inline)`
unfoldable pub all_comments : List RawComment → List RawComment → List RawComment → List Entry
all_comments comments reviews inlines =
    map
      (λ raw. record {
        kind = issue;
        author = author_of raw;
        path = none;
        line = none;
        state = none;
        body = body_of raw;
      })
      comments
    ++ (map
          (λ raw. record {
            kind = review;
            author = author_of raw;
            path = none;
            line = none;
            state = raw.state;
            body = body_of raw;
          })
          reviews
        ++ map
            (λ raw. record {
              kind = inline;
              author = author_of raw;
              path = raw.path;
              line = line_of raw;
              state = none;
              body = body_of raw;
            })
            inlines)

-- whether the comment's token was acknowledged
unfoldable pub is_acked : List String → Comment → Bool
is_acked seen c = elim c.ack_key [ none ↦ false | some k ↦ elem k seen ]

-- `new_actionable(comments, seen)`
unfoldable pub new_actionable : Config → List Comment → List String → List Comment
new_actionable cfg comments seen =
    filter (λ c. not (is_acked seen c) && not (is_noise cfg c.body (some c.author))) comments

-- `all_seen_keys` of the report, before it is sorted
unfoldable pub comment_keys : Comment → List String
comment_keys c = elim c.ack_key [
  | none ↦ c.key ∷ c.content_key ∷ []
  | some k ↦ c.key ∷ c.content_key ∷ k ∷ []
]

unfoldable pub seen_keys : List Comment → List String
unfolding comment_keys
seen_keys [] = []
seen_keys (c ∷ cs) = comment_keys c ++ seen_keys cs
