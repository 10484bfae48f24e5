-- ===== src/PrWatch/Comments/Raw.antt =====
-- What a forge sends of a comment, for scripts/pr_watch.py: the fields that it reads, `_author`, and
-- the entries that `collect_comments` and `all_comments` make of it. The hash digests of `hashlib`
-- and the list rendering of `json.dumps` are parameters.
use agentic_dev_kit.Base.{ℕ, String, Option, none, some, List, eqb, if◌then◌else◌, or_text, ◌==◌}

-- What the forge sends for an author: nothing that is truthy, an object with its `login` and
-- `name`, or a bare text.
pub data AuthorField : Type 0 where
  absent : AuthorField
  person : Option String → Option String → AuthorField
  named : String → AuthorField

-- A platform id: missing, a number, or a text.
pub data Ident : Type 0 where
  no_ident : Ident
  number : ℕ → Ident
  node : String → Ident

-- The commit of a review: an object with its `oid`, or no object.
pub data CommitField : Type 0 where
  no_commit : CommitField
  commit_object : Option String → CommitField

-- An issue comment, a review submission or an inline comment, as gh or REST spells it. A text field
-- is `none` where the value is missing or no text.
pub record RawComment : Type 0 where
  pub id : Ident
  pub node_id : Option String
  pub author : AuthorField
  pub user : AuthorField
  pub body : Option String
  pub created_at : Option String
  pub path : Option String
  pub line : Option ℕ
  pub original_line : Option ℕ
  pub state : Option String
  pub commit : CommitField
  pub commit_id : Option String
  pub submitted_at : Option String

pub data Kind : Type 0 where
  issue review inline : Kind

unfoldable pub kind_text : Kind → String
kind_text issue = "issue"
kind_text review = "review"
kind_text inline = "inline"

pub record Comment : Type 0 where
  pub key : String
  pub content_key : String
  pub ack_key : Option String
  pub kind : Kind
  pub author : String
  pub path : Option String
  pub line : Option ℕ
  pub body : String
  pub unavailable : Option String
  pub untrusted : Option String

-- what `all_comments` keeps of an entry
pub record Entry : Type 0 where
  pub kind : Kind
  pub author : String
  pub path : Option String
  pub line : Option ℕ
  pub state : Option String
  pub body : String

-- `hashlib`'s hexadecimal digests and `json.dumps` of a list of texts
pub record Digest : Type 0 where
  pub sha1 : String → String
  pub sha256 : String → String
  pub dumps : List String → String

-- the author fields that are truthy
unfoldable pub author_name : AuthorField → Option String
author_name absent = none
author_name (person login name) = some (or_text login (or_text name "?"))
author_name (named s) = if s == "" then none else some s

-- `_author(raw)`
unfoldable pub author_of : RawComment → String
unfolding author_name
author_of raw = elim (author_name raw.author) [
  | some a ↦ a
  | none ↦ elim (author_name raw.user) [ some a ↦ a | none ↦ "?" ]
]

unfoldable pub body_of : RawComment → String
body_of raw = or_text raw.body ""

-- `raw.get("line") or raw.get("original_line")`
unfoldable pub line_of : RawComment → Option ℕ
line_of raw = elim raw.line [
  | none ↦ raw.original_line
  | some n ↦ if eqb n 0 then raw.original_line else some n
]
