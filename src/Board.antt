-- ===== src/Board.antt =====
-- src/srnd/model_mem.go: the models of posts, threads and pages of a board, as the daemon keeps
-- them in memory for its pages. The strings that only templates and JSON use are left out; the
-- hash of a message id is a parameter.
pub mod Thread
pub mod Page
pub mod Posts
use srndv.Base.{
  ℕ, ◌+◌, Bool, true, false, not, ◌||◌, Option, none, some, List, [], ◌∷◌, ◌++◌, ◌==◌, ltb,
  if◌then◌else◌, length, take, Bytes, codes, same, split,
}
use srndv.Header.{is_empty}
use srndv.Nntp.Stream.{first_or_nil}

pub record Attachment : Type 0 where
  pub prefix : Bytes
  pub path : Bytes
  pub name : Bytes

unfoldable pub attachment_hash : Attachment → Bytes
attachment_hash self = first_or_nil (split 46 self.path)

unfoldable pub thumbnail : Attachment → Bytes
thumbnail self = self.prefix ++ (codes "thm/" ++ (self.path ++ codes ".jpg"))

unfoldable pub source : Attachment → Bytes
source self = self.prefix ++ (codes "img/" ++ self.path)

pub record Post : Type 0 where
  pub truncated : Bool
  pub prefix : Bytes
  pub board : Bytes
  pub post_name : Bytes
  pub post_subject : Bytes
  pub post_message : Bytes
  pub message_id : Bytes
  pub message_path : Bytes
  pub addr : Bytes
  pub op : Bool
  pub posted : ℕ
  pub parent : Bytes
  pub sage : Bool
  pub key : Bytes
  pub files : List Attachment
  pub index : ℕ

unfoldable pub post_index : Post → ℕ
post_index self = self.index + 1

unfoldable pub set_index : ℕ → Post → Post
set_index idx self = record self { index = idx }

unfoldable pub num_attachments : Post → ℕ
num_attachments self = length self.files

abbrev pub first_thumbnail : Bytes → List Attachment → Bytes
first_thumbnail prefix [] = prefix ++ codes "static/placeholder.png"
first_thumbnail prefix (a ∷ _) = thumbnail a

unfoldable pub representative_thumb : Post → Bytes
representative_thumb self = first_thumbnail self.prefix self.files

unfoldable pub is_op : Post → Bool
is_op self = same self.parent self.message_id || is_empty self.parent

unfoldable pub css_class : Post → Bytes
css_class self = if is_op self then codes "post op" else codes "post reply"

-- a prefix that is not set falls back to "/"
unfoldable pub post_prefix : Post → Bytes
post_prefix self = if is_empty self.prefix then codes "/" else self.prefix

abbrev pub found_or : ℕ → ℕ → Bytes → Option Bytes → Option Bytes
found_or b c cs (some t) = some t
found_or b c cs none = if c == b then some cs else none

-- what stands behind the last byte b
unfoldable pub after_last : ℕ → Bytes → Option Bytes
after_last b [] = none
after_last b (c ∷ cs) = found_or b c cs (after_last b cs)

abbrev pub or_all : Bytes → Option Bytes → Bytes
or_all s none = s
or_all s (some t) = t

-- the server at which the post was made: the last name of its path
unfoldable pub frontend_of_path : Bytes → Bytes
frontend_of_path path = or_all path (after_last b'!' path)

unfoldable pub post_frontend : Post → Bytes
post_frontend self = frontend_of_path self.message_path

module _ (hash_message_id : Bytes → Bytes) where
  unfoldable pub post_hash : Post → Bytes
  post_hash self = hash_message_id self.message_id

  unfoldable pub reference_hash : Post → Bytes
  reference_hash self = if is_empty self.parent then post_hash self else hash_message_id self.parent

  unfoldable pub post_url : Post → Bytes
  post_url self =
      post_prefix self
      ++ (codes "thread-" ++ (hash_message_id self.parent ++ (codes ".html#" ++ post_hash self)))

-- a text of more than n bytes, cut to n and marked
unfoldable pub shorten : ℕ → Bytes → Bytes → Bytes
shorten n mark s = if ltb n (length s) then take n s ++ mark else s

abbrev pub truncation_mark : Bytes
truncation_mark = 10 ∷ (codes "..." ++ (10 ∷ (codes "[Post Truncated]" ++ 10 ∷ [])))

-- post.Truncate; the index is not copied
unfoldable pub truncate_post : Post → Post
truncate_post self = record {
  truncated = true;
  prefix = self.prefix;
  board = self.board;
  post_name = shorten 100 (codes "...") self.post_name;
  post_subject = shorten 100 (codes "...") self.post_subject;
  post_message = shorten 500 truncation_mark self.post_message;
  message_id = self.message_id;
  message_path = self.message_path;
  addr = self.addr;
  op = self.op;
  posted = self.posted;
  parent = self.parent;
  sage = self.sage;
  key = self.key;
  files = self.files;
  index = 0;
}
