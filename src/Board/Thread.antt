-- ===== src/Board/Thread.antt =====
-- thread of src/srnd/model_mem.go. A thread holds its first post and the replies; a reply may be
-- nil. A method of a nil post, and the first of no posts, is a panic, `none`.
pub mod Counts
use srndv.Base.{
  ℕ, zero, suc, ◌+◌, ◌-◌, Bool, true, false, Option, none, some, List, [], ◌∷◌, ◌++◌, ltb,
  if◌then◌else◌, length, drop, Bytes, codes, ◌>>=◌,
}
use srndv.Board.{Post, num_attachments, set_index, post_prefix}

pub record Link : Type 0 where
  pub text : Bytes
  pub link : Bytes

pub record Thread : Type 0 where
  pub allow_files : Bool
  pub prefix : Bytes
  pub links : List Link
  pub posts : List (Option Post)
  pub dirty : Bool
  pub truncated_post_count : ℕ
  pub truncated_image_count : ℕ

-- createThreadModel
unfoldable pub create_thread_model : Post → Thread
create_thread_model op = record {
  allow_files = false;
  prefix = post_prefix op;
  links = record { text = op.board; link = post_prefix op ++ (op.board ++ codes "-0.html") } ∷ [];
  posts = some op ∷ [];
  dirty = true;
  truncated_post_count = 0;
  truncated_image_count = 0;
}

abbrev pub first_post : List (Option Post) → Option Post
first_post [] = none
first_post (p ∷ _) = p

unfoldable pub thread_op : Thread → Option Post
thread_op self = first_post self.posts

unfoldable pub post_count : Thread → ℕ
post_count self = length self.posts

unfoldable pub count_images : List (Option Post) → Option ℕ
count_images [] = some 0
count_images (none ∷ ps) = none
count_images (some p ∷ ps) = do n ← count_images ps; some (num_attachments p + n)

unfoldable pub image_count : Thread → Option ℕ
image_count self = count_images self.posts

-- the loop of Replies: every post that is not nil is given its place
unfoldable pub place_posts : ℕ → List (Option Post) → List (Option Post)
place_posts idx [] = []
place_posts idx (none ∷ ps) = none ∷ place_posts (suc idx) ps
place_posts idx (some p ∷ ps) = some (set_index idx p) ∷ place_posts (suc idx) ps

abbrev pub present : List (Option Post) → List Post
present [] = []
present (none ∷ ps) = present ps
present (some p ∷ ps) = p ∷ present ps

abbrev pub place_replies : List (Option Post) → List (Option Post)
place_replies [] = []
place_replies (p ∷ ps) = p ∷ place_posts 1 ps

-- Replies, which changes the posts of the thread too
unfoldable pub replies : Thread → Thread × List Post
replies self =
    (record self { posts = place_replies self.posts }, present (drop 1 (place_replies self.posts)))

abbrev pub trunc : ℕ
trunc = 5

-- the posts that a truncated thread shows
abbrev pub shown_posts : List (Option Post) → List (Option Post)
shown_posts [] = []
shown_posts (p ∷ ps) = p ∷ drop (suc (length ps) - trunc) (p ∷ ps)

-- thread.Truncate
unfoldable pub truncate_thread : Thread → Option Thread
truncate_thread self =
    if ltb trunc (length self.posts)
    then (do
      imgs ← count_images (shown_posts self.posts)
      all ← image_count self
      some (record {
        allow_files = self.allow_files;
        prefix = self.prefix;
        links = self.links;
        posts = shown_posts self.posts;
        dirty = false;
        truncated_post_count = length self.posts - trunc;
        truncated_image_count = all - imgs;
      }))
    else some self

unfoldable pub missing_post_count : Thread → ℕ
missing_post_count self = self.truncated_post_count

unfoldable pub missing_image_count : Thread → ℕ
missing_image_count self = self.truncated_image_count

unfoldable pub has_omitted_replies : Thread → Bool
has_omitted_replies self = ltb 0 self.truncated_post_count

unfoldable pub mark_dirty : Thread → Thread
mark_dirty self = record self { dirty = true }

-- thread.Update, with the replies that the database has below the root
unfoldable pub update_thread : (Bytes → Bytes → List (Option Post)) → Thread → Option Thread
update_thread get_replies self = do
  op ← thread_op self
  some (record self { posts = some op ∷ get_replies self.prefix op.message_id; dirty = false })
