-- ===== src/Examples/Boards.antt =====
-- Posts, threads and a page, for src/srnd/model_mem.go.
use srndv.Base.{
  ℕ, ◌+◌, ◌≡◌, refl, false, some, List, [], ◌∷◌, ◌++◌, map, length, Bytes, codes, arith,
}
use srndv.Board.{Post, Attachment}
use srndv.Board.Thread.{
  Thread, truncate_thread, post_count, missing_post_count, image_count, missing_image_count,
  thread_op,
}
use srndv.Board.Thread.Counts.{truncate_thread_lem}
use srndv.Board.Page.{thread_id}

abbrev file : Attachment
file = record { prefix = codes "/"; path = codes "a.png"; name = codes "cat.png" }

abbrev post_of : Bytes → Post
post_of message_id = record {
  truncated = false;
  prefix = codes "/";
  board = codes "overchan.test";
  post_name = codes "Anonymous";
  post_subject = codes "None";
  post_message = codes "hello";
  message_id = message_id;
  message_path = codes "a!b";
  addr = [];
  op = false;
  posted = 0;
  parent = codes "<op@a>";
  sage = false;
  key = [];
  files = file ∷ [];
  index = 0;
}

abbrev op : Post
op = post_of (codes "<op@a>")

abbrev answers : List Post
answers =
    post_of (codes "<r1@a>")
    ∷ post_of (codes "<r2@a>")
    ∷ post_of (codes "<r3@a>")
    ∷ post_of (codes "<r4@a>")
    ∷ post_of (codes "<r5@a>")
    ∷ []

abbrev thread_of : Post → List Post → Thread
thread_of p ps = record {
  allow_files = false;
  prefix = codes "/";
  links = [];
  posts = some p ∷ map some ps;
  dirty = false;
  truncated_post_count = 0;
  truncated_image_count = 0;
}

-- a thread of six posts
truncate_thread_lem_example :
    (t : Thread) × (truncate_thread (thread_of op answers) ≡ some t)
    × ((hidden : List Post) × (last : List Post) × (answers ≡ hidden ++ last)
        × (length last ≡ 5)
        × (t.posts ≡ some op ∷ map some last))
    × (post_count t + missing_post_count t ≡ post_count (thread_of op answers) + 1)
    × ((images : ℕ) × (image_count t ≡ some images)
        × (image_count (thread_of op answers) ≡ some (images + missing_image_count t)))
truncate_thread_lem_example =
    truncate_thread_lem (thread_of op answers) op answers refl (omega arith)

thread_id-op : (p : Post) (ps : List Post) → thread_id (thread_of p ps) ≡ some p.message_id
unfolding thread_id thread_op
thread_id-op p ps = refl

abbrev page : List Thread
page = thread_of (post_of (codes "<x@a>")) [] ∷ thread_of op [] ∷ []
