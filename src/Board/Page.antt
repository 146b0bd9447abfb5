-- ===== src/Board/Page.antt =====
-- boardModel of src/srnd/model_mem.go: one page of a board, a list of threads. A thread without a
-- first post is a panic, `none`.
pub mod Laws
use srndv.Base.{
  ℕ, Bool, true, false, not, Option, none, some, List, [], ◌∷◌, if◌then◌else◌, is_none, Bytes, same,
  ◌>>=◌,
}
use srndv.Board.{Post}
use srndv.Board.Thread.{Thread, thread_op, update_thread}

unfoldable pub thread_id : Thread → Option Bytes
thread_id th = do op ← thread_op th; some op.message_id

-- the loop of GetThread; the inner `none` is nil
unfoldable pub get_thread : Bytes → List Thread → Option (Option Thread)
get_thread message_id [] = some none
get_thread message_id (th ∷ ths) = do
  id ← thread_id th
  if same id message_id then some (some th) else get_thread message_id ths

unfoldable pub has_thread : Bytes → List Thread → Option Bool
has_thread message_id ths = do found ← get_thread message_id ths; some (not (is_none found))

-- PutThread: the first thread of the same id is replaced
unfoldable pub put_under : Bytes → Thread → List Thread → Option (List Thread)
put_under message_id new [] = some []
put_under message_id new (th ∷ ths) = do
  id ← thread_id th
  if same message_id id
      then some (new ∷ ths)
      else (do rest ← put_under message_id new ths; some (th ∷ rest))

unfoldable pub put_thread : Thread → List Thread → Option (List Thread)
put_thread new [] = some []
put_thread new (th ∷ ths) = do id ← thread_id new; put_under id new (th ∷ ths)

-- UpdateThread: the first thread of the id is updated in place
unfoldable pub update_on_page :
    (Bytes → Bytes → List (Option Post)) → Bytes → List Thread → Option (List Thread)
update_on_page get_replies message_id [] = some []
update_on_page get_replies message_id (th ∷ ths) = do
  id ← thread_id th
  if same id message_id
      then (do th' ← update_thread get_replies th; some (th' ∷ ths))
      else (do rest ← update_on_page get_replies message_id ths; some (th ∷ rest))
