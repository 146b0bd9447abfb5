-- ===== src/Expiration.antt =====
-- src/srnd/expiration.go: which articles expire. The calls only send the files to be deleted down a
-- channel and tell the database to delete threads; those are the effects, in their order. The
-- database's answers do not change within a call.
pub mod Orphans
use srndv.Base.{
  ℕ, Bool, true, false, ◌||◌, Option, none, some, List, [], ◌∷◌, ◌++◌, if◌then◌else◌, ◌>>=◌, map,
  Bytes, codes, same,
}
use srndv.Header.{Header, get, is_empty}

-- what expiration asks of the store of articles; headers are built by Add, as those of Header are
pub record ArticleStore : Type 0 where
  pub get_headers : Bytes → Option Header
  pub has_article : Bytes → Bool
  pub get_filename : Bytes → Bytes

-- and of the database; `none` is an error, or nil
pub record Database : Type 0 where
  pub get_root_posts_for_expiration : Bytes → ℕ → List Bytes
  -- GetMessageIDByHeader of References
  pub get_replies : Bytes → Option (List Bytes)
  pub get_posts_before : ℕ → Option (List Bytes)
  pub get_all_articles : Option (List Bytes)

pub data Effect : Type 0 where
  delete_event : Bytes → Effect
  delete_thread : Bytes → Effect

abbrev pub references : Bytes
references = codes "References"

module _ (database : Database) (store : ArticleStore) where
  unfoldable pub send_replies : Option (List Bytes) → List Effect
  send_replies none = []
  send_replies (some replies) = map (λ reply. delete_event (store.get_filename reply)) replies

  -- ExpireThread
  unfoldable pub expire_thread : Bytes → List Effect
  expire_thread root = send_replies (database.get_replies root) ++ delete_thread root ∷ []

  -- is a post with these References a root post?
  unfoldable pub is_root : Bytes → Bytes → Bool
  is_root ref message_id = is_empty ref || same ref message_id

  unfoldable pub expire_root : Bytes → Option Header → Option (List Effect)
  expire_root message_id none = some []
  expire_root message_id (some headers) = do
    ref ← get headers references []
    some (if is_root ref message_id then expire_thread message_id else [])

  -- ExpirePost
  unfoldable pub expire_post : Bytes → Option (List Effect)
  expire_post message_id = do
    effects ← expire_root message_id (store.get_headers message_id)
    some (effects ++ delete_event (store.get_filename message_id) ∷ [])

  unfoldable pub expire_threads : List Bytes → List Effect
  expire_threads [] = []
  expire_threads (root ∷ roots) = expire_thread root ++ expire_threads roots

  -- ExpireGroup
  unfoldable pub expire_group : Bytes → ℕ → List Effect
  expire_group newsgroup keep =
      expire_threads (database.get_root_posts_for_expiration newsgroup keep)

  unfoldable pub expire_posts : List Bytes → Option (List Effect)
  expire_posts [] = some []
  expire_posts (msgid ∷ msgids) = do
    effects ← expire_post msgid
    more ← expire_posts msgids
    some (effects ++ more)

  -- ExpireBefore, which only logs an error
  unfoldable pub expire_before : ℕ → Option (List Effect)
  expire_before t = elim (database.get_posts_before t) [
    | none ↦ some []
    | some articles ↦ expire_posts articles
  ]

  -- one round of ExpireOrphans
  unfoldable pub expire_orphan : Bytes → Option Header → Option (List Effect)
  expire_orphan message_id none = expire_post message_id
  expire_orphan message_id (some hdr) = do
    root ← get hdr references []
    if is_empty root || store.has_article root then some [] else expire_post message_id

  unfoldable pub expire_orphans_of : List Bytes → Option (List Effect)
  expire_orphans_of [] = some []
  expire_orphans_of (article ∷ articles) = do
    effects ← expire_orphan article (store.get_headers article)
    more ← expire_orphans_of articles
    some (effects ++ more)

  -- ExpireOrphans
  unfoldable pub expire_orphans : Option (List Effect)
  expire_orphans = elim database.get_all_articles [
    | none ↦ some []
    | some articles ↦ expire_orphans_of articles
  ]
