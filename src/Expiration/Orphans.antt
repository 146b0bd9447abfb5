-- ===== src/Expiration/Orphans.antt =====
-- What expires, and what does not, in src/srnd/expiration.go.
use srndv.Base.{
  ℕ, ◌≡◌, ◌⊎◌, inl, inr, same_iff, Bool-cases, refl, ap, ◌∙◌, Bool, true, false, ◌||◌, some, List,
  [], ◌∷◌, ◌++◌, All, Bytes, map, append_assoc, if◌then◌else◌,
}
use srndv.Header.{Header, lookup, is_empty, IsWellFormed}
use srndv.Header.Laws.{joined_or, get_joined}
use srndv.Expiration.{
  ArticleStore, Database, delete_event, delete_thread, references, send_replies, expire_thread,
  is_root, expire_root, expire_post, expire_threads, expire_group, expire_orphan, expire_orphans_of,
  expire_orphans,
}

-- the root post that a header names, empty for a root post
abbrev pub root_of : Header → Bytes
root_of hdr = joined_or [] (lookup references hdr)

module _ (database : Database) (store : ArticleStore) where
  -- an article whose file is there, and which is a root post or whose root post is there
  pub record IsAnchored (id : Bytes) : Type 0 where
    pub hdr : Header
    pub on_disk : store.get_headers id ≡ some hdr
    pub well_formed : IsWellFormed hdr
    pub has_root : (is_empty (root_of hdr) || store.has_article (root_of hdr)) ≡ true

  expire_orphans_of-anchored :
      (ids : List Bytes) → All IsAnchored ids → expire_orphans_of database store ids ≡ some []
  unfolding expire_orphans_of expire_orphan
  expire_orphans_of-anchored [] h = refl
  expire_orphans_of-anchored (id ∷ ids) (a, h) = rw (a.on_disk) (
      rw (get_joined a.hdr references [] a.well_formed)
        (rw (a.has_root) (rw (expire_orphans_of-anchored ids h) refl)))

  -- ExpireOrphans deletes nothing and no thread where every article in the database has a file and
  -- is a root post or has its root post in the store.
  pub anchored_articles_stay :
      (ids : List Bytes)
      → database.get_all_articles ≡ some ids
      → All IsAnchored ids
      → expire_orphans database store ≡ some []
  unfolding expire_orphans
  anchored_articles_stay ids all h = rw (all, expire_orphans) (expire_orphans_of-anchored ids h)

  is_root-true : (ref id : Bytes) → is_root database store ref id ≡ true → (ref ≡ []) ⊎ (ref ≡ id)
  unfolding is_root
  is_root-true [] id h = inl refl
  is_root-true (c ∷ ref) id h = inr ((same_iff (c ∷ ref) id).0 h)

  is_root-false :
      (ref id : Bytes) → is_root database store ref id ≡ false → ¬ ((ref ≡ []) ⊎ (ref ≡ id))
  unfolding is_root
  is_root-false [] id h = cc h
  is_root-false (c ∷ ref) id h =
      λ r. elim r [ inl e ↦ cc e | inr e ↦ cc (h, (same_iff (c ∷ ref) id).1 e) ]

  expire_post-root :
      (id : Bytes) (hdr : Header) (replies : List Bytes) (root : Bool)
      → store.get_headers id ≡ some hdr
      → IsWellFormed hdr
      → database.get_replies id ≡ some replies
      → is_root database store (root_of hdr) id ≡ root
      → expire_post database store id
        ≡ some (
            (if root
              then map (λ r. delete_event (store.get_filename r)) replies ++ delete_thread id ∷ []
              else [])
            ++ delete_event (store.get_filename id) ∷ [])
  unfolding expire_post expire_root expire_thread send_replies
  expire_post-root id hdr replies root there w asked e =
      rw there (rw (get_joined hdr references [] w) (rw asked (rw e refl)))

  -- Expiring a post whose header is there. A post whose References are missing, empty or its own
  -- id takes the files of all its replies, its thread and then its own file with it; every other
  -- post goes with its own file alone.
  pub expire_post_lem :
      (id : Bytes) (hdr : Header) (replies : List Bytes)
      → store.get_headers id ≡ some hdr
      → IsWellFormed hdr
      → database.get_replies id ≡ some replies
      → (((root_of hdr ≡ []) ⊎ (root_of hdr ≡ id))
          × (expire_post database store id
              ≡ some (
                  map (λ r. delete_event (store.get_filename r)) replies
                  ++ (delete_thread id ∷ delete_event (store.get_filename id) ∷ []))))
        ⊎ ((¬ ((root_of hdr ≡ []) ⊎ (root_of hdr ≡ id)))
            × (expire_post database store id ≡ some (delete_event (store.get_filename id) ∷ [])))
  expire_post_lem id hdr replies there w asked =
      elim (Bool-cases (is_root database store (root_of hdr) id)) [
        | inl e ↦ inl (
          is_root-true (root_of hdr) id e,
          expire_post-root id hdr replies true there w asked e
              ∙ ap some (
                  append_assoc (map (λ r. delete_event (store.get_filename r)) replies)
                    (delete_thread id ∷ []) _),
        )
        | inr e ↦ inr (
          is_root-false (root_of hdr) id e,
          expire_post-root id hdr replies false there w asked e,
        )
      ]

  expire_threads-bare :
      (roots : List Bytes)
      → All (λ r. database.get_replies r ≡ some []) roots
      → expire_threads database store roots ≡ map delete_thread roots
  unfolding expire_threads expire_thread send_replies
  expire_threads-bare [] h = refl
  expire_threads-bare (r ∷ rs) h =
      rw (h.0) (ap (◌∷◌ (delete_thread r)) (expire_threads-bare rs h.1))

  -- ExpireGroup over threads without replies only tells the database to delete them: no file is
  -- sent for deletion, so that the root posts stay on disk.
  pub expire_group_leaves_roots :
      (newsgroup : Bytes) (keep : ℕ)
      → All
          (λ r. database.get_replies r ≡ some [])
          (database.get_root_posts_for_expiration newsgroup keep)
      → expire_group database store newsgroup keep
        ≡ map delete_thread (database.get_root_posts_for_expiration newsgroup keep)
  unfolding expire_group
  expire_group_leaves_roots newsgroup keep h = expire_threads-bare _ h
