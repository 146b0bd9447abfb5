-- ===== src/Examples/Expiry.antt =====
-- A store of articles and a database, for src/srnd/expiration.go.
use srndv.Base.{◌≡◌, ◌⊎◌, refl, some, List, [], ◌∷◌, ◌++◌, Bytes, map, codes, same, if◌then◌else◌}
use srndv.Header.{Header, lookup, IsWellFormed}
use srndv.Expiration.{
  ArticleStore, Database, delete_event, delete_thread, references, expire_post, expire_orphans,
}
use srndv.Expiration.Orphans.{root_of, IsAnchored, anchored_articles_stay, expire_post_lem}

abbrev root : Bytes
root = codes "<op@a>"

-- a root post, and a reply to it
abbrev root_header : Header
root_header = (codes "Subject", codes "s" ∷ []) ∷ []

abbrev reply_header : Header
reply_header = (references, root ∷ []) ∷ []

abbrev reply : Bytes
reply = codes "<r1@a>"

abbrev store : ArticleStore
store = record {
  get_headers = λ id. if same id root then some root_header else some reply_header;
  has_article = λ id. same id root;
  get_filename = λ id. codes "articles/" ++ id;
}

-- a database whose threads have the replies given
abbrev database_of : List Bytes → Database
database_of replies = record {
  get_root_posts_for_expiration = λ newsgroup keep. root ∷ [];
  get_replies = λ id. some replies;
  get_posts_before = λ t. some (root ∷ []);
  get_all_articles = some (root ∷ reply ∷ []);
}

root-IsAnchored : IsAnchored (database_of []) store root
unfolding lookup same
root-IsAnchored = record {
  hdr = root_header;
  on_disk = refl;
  well_formed = ((λ e. cc e), tt);
  has_root = refl;
}

reply-IsAnchored : IsAnchored (database_of []) store reply
unfolding lookup same
reply-IsAnchored = record {
  hdr = reply_header;
  on_disk = refl;
  well_formed = ((λ e. cc e), tt);
  has_root = refl;
}

anchored_articles_stay_example : expire_orphans (database_of []) store ≡ some []
anchored_articles_stay_example =
    anchored_articles_stay (database_of []) store (root ∷ reply ∷ []) refl
      (root-IsAnchored, (reply-IsAnchored, tt))

root_found : store.get_headers root ≡ some root_header
unfolding same
root_found = refl

root_header-IsWellFormed : IsWellFormed root_header
root_header-IsWellFormed = ((λ e. cc e), tt)

expire_post_lem_example :
    (((root_of root_header ≡ []) ⊎ (root_of root_header ≡ root))
      × (expire_post (database_of (reply ∷ [])) store root
          ≡ some (
              map (λ r. delete_event (store.get_filename r)) (reply ∷ [])
              ++ (delete_thread root ∷ delete_event (store.get_filename root) ∷ []))))
    ⊎ ((¬ ((root_of root_header ≡ []) ⊎ (root_of root_header ≡ root)))
        × (expire_post (database_of (reply ∷ [])) store root
            ≡ some (delete_event (store.get_filename root) ∷ [])))
expire_post_lem_example =
    expire_post_lem (database_of (reply ∷ [])) store root root_header (reply ∷ []) root_found
      root_header-IsWellFormed refl
