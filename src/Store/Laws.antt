-- ===== src/Store/Laws.antt =====
-- What lib/store/fs.go keeps: articles by their ids.
use srndv.Base.{
  ℕ, ◌≡◌, ◌⊎◌, refl, sym, ap, ◌∙◌, false, Option, none, some, [], ◌∷◌, ltb, if◌then◌else◌, length,
  take, is_none, codes, Bytes, same, same_iff, same_refl, Bool-cases, Option-cases, inl, inr,
}
use srndv.Store.{
  StoreError, no_such_article, other, Disk, Files, Directory, find, remove, has_article,
  store_article, write_article, delete_article, open_article,
}

pub find-put :
    (id j text : Bytes) (files : Directory)
    → find j ((id, text) ∷ files) ≡ (if same id j then some text else find j files)
unfolding find
find-put id j text files = refl

pub find-remove_self : (id : Bytes) (files : Directory) → find id (remove id files) ≡ none
unfolding find remove
find-remove_self id [] = refl
find-remove_self id ((n, text) ∷ files) = elim (Bool-cases (same n id)) [
  | inl e ↦ rw e (find-remove_self id files)
  | inr e ↦ rw e (rw e (find-remove_self id files))
]

pub find-remove-other :
    (id j : Bytes)
    → same id j ≡ false
    → (files : Directory) → find j (remove id files) ≡ find j files
unfolding find remove
find-remove-other id j h [] = refl
find-remove-other id j h ((n, text) ∷ files) = elim (Bool-cases (same n id)) [
  | inl e ↦ rw e (find-remove-other id j h files ∙ sym (rw ((same_iff n id).0 e) (rw h refl)))
  | inr e ↦ rw e (ap (λ o. if same n j then some text else o) (find-remove-other id j h files))
]

-- what a write leaves of a text: all of it, or its first n bytes
abbrev pub IsPrefixOf : Bytes → Bytes → Type 0
IsPrefixOf short text = (n : ℕ) × (short ≡ take n text)

-- what the storage holds for an id after it was told to store r, with the error of that
abbrev pub AfterStore : Option Bytes → Option StoreError → Bytes → Option Bytes → Type 0
AfterStore (some old) e r now = now ≡ some old
AfterStore none none r now = now ≡ some r
AfterStore none (some e) r none = Unit
AfterStore none (some e) r (some text) = IsPrefixOf text r

-- what a deletion returns, and what the id has then, for the error of the disk and what it had
-- before
abbrev pub AfterDelete :
    Files → Option Bytes → Option Bytes → Files × Option StoreError → Option Bytes → Type 0
AfterDelete fs (some e) before r now = (r.0 ≡ fs) × (r.1 ≡ some (other e))
AfterDelete fs none none r now = (r.0 ≡ fs) × ((e : StoreError) × (r.1 ≡ some e))
AfterDelete fs none (some text) r now = (r.1 ≡ none) × (now ≡ none)

module _ (disk : Disk) where
  has_article_known :
      (fs : Files) (id text : Bytes) (o : Option Bytes)
      → disk.stat_error id ≡ o
      → find id fs.articles ≡ some text
      → (has_article disk fs id ≡ none) ⊎ ((e : Bytes) × (has_article disk fs id ≡ some (other e)))
  unfolding has_article
  has_article_known fs id text none h e = inl (rw (h, has_article) (rw (e, has_article)))
  has_article_known fs id text (some x) h e = inr (x, rw (h, has_article))

  has_article_new :
      (fs : Files) (id : Bytes) (o : Option Bytes)
      → disk.stat_error id ≡ o
      → find id fs.articles ≡ none
      → (has_article disk fs id ≡ some no_such_article)
        ⊎ ((e : Bytes) × (has_article disk fs id ≡ some (other e)))
  unfolding has_article
  has_article_new fs id none h e = inl (rw (h, has_article) (rw (e, has_article)))
  has_article_new fs id (some x) h e = inr (x, rw (h, has_article))

  pub store_article_known :
      (fs : Files) (r id text : Bytes)
      → find id fs.articles ≡ some text
      → (store_article disk fs r id).0 ≡ fs
  unfolding store_article
  store_article_known fs r id text e =
      elim (has_article_known fs id text (disk.stat_error id) refl e) [
        | inl h ↦ rw (h, store_article)
        | inr (x, h) ↦ rw (h, store_article)
      ]

  write_article_new :
      (fs : Files) (r id : Bytes)
      → find id fs.articles ≡ none
      → (let w = write_article disk fs r id in AfterStore none w.1.err r (find id w.0.articles))
  unfolding write_article find
  write_article_new fs r id e = elim (Option-cases (disk.open_error id)) [
    | inr (x, h) ↦ rw (h, write_article) (rw e tt)
    | inl h ↦
        rw (h, write_article)
          (elim (Option-cases (disk.write_error id)) [
            | inl k ↦ rw (k, write_article) (rw (same_refl id))
            | inr ((n, x), k) ↦
                rw (k, write_article)
                  (elim (Bool-cases (ltb n (length r))) [
                    | inl y ↦ rw y (rw (same_refl id) (n, refl))
                    | inr y ↦ rw y (rw (same_refl id))
                  ])
          ])
  ]

  -- StoreArticle of a text under an id, on every branch and whatever the disk answers: the text
  -- that an id has already stays, whatever is offered under it; under a new id all of the text is
  -- kept if there is no error, and if there is one nothing is kept or a first part of the text.
  pub store_article-open :
      (fs : Files) (r id : Bytes)
      → AfterStore
          (open_article disk fs id)
          (store_article disk fs r id).1.err
          r
          (open_article disk (store_article disk fs r id).0 id)
  unfolding open_article store_article
  store_article-open fs r id = elim (Option-cases (find id fs.articles)) [
    | inr (text, e) ↦
        rw e (ap (λ (f : Files). find id f.articles) (store_article_known fs r id text e) ∙ e)
    | inl e ↦ rw e (elim (has_article_new fs id (disk.stat_error id) refl e) [
      | inl h ↦ rw (h, store_article) (write_article_new fs r id e)
      | inr (x, h) ↦ rw (h, store_article) (rw e tt)
    ])
  ]

  write_article-other :
      (fs : Files) (r id j : Bytes)
      → same id j ≡ false
      → find j (write_article disk fs r id).0.articles ≡ find j fs.articles
  unfolding write_article find
  write_article-other fs r id j h = elim (Option-cases (disk.open_error id)) [
    | inr (x, k) ↦ rw (k, write_article) refl
    | inl k ↦
        rw (k, write_article)
          (elim (Option-cases (disk.write_error id)) [
            | inl k' ↦ rw (k', write_article) (rw h refl)
            | inr ((n, x), k') ↦
                rw (k', write_article)
                  (elim (Bool-cases (ltb n (length r))) [
                    | inl y ↦ rw y (rw h refl)
                    | inr y ↦ rw y (rw h refl)
                  ])
          ])
  ]

  store_article-other :
      (fs : Files) (r id j : Bytes) (o : Option StoreError)
      → has_article disk fs id ≡ o
      → same id j ≡ false
      → find j (store_article disk fs r id).0.articles ≡ find j fs.articles
  unfolding store_article
  store_article-other fs r id j none e h = rw (e, store_article) refl
  store_article-other fs r id j (some no_such_article) e h =
      rw (e, store_article) (write_article-other fs r id j h)
  store_article-other fs r id j (some (other x)) e h = rw (e, store_article) refl

  delete_article-fails :
      (fs : Files) (id e : Bytes)
      → disk.remove_error id ≡ some e
      → delete_article disk fs id ≡ (fs, some (other e))
  unfolding delete_article
  delete_article-fails fs id e h = rw (h, delete_article) refl

  pub delete_article-files :
      (fs : Files) (id : Bytes) (o : Option Bytes)
      → disk.remove_error id ≡ none
      → find id fs.articles ≡ o
      → delete_article disk fs id ≡ (
          if is_none o
          then (fs, some (other (codes "file does not exist")))
          else (record fs { articles = remove id fs.articles }, none))
  unfolding delete_article
  delete_article-files fs id none h e = rw (h, delete_article) (rw (e, delete_article) refl)
  delete_article-files fs id (some text) h e = rw (h, delete_article) (rw (e, delete_article) refl)

  delete_article-other :
      (fs : Files) (id j : Bytes) (f o : Option Bytes)
      → disk.remove_error id ≡ f
      → find id fs.articles ≡ o
      → same id j ≡ false
      → find j (delete_article disk fs id).0.articles ≡ find j fs.articles
  delete_article-other fs id j (some x) o k e h =
      ap (λ (r : Files × Option StoreError). find j r.0.articles) (delete_article-fails fs id x k)
  delete_article-other fs id j none none k e h =
      ap (λ (r : Files × Option StoreError). find j r.0.articles)
        (delete_article-files fs id none k e)
  delete_article-other fs id j none (some text) k e h =
      ap (λ (r : Files × Option StoreError). find j r.0.articles)
        (delete_article-files fs id (some text) k e)
      ∙ find-remove-other id j h fs.articles

  -- An article is stored and deleted under its own id only: what every other id has stays.
  pub articles_independent :
      (fs : Files) (r id j : Bytes)
      → same id j ≡ false
      → (open_article disk (store_article disk fs r id).0 j ≡ open_article disk fs j)
        × (open_article disk (delete_article disk fs id).0 j ≡ open_article disk fs j)
  unfolding open_article
  articles_independent fs r id j h = (
    store_article-other fs r id j (has_article disk fs id) refl h,
    delete_article-other fs id j (disk.remove_error id) (find id fs.articles) refl refl h,
  )

  -- Deleting, on every branch: an error of the disk is returned and no file changes; without one,
  -- an id whose article can be opened is deleted and cannot be opened any more, and for any other
  -- id there is an error and no file changes.
  pub delete_article-open :
      (fs : Files) (id : Bytes)
      → AfterDelete fs
          (disk.remove_error id)
          (open_article disk fs id)
          (delete_article disk fs id)
          (open_article disk (delete_article disk fs id).0 id)
  unfolding open_article
  delete_article-open fs id = elim (Option-cases (disk.remove_error id)) [
    | inr (x, k) ↦ rw k (rw (delete_article-fails fs id x k) (refl, refl))
    | inl k ↦ rw k (elim (Option-cases (find id fs.articles)) [
      | inl e ↦ rw e (rw (delete_article-files fs id none k e) (refl, (_, refl)))
      | inr (text, e) ↦
          rw e (
            rw (delete_article-files fs id (some text) k e) (refl, find-remove_self id fs.articles))
    ])
  ]
