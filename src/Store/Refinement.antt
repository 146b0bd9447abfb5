-- ===== src/Store/Refinement.antt =====
-- FilesystemStorage of lib/store/fs.go against what a Storage promises of articles: a map from ids
-- to texts, in which the first text that is stored under an id stays until it is deleted.
use srndv.Base.{
  ◌≡◌, refl, ap, ◌∙◌, Option, none, some, List, [], ◌∷◌, if◌then◌else◌, Bytes, same, same_iff,
  same_refl, subst, Bool-cases, inl, inr,
}
use srndv.Store.{
  StoreError, Disk, Files, find, has_article, write_article, store_article, delete_article,
  open_article,
}
use srndv.Store.Laws.{
  find-remove_self, store_article_known, delete_article-files, articles_independent,
}

-- an abstract storage
abbrev pub Articles : Type 0
Articles = Bytes → Option Bytes

pub data Change : Type 0 where
  store : Bytes → Bytes → Change
  delete : Bytes → Change

abbrev pub or_new : Option Bytes → Bytes → Option Bytes
or_new none text = some text
or_new (some old) text = some old

unfoldable pub change : Change → Articles → Articles
change (store id text) m = λ j. if same id j then or_new (m id) text else m j
change (delete id) m = λ j. if same id j then none else m j

unfoldable pub changes : List Change → Articles → Articles
changes [] m = m
changes (c ∷ cs) m = changes cs (change c m)

-- no call of the disk fails
pub record IsFaultless (disk : Disk) : Type 0 where
  pub stat_works : (name : Bytes) → disk.stat_error name ≡ none
  pub open_works : (name : Bytes) → disk.open_error name ≡ none
  pub write_works : (name : Bytes) → disk.write_error name ≡ none
  pub remove_works : (name : Bytes) → disk.remove_error name ≡ none

module _ (disk : Disk) where
  unfoldable pub apply : Change → Files → Files
  apply (store id text) fs = (store_article disk fs text id).0
  apply (delete id) fs = (delete_article disk fs id).0

  unfoldable pub apply_all : List Change → Files → Files
  apply_all [] fs = fs
  apply_all (c ∷ cs) fs = apply_all cs (apply c fs)

  abbrev pub Shows : Files → Articles → Type 0
  Shows fs m = (j : Bytes) → open_article disk fs j ≡ m j

  module _ (works : IsFaultless disk) where
    store-own :
        (fs : Files) (id text : Bytes) (o : Option Bytes)
        → find id fs.articles ≡ o
        → find id (store_article disk fs text id).0.articles ≡ or_new o text
    unfolding store_article has_article write_article
    store-own fs id text none e =
        rw (works.stat_works id, store_article, has_article)
          (rw (e, store_article, has_article)
            (rw (works.open_works id, write_article)
              (rw (works.write_works id, write_article) (rw (same_refl id) refl))))
    store-own fs id text (some old) e =
        ap (λ (f : Files). find id f.articles) (store_article_known disk fs text id old e) ∙ e

    delete-own :
        (fs : Files) (id : Bytes) (o : Option Bytes)
        → find id fs.articles ≡ o
        → find id (delete_article disk fs id).0.articles ≡ none
    delete-own fs id none e =
        ap (λ (r : Files × Option StoreError). find id r.0.articles)
          (delete_article-files disk fs id none (works.remove_works id) e)
        ∙ e
    delete-own fs id (some old) e =
        ap (λ (r : Files × Option StoreError). find id r.0.articles)
          (delete_article-files disk fs id (some old) (works.remove_works id) e)
        ∙ find-remove_self id fs.articles

    apply-Shows :
        (c : Change) (fs : Files) (m : Articles) → Shows fs m → Shows (apply c fs) (change c m)
    unfolding apply change open_article
    apply-Shows (store id text) fs m h j = elim (Bool-cases (same id j)) [
      | inl y ↦ rw y (
          subst (λ k. find k (store_article disk fs text id).0.articles ≡ or_new (m id) text)
            ((same_iff id j).0 y) (store-own fs id text (m id) (h id)))
      | inr n ↦ rw n ((articles_independent disk fs text id j n).0 ∙ h j)
    ]
    apply-Shows (delete id) fs m h j = elim (Bool-cases (same id j)) [
      | inl y ↦ rw y (
          subst (λ k. find k (delete_article disk fs id).0.articles ≡ none) ((same_iff id j).0 y)
            (delete-own fs id (m id) (h id)))
      | inr n ↦ rw n ((articles_independent disk fs [] id j n).1 ∙ h j)
    ]

    -- On a disk that does not fail, StoreArticle and DeleteArticle in any order and number do what
    -- they do to a map from ids to texts, in which the first text of an id stays until it is
    -- deleted: after them OpenArticle returns for every id what the map has.
    pub apply_all-Shows :
        (cs : List Change) (fs : Files) (m : Articles)
        → Shows fs m
        → Shows (apply_all cs fs) (changes cs m)
    unfolding apply_all changes
    apply_all-Shows [] fs m h = h
    apply_all-Shows (c ∷ cs) fs m h =
        apply_all-Shows cs (apply c fs) (change c m) (apply-Shows c fs m h)
