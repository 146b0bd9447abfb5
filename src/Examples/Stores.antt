-- ===== src/Examples/Stores.antt =====
-- Storing, for lib/store.
use srndv.Base.{List, ◌≡◌, refl, none, some, [], ◌∷◌, codes}
use srndv.Store.{
  Disk, find, ext, open_article, store_article, store_attachment, attachment_name, write_attachment,
}
use srndv.Store.Laws.{AfterStore, store_article-open}
use srndv.Store.Attachments.{store_attachment_once}
use srndv.Store.Refinement.{
  Change, store, delete, Articles, changes, apply_all, Shows, IsFaultless, apply_all-Shows,
}
use srndv.Examples.{disk, no_files, id}

-- a disk that fails behind the third byte
abbrev full_disk : Disk
full_disk = record disk { write_error = λ name. some (3, codes "no space left on device") }

store_article-open_example :
    AfterStore
      (open_article full_disk no_files id)
      (store_article full_disk no_files (codes "article") id).1.err
      (codes "article")
      (open_article full_disk (store_article full_disk no_files (codes "article") id).0 id)
store_article-open_example = store_article-open full_disk no_files (codes "article") id

same_ext : ext (codes "a.png") ≡ ext (codes "b.png")
unfolding ext
same_ext = refl

stored : (store_attachment disk no_files (codes "picture") (codes "a.png")).1 ≡ none
unfolding store_attachment write_attachment attachment_name find
stored = refl

store_attachment_once_example :
    store_attachment disk
      (store_attachment disk no_files (codes "picture") (codes "a.png")).0
      (codes "picture")
      (codes "b.png")
    ≡ ((store_attachment disk no_files (codes "picture") (codes "a.png")).0, none)
store_attachment_once_example =
    store_attachment_once disk no_files (codes "picture") (codes "a.png") (codes "b.png") same_ext
      stored

disk-IsFaultless : IsFaultless disk
disk-IsFaultless = record {
  stat_works = λ name. refl;
  open_works = λ name. refl;
  write_works = λ name. refl;
  remove_works = λ name. refl;
}

abbrev history : List Change
history =
    store id (codes "one") ∷ store id (codes "two") ∷ delete id ∷ store id (codes "three") ∷ []

abbrev nothing : Articles
nothing = λ j. none

no_files-Shows : Shows disk no_files nothing
unfolding open_article find
no_files-Shows j = refl

apply_all-Shows_example : Shows disk (apply_all disk history no_files) (changes history nothing)
apply_all-Shows_example =
    apply_all-Shows disk disk-IsFaultless history no_files nothing no_files-Shows
