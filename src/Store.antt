-- ===== src/Store.antt =====
-- lib/store: where articles and attachments are kept. `Storage` is the interface that connections
-- use; FilesystemStorage (fs.go) and nullStore (null.go) implement it.
-- A directory is a list of files by name. File names are single path elements, as a valid message
-- id is, so filepath.Join only puts the directory in front. The disk answers by its fault oracle:
-- an error that a call meets for a name, beside the errors that the files themselves cause.
pub mod Laws
pub mod Attachments
pub mod Refinement
use srndv.Base.{
  ℕ, Bool, true, false, not, ◌&&◌, ◌||◌, ltb, Option, none, some, List, [], ◌∷◌, ◌++◌, ◌==◌,
  if◌then◌else◌, length, take, Bytes, codes, same,
}

pub data StoreError : Type 0 where
  no_such_article : StoreError
  other : Bytes → StoreError

-- what StoreArticle returns, and how many bytes it has read from its reader by then
pub record Stored : Type 0 where
  pub path : Bytes
  pub err : Option StoreError
  pub taken : ℕ

pub record Storage (S : Type 0) : Type 0 where
  pub has_article : S → Bytes → Option StoreError
  pub store_article : S → Bytes → Bytes → S × Stored
  pub store_attachment : S → Bytes → Bytes → S × Option StoreError
  pub delete_article : S → Bytes → S × Option StoreError
  pub open_article : S → Bytes → Option Bytes

abbrev pub Directory : Type 0
Directory = List (Bytes × Bytes)

unfoldable pub find : Bytes → Directory → Option Bytes
find name [] = none
find name ((n, text) ∷ files) = if same n name then some text else find name files

unfoldable pub remove : Bytes → Directory → Directory
remove name [] = []
remove name ((n, text) ∷ files) =
    let rest = remove name files in if same n name then rest else (n, text) ∷ rest

pub record Files : Type 0 where
  pub articles : Directory
  pub attachments : Directory

-- What the disk and the hash function answer.
pub record Disk : Type 0 where
  pub stat_error : Bytes → Option Bytes
  pub open_error : Bytes → Option Bytes
  -- the bytes that can be written before a write fails, and its error
  pub write_error : Bytes → Option (ℕ × Bytes)
  pub temp_error : Option Bytes
  pub remove_error : Bytes → Option Bytes
  -- the base32 form of the checksum of a file
  pub checksum : Bytes → Bytes

has_dot_or_slash : Bytes → Bool
has_dot_or_slash [] = false
has_dot_or_slash (c ∷ cs) = (c == b'.' || c == b'/') || has_dot_or_slash cs

-- filepath.Ext: from the last dot of the last element on
unfoldable pub ext : Bytes → Bytes
unfolding has_dot_or_slash
ext [] = []
ext (c ∷ cs) = let rest = ext cs in if not (has_dot_or_slash cs) && c == b'.' then c ∷ cs else rest

abbrev pub articles_dir : Bytes
articles_dir = codes "articles/"

abbrev pub written : Files → Bytes → Bytes → Files × Stored
written fs r msgid = (
  record fs { articles = (msgid, r) ∷ fs.articles },
  record { path = articles_dir ++ msgid; err = none; taken = length r },
)

module _ (disk : Disk) where
  -- HasArticle; `none` says that it is there
  unfoldable pub has_article : Files → Bytes → Option StoreError
  unfolding find
  has_article fs msgid = elim (disk.stat_error msgid) [
    | some e ↦ some (other e)
    | none ↦ elim (find msgid fs.articles) [ some _ ↦ none | none ↦ some no_such_article ]
  ]

  -- the file that a write leaves, and the outcome
  unfoldable pub write_article : Files → Bytes → Bytes → Files × Stored
  write_article fs r msgid = elim (disk.open_error msgid) [
    | some e ↦ (fs, record { path = articles_dir ++ msgid; err = some (other e); taken = 0 })
    | none ↦ elim (disk.write_error msgid) [
      | some (n, e) ↦
          if ltb n (length r)
          then (
            record fs { articles = (msgid, take n r) ∷ fs.articles },
            record { path = articles_dir ++ msgid; err = some (other e); taken = n },
          )
          else written fs r msgid
      | none ↦ written fs r msgid
    ]
  ]

  -- StoreArticle
  unfoldable pub store_article : Files → Bytes → Bytes → Files × Stored
  unfolding has_article write_article
  store_article fs r msgid = elim (has_article fs msgid) [
    | none ↦ (fs, record { path = []; err = none; taken = length r })
    | some no_such_article ↦ write_article fs r msgid
    | some (other e) ↦ (fs, record { path = []; err = some (other e); taken = 0 })
  ]

  -- DeleteArticle
  unfoldable pub delete_article : Files → Bytes → Files × Option StoreError
  unfolding find remove
  delete_article fs msgid = elim (disk.remove_error msgid) [
    | some e ↦ (fs, some (other e))
    | none ↦ elim (find msgid fs.articles) [
      | none ↦ (fs, some (other (codes "file does not exist")))
      | some _ ↦ (record fs { articles = remove msgid fs.articles }, none)
    ]
  ]

  -- OpenArticle, and what is read from it
  unfoldable pub open_article : Files → Bytes → Option Bytes
  unfolding find
  open_article fs msgid = find msgid fs.articles

  -- the name of an attachment: its checksum and the extension of its file name
  unfoldable pub attachment_name : Bytes → Bytes → Bytes
  unfolding ext
  attachment_name r filename = disk.checksum r ++ ext filename

  unfoldable pub write_attachment : Files → Bytes → Bytes → Files × Option StoreError
  write_attachment fs r name = elim (disk.open_error name) [
    | some e ↦ (fs, some (other e))
    | none ↦ elim (disk.write_error name) [
      | some (n, e) ↦
          if ltb n (length r)
          then (record fs { attachments = (name, take n r) ∷ fs.attachments }, some (other e))
          else (record fs { attachments = (name, r) ∷ fs.attachments }, none)
      | none ↦ (record fs { attachments = (name, r) ∷ fs.attachments }, none)
    ]
  ]

  -- StoreAttachment; the temporary file is gone when it returns
  unfoldable pub store_attachment : Files → Bytes → Bytes → Files × Option StoreError
  unfolding attachment_name write_attachment find
  store_attachment fs r filename = elim disk.temp_error [
    | some e ↦ (fs, some (other e))
    | none ↦ elim (disk.stat_error (attachment_name r filename)) [
      | some e ↦ (fs, some (other e))
      | none ↦ elim (find (attachment_name r filename) fs.attachments) [
        | some _ ↦ (fs, none)
        | none ↦ write_attachment fs r (attachment_name r filename)
      ]
    ]
  ]

  abbrev pub filesystem_storage : Storage Files
  filesystem_storage = record {
    has_article = has_article;
    store_article = store_article;
    store_attachment = store_attachment;
    delete_article = delete_article;
    open_article = open_article;
  }

-- nullStore: it reads everything and keeps nothing.
unfoldable pub discard : Unit {0} → Bytes → Unit {0} × Stored
discard n r = (n, record { path = codes "/dev/null"; err = none; taken = length r })

abbrev pub null_storage : Storage (Unit {0})
null_storage = record {
  has_article = λ n msgid. some no_such_article;
  store_article = λ n r msgid. discard n r;
  store_attachment = λ n r filename. (n, none);
  delete_article = λ n msgid. (n, none);
  open_article = λ n msgid. none;
}
