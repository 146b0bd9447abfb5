-- ===== src/Inbound/Article/Attachments.antt =====
-- The parser of parts in readArticle of lib/nntp/conn_v1.go leaves the articles alone.
use srndv.Base.{◌≡◌, refl, ◌∙◌, Bool, true, false, List, [], ◌∷◌, Bytes, arith}
use srndv.Header.{Header}
use srndv.Store.{
  Disk, Files, filesystem_storage, store_attachment, write_attachment, attachment_name,
}
use srndv.Inbound.{Part, Env}
use srndv.Inbound.Article.{parse_body, store_parts, store_part, part_body}

-- An attachment is written beside the articles.
write_attachment-articles :
    (disk : Disk) (fs : Files) (r name : Bytes)
    → (write_attachment disk fs r name).0.articles ≡ fs.articles
unfolding write_attachment
write_attachment-articles disk fs r name = ground arith

store_attachment-articles :
    (disk : Disk) (fs : Files) (r filename : Bytes)
    → (store_attachment disk fs r filename).0.articles ≡ fs.articles
unfolding store_attachment
store_attachment-articles disk fs r filename =
    ground (arith, write_attachment-articles disk fs r (attachment_name disk r filename))

module _ (disk : Disk) (env : Env Files) (on_disk : env.storage ≡ filesystem_storage disk) where
  store_part-articles : (fs : Files) (p : Part) → (store_part env fs p).articles ≡ fs.articles
  unfolding store_part
  store_part-articles fs p =
      rw on_disk (ground (arith, store_attachment-articles disk fs (part_body env p) p.file_name))

  store_parts-articles :
      (ps : List Part) (fs : Files) → (store_parts env fs ps).articles ≡ fs.articles
  unfolding store_parts
  store_parts-articles [] fs = refl
  store_parts-articles (p ∷ ps) fs =
      store_parts-articles ps (store_part env fs p) ∙ store_part-articles fs p

  pub parse_body-articles :
      (multipart : Bool) (fs : Files) (hdr : Header) (body : Bytes)
      → (parse_body env multipart fs hdr body).articles ≡ fs.articles
  unfolding parse_body
  parse_body-articles true fs hdr body = store_parts-articles (env.parts hdr body) fs
  parse_body-articles false fs hdr body = refl
