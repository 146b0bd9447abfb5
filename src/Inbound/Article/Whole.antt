-- ===== src/Inbound/Article/Whole.antt =====
-- readArticle of lib/nntp/conn_v1.go over a parser of parts that reads to the end of the body and a
-- storage that takes all that is written to it.
use srndv.Base.{
  ℕ, ◌≤◌, ◌≡◌, refl, Bool, true, false, Option, none, some, length, Bytes, ltb, arith, Bool-cases,
  inl, inr,
}
use srndv.Header.{Header}
use srndv.Nntp.Ident.{ArticleEntry, message_id_valid}
use srndv.Inbound.{Acceptor, Env, Conn}
use srndv.Inbound.Article.{
  limit_body, copy_body, cut_body, for_store, store_entry, stop_body, deliver,
}

-- nothing stops the copy of a body
pub record IsThorough {S : Type 0} (env : Env S) : Type 0 where
  pub reads_all : (hdr : Header) (body : Bytes) → env.parser_stops hdr body ≡ none
  pub takes_all : (s : S) (r id : Bytes) → length r ≤ (env.storage.store_article s r id).1.taken

not_missed : (n t : ℕ) → n ≤ t → ltb t n ≡ false
not_missed n t h = ground arith

read-limit_body : (o : Option Acceptor) (body : Bytes) → (limit_body o body).read ≡ length body
unfolding limit_body
read-limit_body none body = refl
read-limit_body (some a) body = elim (Bool-cases (ltb (length body) a.max_article_size)) [
  | inl e ↦ rw e refl
  | inr n ↦ rw n refl
]

module _ {S : Type 0} (env : Env S) (t : IsThorough env) where
  read-copy_body :
      (multipart : Bool) (offset : ℕ) (hdr : Header) (body : Bytes)
      → (copy_body env multipart offset hdr body).read ≡ length body
  unfolding copy_body cut_body
  read-copy_body true offset hdr body =
      rw (t.reads_all hdr body) (read-limit_body env.acceptor body)
  read-copy_body false offset hdr body = read-limit_body env.acceptor body

  store_entry_takes :
      (s : S) (content : Bytes) (e : ArticleEntry)
      → ltb (store_entry env s content e).1.taken (length content) ≡ false
  unfolding store_entry
  store_entry_takes s content e = elim (Bool-cases (message_id_valid e.message_id)) [
    | inl y ↦ rw y (not_missed _ _ (t.takes_all s content e.message_id))
    | inr n ↦ rw n (not_missed (length content) (length content) (omega arith))
  ]

  -- The call returns.
  pub hung-deliver :
      (multipart : Bool) (c : Conn S) (offset : ℕ) (hdr : Header) (body : Bytes) (e : ArticleEntry)
      (status : ℕ)
      → (deliver env multipart c offset hdr body e status).0.hung ≡ c.hung
  unfolding deliver stop_body
  hung-deliver multipart c offset hdr body e status =
      rw
        (store_entry_takes c.store
          (for_store env status hdr (copy_body env multipart offset hdr body).body) e)
        (rw (read-copy_body multipart offset hdr body)
          (rw (not_missed (length body) (length body) (omega arith)) refl))
