-- ===== src/Inbound/Article/Parsed.antt =====
-- readArticle of lib/nntp/conn_v1.go on a header that can be read, and on one that cannot.
use srndv.Base.{
  ℕ, ◌≡◌, ◌↔◌, refl, ap, ◌∙◌, Bool, true, false, ◌-◌, length, none, some, Bytes, Bool-cases, inl,
  inr,
}
use srndv.Header.{Header, append_path, newsgroup, is_multipart, IsWellFormed}
use srndv.Header.Laws.{append_path_lem}
use srndv.Header.Io.{Read, read_header}
use srndv.Header.Io.Sound.{
  Returns, read_header-IsWellFormed, message_id-Returns, newsgroup-Returns, is_multipart-Returns,
}
use srndv.Nntp.Ident.{ArticleEntry}
use srndv.Inbound.{Env, Conn, dot_read}
use srndv.Inbound.Article.{article_id, header_status, deliver, read_body, read_parsed, read_article}

-- An article whose header is complete, on the wire of a connection: what ReadHeader returns, and
-- what the acceptor reads from the header once the server's name is in its Path.
pub record Article {S : Type 0} (env : Env S) (newpost : Bool) (c : Conn S) : Type 0 where
  pub raw : Header
  pub hdr : Header
  pub body : Bytes
  pub id : Bytes
  pub group : Bytes
  pub multipart : Bool
  pub parsed : read_header (dot_read c.input).0 ≡ record { complete = true; hdr = raw; rest = body }
  pub path : append_path raw env.server_name ≡ some hdr
  pub has_id : article_id env newpost hdr ≡ some id
  pub in_group : newsgroup hdr ≡ some group
  pub kind : is_multipart hdr ≡ some multipart

module _ {S : Type 0} {env : Env S} {newpost : Bool} {c : Conn S} (a : Article env newpost c) where
  abbrev pub entry : ArticleEntry
  entry = record { message_id = a.id; newsgroup = a.group }

  -- the connection behind the article
  abbrev pub behind : Conn S
  behind = record c { input = (dot_read c.input).1 }

  -- the bytes of the article that its header takes
  abbrev pub offset : ℕ
  offset = length (dot_read c.input).0 - length a.body

  abbrev pub status_of : ℕ
  status_of = header_status env newpost c.store a.id a.hdr

  read_body-deliver :
      read_body env newpost behind offset a.raw a.body
      ≡ some (deliver env a.multipart behind offset a.hdr a.body entry status_of)
  unfolding read_body
  read_body-deliver = rw (a.path) (rw (a.has_id) (rw (a.in_group) (rw (a.kind))))

  pub read_article-deliver : read_article env newpost c ≡ (
      let r = deliver env a.multipart behind offset a.hdr a.body entry status_of in
      some (r.0, r.1, none))
  unfolding read_article read_parsed
  read_article-deliver = rw a.parsed (rw read_body-deliver)

article_id-Returns :
    {S : Type 0} (env : Env S) (newpost : Bool) (hdr : Header)
    → IsWellFormed hdr
    → Returns (article_id env newpost hdr)
unfolding article_id
article_id-Returns env true hdr w = (_, refl)
article_id-Returns env false hdr w = message_id-Returns hdr w

module _ {S : Type 0} (env : Env S) (newpost : Bool) (c : Conn S) where
  Article-of :
      (r : Read)
      → read_header (dot_read c.input).0 ≡ r
      → r.complete ≡ true
      → IsWellFormed r.hdr
      → Article env newpost c
  Article-of r e done w =
      let (hdr, path, w', looks) = append_path_lem r.hdr env.server_name w in
      let (id, has_id) = article_id-Returns env newpost hdr w' in
      let (group, in_group) = newsgroup-Returns hdr w' in
      let (multipart, kind) = is_multipart-Returns hdr w' in
      record {
        raw = r.hdr;
        hdr = hdr;
        body = r.rest;
        id = id;
        group = group;
        multipart = multipart;
        parsed = e ∙ ap (λ b. record { complete = b; hdr = r.hdr; rest = r.rest }) done;
        path = path;
        has_id = has_id;
        in_group = in_group;
        kind = kind;
      }

  -- Every article with a complete header is one.
  pub Article_of_complete :
      (read_header (dot_read c.input).0).complete ≡ true → Article env newpost c
  Article_of_complete h =
      Article-of (read_header (dot_read c.input).0) refl h
        (read_header-IsWellFormed (dot_read c.input).0)

  pub read_article_panics :
      (read_article env newpost c ≡ none) ↔ ((read_header (dot_read c.input).0).complete ≡ false)
  unfolding read_article read_parsed
  read_article_panics = (
    λ e. elim (Bool-cases (read_header (dot_read c.input).0).complete) [
      | inl yes' ↦ cc (read_article-deliver (Article_of_complete yes'))
      | inr no' ↦ no'
    ],
    λ h. rw h,
  )
