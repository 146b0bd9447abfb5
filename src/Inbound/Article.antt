-- ===== src/Inbound/Article.antt =====
-- readArticle of lib/nntp/conn_v1.go. Its four goroutines hand the article on through pipes and
-- channels that each has one reader and one writer, so their results do not depend on the
-- schedule: the acceptor settles the status, the store and the parser of parts take what it lets
-- through. The function's own `err` is never assigned (the reader's is another variable), so it is
-- nil. A disk that fails, or a parser that closes its end early, stops the copy of the body in the
-- piece that it does not take. Where bytes of the body are then left in the pipe, the reader waits
-- for them to be read and the acceptor for the reader to take the status: the call never returns,
-- which `hung` says of the connection. All else has been done by then.
pub mod Parsed
pub mod Kept
pub mod Attachments
pub mod Refused
pub mod Whole
use srndv.Base.{
  ℕ, Bool, true, false, not, ◌&&◌, Option, none, some, List, [], ◌∷◌, ◌++◌, ◌+◌, ◌-◌, ◌*◌, ◌/◌, ltb,
  min, if◌then◌else◌, is_none, length, take, ◌>>=◌, Bytes, codes, same,
}
use srndv.Header.{Header, message_id, newsgroup, append_path, is_multipart, is_empty}
use srndv.Header.Io.{Read, read_header, write_header}
use srndv.Nntp.Ident.{ArticleEntry, message_id_valid, gen_message_id}
use srndv.Nntp.Policy.{policy_accept, policy_reject, policy_ban, is_accept}
use srndv.Store.{Storage, StoreError, no_such_article, other, Stored}
use srndv.Inbound.{Error, Acceptor, Part, Env, Conn, Outcome, dot_read}

-- the acceptor goroutine, up to the header's check: the first two arguments say whether the id is
-- valid and what the storage answers for it
unfoldable pub stored_status : Bool → Option StoreError → ℕ
stored_status false has = policy_ban
stored_status true (some no_such_article) = policy_accept
stored_status true none = policy_reject
stored_status true (some (other e)) = policy_accept

unfoldable pub accepted_status : Option Acceptor → Header → ℕ → ℕ
accepted_status none hdr status = status
accepted_status (some acceptor) hdr status =
    if is_accept status then acceptor.check_header hdr else status

-- What is copied of the body: what is written to the store, what the parser of parts takes, how
-- many bytes are taken from the pipe, and whether the article is too big.
pub record Copied : Type 0 where
  pub body : Bytes
  pub seen : Bytes
  pub read : ℕ
  pub too_big : Bool

-- all of the body
abbrev pub whole_body : Bytes → Copied
whole_body body = record { body = body; seen = body; read = length body; too_big = false }

unfoldable pub limit_body : Option Acceptor → Bytes → Copied
limit_body none body = whole_body body
limit_body (some acceptor) body =
    if ltb (length body) acceptor.max_article_size then whole_body body else record {
      body = take acceptor.max_article_size body;
      seen = take acceptor.max_article_size body;
      read = length body;
      too_big = true;
    }

-- The reader hands the article on in blocks of 1024 bytes, of which the header takes `offset`. A
-- piece of the body that is copied at once does not cross a block; without an acceptor it has 128
-- bytes at most. The piece that byte n of the body is in starts and ends here.
unfoldable pub piece_start : Option Acceptor → ℕ → ℕ → ℕ
piece_start acceptor offset n =
    let block = (offset + n) / 1024 * 1024 - offset in
    if is_none acceptor then block + (n - block) / 128 * 128 else block

unfoldable pub piece_end : Option Acceptor → ℕ → ℕ → ℕ
piece_end acceptor offset n =
    let next_block = ((offset + n) / 1024 + 1) * 1024 - offset in
    if is_none acceptor then min (piece_start acceptor offset n + 128) next_block else next_block

-- A parser that closes its end after n bytes stops the copy in the piece that byte n is in: the
-- piece is read but not written to the store, and the error hides the size.
unfoldable pub cut_body : Option Acceptor → ℕ → Option ℕ → Copied → Copied
cut_body acceptor offset none copied = copied
cut_body acceptor offset (some n) copied =
    if ltb n (length copied.body)
    then record {
      body = take (piece_start acceptor offset n) copied.body;
      seen = take n copied.body;
      read = min (piece_end acceptor offset n) (length copied.body);
      too_big = false;
    }
    else copied

-- A store that stops after n bytes, of which the header is `head`, stops the copy in the piece of
-- the body that it does not take, which the parser has taken by then; or before the body, if it
-- does not take the header.
unfoldable pub stop_body : Option Acceptor → ℕ → Bool → ℕ → ℕ → Copied → Copied
stop_body acceptor offset false n head copied = copied
stop_body acceptor offset true n head copied =
    if ltb n head then record { body = []; seen = []; read = 0; too_big = false } else record {
      body = take (n - head) copied.body;
      seen = take (piece_end acceptor offset (n - head)) copied.body;
      read = min (piece_end acceptor offset (n - head)) (length copied.body);
      too_big = false;
    }

module _ {S : Type 0} (env : Env S) where
  -- the id under which the article goes: generated for a new post, otherwise from the header
  unfoldable pub article_id : Bool → Header → Option Bytes
  article_id true hdr = some (gen_message_id env.random env.now env.server_name)
  article_id false hdr = message_id hdr

  unfoldable pub header_status : Bool → S → Bytes → Header → ℕ
  header_status true store msgid hdr = accepted_status env.acceptor hdr policy_accept
  header_status false store msgid hdr =
      accepted_status env.acceptor hdr
        (stored_status (message_id_valid msgid) (env.storage.has_article store msgid))

  -- only the parser of a multipart message can stop before the end of the body
  unfoldable pub copy_body : Bool → ℕ → Header → Bytes → Copied
  copy_body true offset hdr body =
      cut_body env.acceptor offset (env.parser_stops hdr body) (limit_body env.acceptor body)
  copy_body false offset hdr body = limit_body env.acceptor body

  -- what the store goroutine reads: nothing of an article that is not accepted
  unfoldable pub for_store : ℕ → Header → Bytes → Bytes
  for_store status hdr body = if is_accept status then write_header hdr ++ body else []

  -- the store goroutine; an invalid id is read and dropped
  unfoldable pub store_entry : S → Bytes → ArticleEntry → S × Stored
  store_entry store content e =
      if message_id_valid e.message_id
      then env.storage.store_article store content e.message_id
      else (store, record { path = []; err = none; taken = length content })

  -- GotArticle is called for a valid id that was stored without an error
  unfoldable pub tell_hooks : Option StoreError → ArticleEntry → List ArticleEntry
  tell_hooks err e =
      if env.hooks && message_id_valid e.message_id && is_none err then e ∷ [] else []

  -- the parser of parts: text is dropped, everything else is stored as an attachment
  unfoldable pub content_type_or_text : Bytes → Bytes
  content_type_or_text t = if is_empty t then codes "text/plain; charset=UTF8" else t

  unfoldable pub part_body : Part → Bytes
  part_body part =
      if same part.transfer_encoding (codes "base64")
      then env.base64_decode part.text
      else part.text

  unfoldable pub store_part : S → Part → S
  store_part store part = elim (env.parse_media_type (content_type_or_text part.content_type)) [
    | none ↦ store
    | some t ↦
        if same t (codes "text/plain")
        then store
        else (env.storage.store_attachment store (part_body part) part.file_name).0
  ]

  unfoldable pub store_parts : S → List Part → S
  store_parts store [] = store
  store_parts store (part ∷ parts) = store_parts (store_part store part) parts

  unfoldable pub parse_body : Bool → S → Header → Bytes → S
  parse_body true store hdr body = store_parts store (env.parts hdr body)
  parse_body false store hdr body = store

  -- the status at the end
  unfoldable pub final_status : ℕ → Bool → ℕ
  final_status status too_big = if too_big then policy_ban else status

  -- Everything behind the header, once the kind, the id, the newsgroup and the status are known.
  -- The header took `offset` bytes of the article.
  unfoldable pub deliver : Bool → Conn S → ℕ → Header → Bytes → ArticleEntry → ℕ → Conn S × ℕ
  deliver multipart c offset hdr body e status =
      let copied = copy_body multipart offset hdr body in
      let content = for_store status hdr copied.body in
      let (store, st) = store_entry c.store content e in
      let stopped =
        stop_body env.acceptor offset (ltb st.taken (length content)) st.taken
          (length (write_header hdr)) copied in
      (
        record c {
          store = parse_body multipart store hdr stopped.seen;
          hooked = c.hooked ++ tell_hooks st.err e;
          hung = if ltb stopped.read (length body) then true else c.hung;
        },
        final_status status stopped.too_big,
      )

  unfoldable pub read_body : Bool → Conn S → ℕ → Header → Bytes → Option (Conn S × ℕ)
  read_body newpost c offset hdr body = do
    hdr' ← append_path hdr env.server_name
    msgid ← article_id newpost hdr'
    group ← newsgroup hdr'
    multipart ← is_multipart hdr'
    some (
        deliver multipart c offset hdr' body (record { message_id = msgid; newsgroup = group })
          (header_status newpost c.store msgid hdr'))

  -- where the header cannot be read, the writer that is closed at the end is nil: a panic
  unfoldable pub read_parsed : Bool → Conn S → ℕ → Read → Option (Conn S × ℕ)
  read_parsed newpost c size r =
      if r.complete then read_body newpost c (size - length r.rest) r.hdr r.rest else none

  -- readArticle; the connection that is returned is hung where the code does not return
  unfoldable pub read_article : Bool → Conn S → Option (Conn S × ℕ × Option Error)
  read_article newpost c =
      let (article, lines) = dot_read c.input in
      do
        (c', status) ←
            read_parsed newpost (record c { input = lines }) (length article) (read_header article)
        some (c', status, none)
