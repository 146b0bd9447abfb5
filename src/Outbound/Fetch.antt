-- ===== src/Outbound/Fetch.antt =====
-- DownloadGroup of lib/nntp/conn_v1.go: the overview of a newsgroup, the headers of the articles
-- that are wanted, and the articles whose headers are taken. A connection that comes
-- back hung stands for a download that never returns.
pub mod Bare
use srndv.Base.{
  ℕ, Bool, true, false, not, ◌&&◌, ◌||◌, Option, none, some, List, [], ◌∷◌, ◌++◌, if◌then◌else◌,
  ◌>>=◌, Bytes, codes, same, split, has_prefix,
}
use srndv.Header.{Header}
use srndv.Header.Io.{Read, read_header}
use srndv.Nntp.Codes.{rpl_no_such_group, rpl_overview, rpl_article, rpl_article_headers}
use srndv.Nntp.Ident.{message_id_valid}
use srndv.Nntp.Policy.{is_accept, is_ban}
use srndv.Store.{StoreError, no_such_article, other, Storage}
use srndv.Inbound.{Error, Acceptor, Env, Conn, Outcome, printf_line, dot, dot_read}
use srndv.Inbound.Article.{read_article}
use srndv.Outbound.{Line, readline, dot_error, cmd_group, cmd_xover, cmd_head, cmd_article, eof}

-- is it the error that the storage does not have the article?
unfoldable pub is_missing : Option StoreError → Bool
is_missing (some no_such_article) = true
is_missing (some (other e)) = false
is_missing none = false

-- the ids that the loop over the overview collects, its error and the lines behind
pub record Overview : Type 0 where
  pub msgids : List Bytes
  pub err : Option Error
  pub rest : List Bytes

abbrev pub prepend_ids : List Bytes → Overview → Overview
prepend_ids ms r = record r { msgids = ms ++ r.msgids }

-- the error of reading on at the end of a DotReader
abbrev pub or_eof : Option Error → Error
or_eof none = eof
or_eof (some e) = e

module _ {S : Type 0} (env : Env S) where
  -- is the article m wanted, that stands below the article r?
  unfoldable pub is_wanted : Option Acceptor → S → Bytes → Bytes → Bool
  is_wanted none store m r = is_missing (env.storage.has_article store m)
  is_wanted (some acceptor) store m r =
      not (is_ban (acceptor.check_message_id r)) && is_accept (acceptor.check_message_id m)

  -- the id that a line of the overview adds, the fifth of six columns
  unfoldable pub overview_ids : S → List Bytes → List Bytes
  overview_ids store (a ∷ (b ∷ (c ∷ (d ∷ (m ∷ (r ∷ [])))))) =
      if is_wanted env.acceptor store m r then m ∷ [] else []
  overview_ids store _ = []

  unfoldable pub overview : S → List Bytes → Overview
  overview store [] = record { msgids = []; err = some eof; rest = [] }
  overview store (line ∷ lines) =
      let more = overview store lines in
      if same line dot
      then record { msgids = []; err = none; rest = lines }
      else prepend_ids (overview_ids store (split 9 line)) more

  unfoldable pub is_taken : Option Acceptor → Header → Bool
  is_taken none hdr = true
  is_taken (some acceptor) hdr = is_accept (acceptor.check_header hdr)

  -- one round of the loop over the headers: the connection, the ids that it adds and its error
  unfoldable pub head_read :
      Conn S → Bytes → Read → Option Error → Conn S × List Bytes × Option Error
  head_read c msgid r end =
      if r.complete
      then (c, (if is_taken env.acceptor r.hdr then msgid ∷ [] else []), none)
      else (c, [], some (or_eof end))

  unfoldable pub head_reply : Bytes → Line S → Conn S × List Bytes × Option Error
  head_reply msgid (text, some e, c) = (c, [], some e)
  head_reply msgid (text, none, c) =
      if has_prefix rpl_article_headers text
      then head_read (record c { input = (dot_read c.input).1 }) msgid
          (read_header (dot_read c.input).0) (dot_error c.input)
      else (c, [], none)

  unfoldable pub head_sent : Bytes → Conn S × Option Error → Conn S × List Bytes × Option Error
  head_sent msgid (c, none) = head_reply msgid (readline c)
  head_sent msgid (c, some e) = (c, [], some e)

  unfoldable pub fetch_head : Conn S → Bytes → Conn S × List Bytes × Option Error
  fetch_head c msgid =
      if message_id_valid msgid
      then head_sent msgid (printf_line env c (cmd_head msgid))
      else (c, [], none)

  abbrev pub and_heads :
      (Conn S → Conn S × List Bytes × Option Error)
      → Conn S × List Bytes × Option Error
      → Conn S × List Bytes × Option Error
  and_heads rest (c, ids, some e) = (c, ids, some e)
  and_heads rest (c, ids, none) = let (c', more, err) = rest c in (c', ids ++ more, err)

  -- the loop over the headers, which ends at an error
  unfoldable pub fetch_heads : List Bytes → Conn S → Conn S × List Bytes × Option Error
  fetch_heads [] c = (c, [], none)
  fetch_heads (msgid ∷ msgids) c = and_heads (fetch_heads msgids) (fetch_head c msgid)

  -- one round of the loop over the articles
  unfoldable pub article_reply : Line S → Outcome S
  article_reply (text, some e, c) = some (c, some e)
  article_reply (text, none, c) =
      if has_prefix rpl_article text
      then (do (c', status, err) ← read_article env false c; some (c', err))
      else some (c, none)

  unfoldable pub article_sent : Conn S × Option Error → Outcome S
  article_sent (c, none) = article_reply (readline c)
  article_sent (c, some e) = some (c, some e)

  unfoldable pub fetch_article : Conn S → Bytes → Outcome S
  fetch_article c msgid = article_sent (printf_line env c (cmd_article msgid))

  abbrev pub and_articles : (Conn S → Outcome S) → Conn S × Option Error → Outcome S
  and_articles rest (c, some e) = some (c, some e)
  and_articles rest (c, none) = if c.hung then some (c, none) else rest c

  unfoldable pub fetch_articles : List Bytes → Conn S → Outcome S
  fetch_articles [] c = some (c, none)
  fetch_articles (msgid ∷ msgids) c = do
    r ← fetch_article c msgid
    and_articles (fetch_articles msgids) r

  unfoldable pub heads_read : Conn S × List Bytes × Option Error → Outcome S
  heads_read (c, accepted, some e) = some (c, some e)
  heads_read (c, accepted, none) = fetch_articles accepted c

  unfoldable pub overview_read : Conn S → Overview → Outcome S
  overview_read c o = elim o.err [
    | some e ↦ some (record c { input = o.rest }, some e)
    | none ↦ heads_read (fetch_heads o.msgids (record c { input = o.rest }))
  ]

  unfoldable pub xover_reply : Line S → Outcome S
  xover_reply (text, some e, c) = some (c, some e)
  xover_reply (text, none, c) =
      if has_prefix rpl_overview text
      then overview_read c (overview c.store c.input)
      else some (c, none)

  unfoldable pub xover_sent : Conn S × Option Error → Outcome S
  xover_sent (c, none) = xover_reply (readline c)
  xover_sent (c, some e) = some (c, some e)

  -- the error of reading the reply to GROUP is lost where XOVER can be sent
  unfoldable pub group_reply_read : Line S → Outcome S
  group_reply_read (text, err, c) =
      if has_prefix rpl_no_such_group text
      then some (c, err)
      else xover_sent (printf_line env c cmd_xover)

  unfoldable pub group_sent : Conn S × Option Error → Outcome S
  group_sent (c, none) = group_reply_read (readline c)
  group_sent (c, some e) = some (c, some e)

  -- DownloadGroup; `format` is fmt.Sprintf without arguments, which the line with the peer's
  -- newsgroup goes through
  unfoldable pub download_group : (Bytes → Bytes) → Conn S → Bytes → Outcome S
  download_group format c g = group_sent (printf_line env c (format (cmd_group g)))
