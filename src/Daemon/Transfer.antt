-- ===== src/Daemon/Transfer.antt =====
-- The commands of handleLine in src/srnd/nntp.go by which a peer gives the daemon an article:
-- TAKETHIS, IHAVE and POST.
pub mod Replies
use srndv.Base.{
  ℕ, Bool, true, false, not, ◌&&◌, ◌||◌, Option, none, some, List, [], ◌∷◌, ◌++◌, if◌then◌else◌,
  is_none, Bytes, codes, same,
}
use srndv.Header.{Header}
use srndv.Inbound.{Error, Answer, answer, failed}
use srndv.Nntp.Ident.{ArticleEntry, message_id_valid}
use srndv.Daemon.{
  NntpDaemon, NntpConnection, Run, panics, blocks, returns, print_line, replied, Body,
}
use srndv.Daemon.Mime.{
  mime_get, mime_set, get_message_id, read_mime_header, Dotted, dot_reader, text_of,
}
use srndv.Daemon.Wanted.{Verdict, differs, check_mime_header}
use srndv.Daemon.Deliver.{discard, unexpected_eof, store_message}

-- the error of a header without an end
abbrev pub header_error : Dotted → Error
header_error d = if d.ended then codes "EOF" else unexpected_eof

abbrev pub body_of : Dotted → List Bytes → Body
body_of d lines = record { text = text_of lines; complete = d.ended }

module _ {W : Type 0} (daemon : NntpDaemon W) where
  -- the root post of a thread is asked for if the daemon neither has it nor has let it expire
  unfoldable pub ask_for_root : Header → NntpConnection W → NntpConnection W
  unfolding mime_get message_id_valid
  ask_for_root hdr c =
      let reference = mime_get hdr (codes "References") in
      if differs reference []
        && message_id_valid reference
        && not (daemon.store.has_article c.world reference)
        && not (daemon.database.is_expired c.world reference)
      then record c {
        asked =
            c.asked
            ++ record { message_id = reference; newsgroup = mime_get hdr (codes "Newsgroups") }
              ∷ [];
      }
      else c

  -- the body is read away, and the article may be banned, whose error is then the one returned
  abbrev pub ban_if :
      Bool → Bytes → Bytes → NntpConnection W → Option Error → NntpConnection W × Option Error
  ban_if true msgid reason c err =
      let r = daemon.database.ban_article c.world msgid reason in (record c { world = r.0 }, r.1)
  ban_if false msgid reason c err = (c, err)

  -- the last line of TAKETHIS
  abbrev pub takethis_reply : Bytes → Bytes → Bytes → NntpConnection W × Option Error → Run W
  takethis_reply code msgid reason (c, err) =
      returns (print_line c (code ++ (b' ' ∷ (msgid ++ (b' ' ∷ reason))))) err

  abbrev pub takethis_stored : Bytes → NntpConnection W × Option Error → Run W
  takethis_stored msgid (c, none) = takethis_reply (codes "239") msgid (codes "gotten") (c, none)
  takethis_stored msgid (c, some e) = takethis_reply (codes "439") msgid e (c, some e)

  abbrev pub takethis_refused : Bytes → Verdict → Body → NntpConnection W → Run W
  takethis_refused msgid v body c =
      takethis_reply (codes "439") msgid v.reason (ban_if v.ban msgid v.reason c (discard body))

  abbrev pub takethis_checked : Bytes → Header → Body → Verdict → NntpConnection W → Run W
  takethis_checked msgid hdr body v c =
      if not (same v.reason [])
      then takethis_refused msgid v body c
      else if is_none v.err
      then takethis_stored msgid (store_message daemon (ask_for_root hdr c) hdr body)
      else takethis_refused msgid v body c

  abbrev pub takethis_read :
      Bytes → Dotted → NntpConnection W → Option (Header × List Bytes) → Run W
  takethis_read msgid d c (some (hdr, lines)) =
      takethis_checked msgid hdr (body_of d lines) (check_mime_header daemon c hdr) c
  takethis_read msgid d c none =
      takethis_reply (codes "439") msgid (codes "error reading mime header")
        (c, some (header_error d))

  -- TAKETHIS; what is left of the body is read away with the next line
  unfoldable pub takethis_command : Bytes → NntpConnection W → Run W
  unfolding dot_reader read_mime_header check_mime_header store_message ask_for_root text_of
  takethis_command msgid c =
      let d = dot_reader c.input in
      takethis_read msgid d (record c { input = d.rest }) (read_mime_header d.lines)

  abbrev pub ihave_stored : NntpConnection W × Option Error → Run W
  ihave_stored (c, none) = replied c (codes "235 We got it")
  ihave_stored (c, some e) = replied c (codes "437 Transfer Failed " ++ e)

  abbrev pub ihave_checked : Bytes → Header → Body → Verdict → NntpConnection W → Run W
  ihave_checked msgid hdr body v c =
      if not (same v.reason [])
      then replied (ban_if v.ban msgid v.reason c none).0
          (codes "437 Rejected do not send again bro")
      else ihave_stored (store_message daemon (ask_for_root hdr c) hdr body)

  abbrev pub ihave_read : Bytes → Dotted → NntpConnection W → Option (Header × List Bytes) → Run W
  ihave_read msgid d c (some (hdr, lines)) =
      ihave_checked msgid hdr (body_of d lines) (check_mime_header daemon c hdr) c
  ihave_read msgid d c none = replied c (codes "436 Transfer failed: " ++ header_error d)

  -- IHAVE; the errors of its block stay there
  unfoldable pub ihave_command : Bytes → NntpConnection W → Run W
  unfolding dot_reader read_mime_header check_mime_header store_message ask_for_root text_of
  ihave_command msgid c =
      if not c.authenticated
      then replied c (codes "483 You have not authenticated")
      else if daemon.database.has_article_local c.world msgid
          || daemon.database.has_article c.world msgid
          || daemon.database.article_banned c.world msgid
      then replied c (codes "435 Article Not Wanted")
      else (let d = dot_reader c.input in
          ihave_read msgid d (record (print_line c (codes "335 Send it plz")) { input = d.rest })
            (read_mime_header d.lines))

  -- the header of a post with what the daemon adds: an id where it has none, the date, and the
  -- encrypted address of the peer
  abbrev pub with_address : Header → W → W × Answer Bytes → W × Header
  with_address hdr w0 (w, answer encaddr) = (w, mime_set hdr (codes "X-Encrypted-Ip") encaddr)
  with_address hdr w0 (w, failed e) = (w, hdr)

  unfoldable pub posted_header : W → Header → W × Header
  unfolding get_message_id mime_set
  posted_header w hdr =
      let named =
        if same (get_message_id hdr) []
        then mime_set hdr (codes "Message-ID") daemon.fresh_message_id
        else hdr in
      let dated = mime_set named (codes "Date") daemon.time_now in
      if same daemon.remote_host []
      then (w, dated)
      else with_address dated w (daemon.database.get_enc_address w daemon.remote_host)

  -- The last line of POST. `gotten` is declared false and nothing sets it.
  abbrev pub post_reply : Bool → Bytes → NntpConnection W × Option Error → Run W
  post_reply success reason (c, err) =
      let gotten = false in
      returns
        (print_line c (
          if success && gotten && is_none err
          then codes "240 We got it, thnkxbai"
          else codes "441 Posting Failed " ++ reason))
        err

  -- the body of a post that the daemon wants; it is read to its end with the next line, if not
  -- before
  unfoldable pub post_wanted : Header → NntpConnection W → Run W
  unfolding mime_get message_id_valid ask_for_root dot_reader text_of store_message
  post_wanted hdr c =
      let reference = mime_get hdr (codes "References") in
      let d = dot_reader c.input in
      let c' = ask_for_root hdr (record c { input = d.rest }) in
      if differs reference [] && not (message_id_valid reference)
      then post_reply false
          (codes "cannot reply with invalid reference, maybe you are replying to a reply?")
          (c', none)
      else if daemon.database.has_newsgroup c.world (mime_get hdr (codes "Newsgroups"))
      then post_reply true [] (store_message daemon c' hdr (body_of d d.lines))
      else post_reply true [] (c', none)

  abbrev pub post_checked : Header → Verdict → NntpConnection W → Run W
  post_checked hdr v c =
      if same v.reason [] && is_none v.err
      then post_wanted hdr c
      else post_reply false v.reason (c, v.err)

  abbrev pub post_read : NntpConnection W → Option (Header × List Bytes) → Run W
  post_read c (some (hdr, lines)) =
      let r = posted_header c.world hdr in
      let c' = record c { world = r.0; input = lines } in
      post_checked r.1 (check_mime_header daemon c' r.1) c'
  post_read c none = post_reply false [] (record c { input = [] }, some (codes "EOF"))

  -- POST; its header is read without the rules for dots
  unfoldable pub post_command : NntpConnection W → Run W
  unfolding read_mime_header posted_header check_mime_header post_wanted
  post_command c =
      if not c.authenticated
      then replied c (codes "440 Posting Not Allowed")
      else post_read (print_line c (codes "340 Yeeeh postit yo; end with <CR-LF>.<CR-LF>"))
          (read_mime_header c.input)
