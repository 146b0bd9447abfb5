-- ===== src/Daemon/Scrape.antt =====
-- The scraping of a server in src/srnd/nntp.go for articles that the daemon does not have. A write
-- to the peer is taken to succeed, as in Dial.
pub mod Requested
use srndv.Base.{
  ℕ, ◌/◌, Bool, true, false, not, ◌&&◌, ◌||◌, Option, none, some, List, [], ◌∷◌, ◌++◌, ltb, leb,
  ◌==◌, within, length, take, drop, if◌then◌else◌, is_none, Bytes, codes, same, split, to_upper,
  read_number,
}
use srndv.Header.{Header}
use srndv.Inbound.{Error, Answer, answer, failed}
use srndv.Nntp.Ident.{message_id_valid}
use srndv.Daemon.{NntpDaemon, NntpConnection, Body, print_line}
use srndv.Daemon.Mime.{Dotted, dot_reader, text_of, read_mime_header}
use srndv.Daemon.Wanted.{Verdict, check_mime_header_no_auth}
use srndv.Daemon.Deliver.{unexpected_eof, store_message}
use srndv.Daemon.Feeds.{set_key}
use srndv.Daemon.Dial.{Reply, read_code_line}

module _ {W : Type 0} (daemon : NntpDaemon W) where
  -- what came of an article that was asked for; its errors end here
  abbrev pub keep_requested : Bytes → NntpConnection W × Option Error → NntpConnection W
  keep_requested msgid (c, none) = c
  keep_requested msgid (c, some e) = record c {
    world = (daemon.database.ban_article c.world msgid e).0;
  }

  abbrev pub requested : Bytes → Header → Body → Verdict → NntpConnection W → NntpConnection W
  requested msgid hdr body v c =
      if not (is_none v.err)
      then c
      else if not (same v.reason [])
      then (if v.ban
          then record c { world = (daemon.database.ban_article c.world msgid v.reason).0 }
          else c)
      else keep_requested msgid (store_message daemon c hdr body)

  abbrev pub request_read :
      Bytes → NntpConnection W → Option (Header × List Bytes) → Option Error × NntpConnection W
  request_read msgid c none = (some (codes "EOF"), record c { input = [] })
  request_read msgid c (some (hdr, lines)) =
      let d = dot_reader lines in
      (
        none,
        requested msgid hdr (record { text = text_of d.lines; complete = d.ended })
            (check_mime_header_no_auth daemon c.world hdr) (record c { input = d.rest }),
      )

  -- requestArticle
  unfoldable pub request_article : Bytes → NntpConnection W → Option Error × NntpConnection W
  unfolding read_code_line read_mime_header dot_reader text_of check_mime_header_no_auth
      store_message
  request_article msgid c =
      let r = read_code_line 0 (print_line c (codes "ARTICLE " ++ msgid)) in
      if r.code == 220
      then request_read msgid r.conn (read_mime_header r.conn.input)
      else (r.err, r.conn)

  -- a message id of XOVER, if the daemon neither has the article nor has banned it
  unfoldable pub scrape_id : Bytes → NntpConnection W → Option Error × NntpConnection W
  unfolding message_id_valid request_article
  scrape_id msgid c =
      if not (same msgid [])
        && message_id_valid msgid
        && not (daemon.database.has_article c.world msgid)
        && not (daemon.database.article_banned c.world msgid)
      then request_article msgid c
      else (none, c)

  abbrev pub then_continue :
      (NntpConnection W → Option Error × NntpConnection W)
      → Option Error × NntpConnection W
      → Option Error × NntpConnection W
  then_continue f (none, c) = f c
  then_continue f (some e, c) = (some e, c)

  -- the loop over the articles of a newsgroup: first the root of its thread, then the article
  unfoldable pub scrape_articles :
      List (Bytes × Bytes) → NntpConnection W → Option Error × NntpConnection W
  unfolding scrape_id
  scrape_articles [] c = (none, c)
  scrape_articles ((msgid, refid) ∷ articles) c =
      then_continue (λ c1. then_continue (scrape_articles articles) (scrape_id msgid c1))
        (scrape_id refid c)

  -- the fifth and the sixth field of a line of XOVER, which are kept as in a map
  unfoldable pub overview_fields : List Bytes → List (Bytes × Bytes) → List (Bytes × Bytes)
  unfolding set_key
  overview_fields (_ ∷ (_ ∷ (_ ∷ (_ ∷ (msgid ∷ (refid ∷ _)))))) m = set_key msgid refid m
  overview_fields _ m = m

  unfoldable pub overview_map : List Bytes → List (Bytes × Bytes) → List (Bytes × Bytes)
  unfolding overview_fields split
  overview_map [] m = m
  overview_map (line ∷ lines) m = overview_map lines (overview_fields (split 9 line) m)

  abbrev pub scrape_overview : Dotted → NntpConnection W → Option Error × NntpConnection W
  scrape_overview d c =
      if d.ended
      then scrape_articles (overview_map d.lines []) (record c { input = d.rest })
      else (some unexpected_eof, record c { input = d.rest })

  abbrev pub scrape_xover : Reply W → Option Error × NntpConnection W
  scrape_xover r =
      if r.code == 224 then scrape_overview (dot_reader r.conn.input) r.conn else (r.err, r.conn)

  -- scrapeGroup
  unfoldable pub scrape_group : Bytes → NntpConnection W → Option Error × NntpConnection W
  unfolding read_code_line scrape_articles overview_map dot_reader
  scrape_group group c =
      let r = read_code_line 211 (print_line c (codes "GROUP " ++ group)) in
      if r.code == 211
      then scrape_xover (read_code_line 224 (print_line r.conn (codes "XOVER 0")))
      else (r.err, r.conn)

  -- what stands in front of the first space, if anything does
  unfoldable pub group_names : List Bytes → List Bytes
  unfolding split
  group_names [] = []
  group_names (line ∷ lines) =
      let rest = group_names lines in
      elim (split 32 line) [
        | [] ↦ rest
        | w ∷ [] ↦ rest
        | [] ∷ (_ ∷ _) ↦ rest
        | (c ∷ w) ∷ (_ ∷ _) ↦ (c ∷ w) ∷ rest
      ]

  abbrev pub unless_banned :
      Bytes → Bool × Option Error → NntpConnection W → Option Error × NntpConnection W
  unless_banned group (true, err) c = (none, c)
  unless_banned group (false, none) c = scrape_group group c
  unless_banned group (false, some e) c = (some e, c)

  -- the newsgroups one after the other, up to an error
  unfoldable pub scrape_groups : List Bytes → NntpConnection W → Option Error × NntpConnection W
  unfolding scrape_group
  scrape_groups [] c = (none, c)
  scrape_groups (group ∷ groups) c =
      then_continue (scrape_groups groups)
        (unless_banned group (daemon.database.newsgroup_banned c.world group) c)

  abbrev pub scrape_listed : Dotted → NntpConnection W → NntpConnection W
  scrape_listed d c =
      if d.ended
      then (scrape_groups (group_names d.lines) (record c { input = d.rest })).1
      else record c { input = d.rest }

  -- scrapeServer: its `err` is declared again inside, so it returns nil whatever happens; `now` is
  -- timeNow in digits
  unfoldable pub scrape_server : Bytes → NntpConnection W → Option Error × NntpConnection W
  unfolding read_code_line scrape_groups group_names dot_reader
  scrape_server now c =
      let r =
        read_code_line 231 (print_line c (codes "NEWSGROUPS " ++ (now ++ codes " 000000 GMT"))) in
      if r.code == 231
      then (none, scrape_listed (dot_reader r.conn.input) r.conn)
      else (none, r.conn)
