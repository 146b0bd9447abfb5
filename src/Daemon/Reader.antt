-- ===== src/Daemon/Reader.antt =====
-- The commands of handleLine in src/srnd/nntp.go that read articles: ARTICLE, HEAD, STAT and XOVER.
use srndv.Base.{
  ℕ, ◌+◌, Bool, true, false, not, ◌&&◌, Option, none, some, List, [], ◌∷◌, ◌++◌, ltb, ◌==◌,
  if◌then◌else◌, Bytes, codes, same, decimal, ℤ, half64, parse_int, decimal_int, length,
}
use srndv.Header.{Header}
use srndv.Inbound.{Error, Answer, answer, failed}
use srndv.Nntp.Ident.{message_id_valid}
use srndv.Daemon.{
  Overview, NntpDaemon, NntpConnection, Run, returns, print_line, print_lines, replied, dot_writer,
}
use srndv.Daemon.Mime.{write_mime_header}

-- what is left of a string result when the error beside it is passed over
abbrev pub or_empty : Answer Bytes → Bytes
or_empty (answer s) = s
or_empty (failed e) = []

abbrev pub is_zero : ℤ → Bool
is_zero (ℤ.pos n) = n == 0
is_zero (ℤ.negsuc n) = false

abbrev pub no_words : List Bytes → Bool
no_words [] = true
no_words (_ ∷ _) = false

-- "%.6d"
unfoldable pub pad6 : Bytes → Bytes
pad6 s =
    (if ltb (length s) 2
      then codes "00000"
      else if ltb (length s) 3
      then codes "0000"
      else if ltb (length s) 4
      then codes "000"
      else if ltb (length s) 5
      then codes "00"
      else if ltb (length s) 6
      then codes "0"
      else [])
    ++ s

-- one line of XOVER
unfoldable pub overview_line : ℕ → Overview → Bytes
unfolding pad6 decimal
overview_line n m =
    pad6 (decimal n)
    ++ (9
        ∷ (m.subject
            ++ (9
                ∷ b'"'
                ∷ (m.name
                    ++ (b'"'
                        ∷ b' '
                        ∷ b'<'
                        ∷ (m.name
                            ++ (b'@'
                                ∷ (m.frontend
                                    ++ (b'>'
                                        ∷ 9
                                        ∷ (m.date
                                            ++ (9
                                                ∷ (m.message_id
                                                    ++ (9 ∷ (m.reference ++ (10 ∷ [])))))))))))))))

-- the lines of the models that are not nil, numbered from `n` on; a nil one keeps its number
unfoldable pub overview_text : ℕ → List (Option Overview) → Bytes
unfolding overview_line
overview_text n [] = []
overview_text n (some m ∷ ms) = overview_line n m ++ overview_text (n + 1) ms
overview_text n (none ∷ ms) = overview_text (n + 1) ms

module _ {W : Type 0} (daemon : NntpDaemon W) where
  -- the message id that ARTICLE was given, or that of the number
  abbrev pub id_of_number : Bytes → NntpConnection W → Option ℤ → Bytes
  id_of_number word c none = word
  id_of_number word c (some n) =
      or_empty (daemon.database.get_message_id_for_nntp_id c.world c.group n)

  unfoldable pub article_id : Bytes → NntpConnection W → Bytes
  unfolding message_id_valid parse_int
  article_id word c =
      if not (message_id_valid word) && not (same c.group [])
      then id_of_number word c (parse_int half64 word)
      else word

  abbrev pub article_opened : Bytes → NntpConnection W → Answer Bytes → Run W
  article_opened msgid c (answer text) =
      returns (print_lines (print_line c (codes "220 " ++ msgid)) (dot_writer text)) none
  article_opened msgid c (failed e) = replied c (codes "503 idkwtf happened: " ++ e)

  -- ARTICLE
  unfoldable pub article_command : Bytes → NntpConnection W → Run W
  unfolding article_id message_id_valid dot_writer
  article_command word c =
      let msgid = article_id word c in
      if message_id_valid msgid && daemon.store.has_article c.world msgid
      then article_opened msgid c (daemon.store.open_message c.world msgid)
      else replied c (codes "430 " ++ msgid)

  -- The variables of HEAD behind the lookup: the number as it is printed, the id, whether the
  -- article is here, the code of its absence, which is 0 where none is set, and the error.
  pub record Found : Type 0 where
    pub number : Bytes
    pub found_id : Bytes
    pub has : Bool
    pub code : ℕ
    pub err : Option Error

  abbrev pub head_by_number : NntpConnection W → ℤ → Answer Bytes → Found
  head_by_number c n (answer msgid) =
      let has = not (same msgid []) && daemon.database.has_article_local c.world msgid in
      record {
        number = decimal_int n;
        found_id = msgid;
        has = has;
        code = if has then 0 else 423;
        err = none;
      }
  head_by_number c n (failed e) = record {
    number = decimal_int n;
    found_id = [];
    has = false;
    code = 423;
    err = some e;
  }

  -- The error of ParseInt is still there when the article is not.
  abbrev pub head_by_id : Bytes → NntpConnection W → Found
  head_by_id word c =
      let parse_error = some (daemon.number_error word) in
      if message_id_valid word
      then (if daemon.database.has_article_local c.world word
          then (let r = daemon.database.get_nntp_id_for_message_id c.world c.group word in
              record { number = decimal r.0; found_id = word; has = true; code = 0; err = r.1 })
          else record {
            number = codes "0";
            found_id = word;
            has = false;
            code = 430;
            err = parse_error;
          })
      else record { number = codes "0"; found_id = []; has = false; code = 0; err = parse_error }

  abbrev pub head_lookup : Bytes → NntpConnection W → Option ℤ → Found
  head_lookup word c (some n) =
      head_by_number c n (daemon.database.get_message_id_for_nntp_id c.world c.group n)
  head_lookup word c none = head_by_id word c

  abbrev pub head_headers : Found → NntpConnection W → Option Header → Run W
  head_headers f c none = replied c (codes "500 cannot load headers")
  head_headers f c (some hdrs) =
      let c' = print_line c (codes "221 " ++ (f.number ++ (b' ' ∷ f.found_id))) in
      returns (print_lines c' (dot_writer (write_mime_header hdrs))) (daemon.write_error c'.sent)

  abbrev pub head_found : Found → NntpConnection W → Option Error → Run W
  head_found f c (some e) = returns (print_line c (codes "500 error in HEAD: " ++ e)) (some e)
  head_found f c none =
      if f.has
      then head_headers f c (daemon.store.get_headers c.world f.found_id)
      else if ltb 0 f.code
      then replied c (decimal f.code ++ codes " don't have article")
      else replied c (codes "500 invalid state in HEAD, should have article but we don't")

  -- HEAD; handleLine calls it with at least two words, so its branch for none is never taken
  unfoldable pub head_command : Bytes → NntpConnection W → Run W
  unfolding parse_int message_id_valid decimal decimal_int write_mime_header dot_writer
  head_command word c =
      if same c.group []
      then replied c (codes "412 No newsgroup slected")
      else (let f = head_lookup word c (parse_int half64 word) in head_found f c f.err)

  -- STAT without a newsgroup
  unfoldable pub stat_by_id : Bytes → NntpConnection W → Run W
  unfolding message_id_valid decimal
  stat_by_id msgid c =
      if message_id_valid msgid && daemon.database.has_article_local c.world msgid
      then replied c (
          codes "223 "
          ++ (decimal (daemon.database.get_nntp_id_for_message_id c.world c.group msgid).0
              ++ (b' ' ∷ msgid)))
      else replied c (codes "430 No article with that message-id")

  -- the number of STAT, 0 for a word that is none
  abbrev pub stat_reply : ℤ → Bytes → Option Error → NntpConnection W → Run W
  stat_reply n msgid err c =
      if message_id_valid msgid && daemon.database.has_article_local c.world msgid
      then returns (print_line c (codes "223 " ++ (decimal_int n ++ (b' ' ∷ msgid)))) err
      else if is_zero n
      then returns (print_line c (codes "430 no such article")) err
      else returns (print_line c (codes "423 no article with that number")) err

  abbrev pub stat_numbered : ℤ → NntpConnection W → Answer Bytes → Run W
  stat_numbered n c (answer msgid) = stat_reply n msgid none c
  stat_numbered n c (failed e) =
      returns (print_line c (codes "500 error getting nntp article id: " ++ e)) (some e)

  -- The error of ParseInt is returned with the reply to a message id.
  abbrev pub stat_word : Bytes → NntpConnection W → Option ℤ → Run W
  stat_word word c (some n) =
      stat_numbered n c (daemon.database.get_message_id_for_nntp_id c.world c.group n)
  stat_word word c none = stat_reply (ℤ.pos 0) word (some (daemon.number_error word)) c

  -- STAT; `rest` are the words behind the second
  unfoldable pub stat_command : Bytes → List Bytes → NntpConnection W → Run W
  unfolding stat_by_id parse_int message_id_valid decimal_int
  stat_command word rest c =
      if same c.group []
      then (if no_words rest
          then stat_by_id word c
          else replied c (codes "412 No newsgroup selected"))
      else if daemon.database.has_newsgroup c.world c.group
      then (if no_words rest
          then stat_word word c (parse_int half64 word)
          else replied c (codes "420 Current article number is invalid"))
      else replied c (
          codes
            "500 invalid daemon state, got STAT with group set but we don't have that group now?")

  abbrev pub overviews : NntpConnection W → Answer (List (Option Overview)) → Run W
  overviews c (answer models) =
      returns
        (print_lines (print_line c (codes "224 Overview information follows"))
          (dot_writer (overview_text 1 models)))
        none
  overviews c (failed e) = replied c (codes "500 error, " ++ e)

  -- XOVER, which lists every article of the newsgroup
  unfoldable pub xover_command : NntpConnection W → Run W
  unfolding overview_text dot_writer
  xover_command c =
      if same c.group []
      then replied c (codes "412 No newsgroup selected")
      else overviews c (daemon.database.get_posts_in_group c.world c.group)
