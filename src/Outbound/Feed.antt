-- ===== src/Outbound/Feed.antt =====
-- StreamAndQuit of lib/nntp/conn_v1.go: the articles that are offered to the peer by CHECK and
-- sent by TAKETHIS.
pub mod Wire
pub mod Delivered
use srndv.Base.{
  ℕ, Bool, true, false, not, ◌&&◌, ◌||◌, Option, none, some, List, [], ◌∷◌, ◌++◌, ◌==◌,
  if◌then◌else◌, is_none, Bytes, codes, same, split, has_prefix,
}
use srndv.Nntp.Codes.{rpl_streaming_accept, rpl_streaming_transfered}
use srndv.Nntp.Ident.{ArticleEntry, message_id_valid}
use srndv.Nntp.Stream.{event_valid, event_command, stream_check, stream_takethis}
use srndv.Store.{StoreError, Storage}
use srndv.Inbound.{Error, Env, Conn, printf_line}
use srndv.Inbound.Commands.{reply}
use srndv.Outbound.{Line, readline}

-- The connection of a feed: `delivered` are the ids for which SentArticleVia was called.
pub record Feeding (S : Type 0) : Type 0 where
  pub conn : Conn S
  pub delivered : List Bytes

-- strings.Trim of one byte: at the front, and at the end
unfoldable pub trim_front : ℕ → Bytes → Bytes
trim_front b [] = []
trim_front b (c ∷ cs) = let rest = trim_front b cs in if c == b then rest else c ∷ cs

abbrev pub or_cut : ℕ → ℕ → Bytes → Bytes
or_cut b c [] = if c == b then [] else c ∷ []
or_cut b c (d ∷ rest) = c ∷ d ∷ rest

unfoldable pub trim_end : ℕ → Bytes → Bytes
trim_end b [] = []
trim_end b (c ∷ cs) = or_cut b c (trim_end b cs)

unfoldable pub trim : ℕ → Bytes → Bytes
trim b s = trim_end b (trim_front b s)

abbrev pub prepend_byte : ℕ → List Bytes → List Bytes
prepend_byte c [] = []
prepend_byte c (l ∷ ls) = (c ∷ l) ∷ ls

-- The lines that ReadString(10) returns, the newline with each; what is behind the last newline
-- comes with io.EOF and is dropped.
unfoldable pub read_strings : Bytes → List Bytes
read_strings [] = []
read_strings (c ∷ cs) =
    let rest = read_strings cs in if c == 10 then (10 ∷ []) ∷ rest else prepend_byte c rest

-- a line as it is given to printfLine
unfoldable pub bare_line : Bytes → Bytes
bare_line line = trim 10 (trim 13 line)

-- `format` is fmt.Sprintf of a format without arguments: printfLine takes the lines of the article
-- for formats.
module _ {S : Type 0} (env : Env S) (format : Bytes → Bytes) where
  abbrev pub unless_error : (Conn S → Conn S) → Conn S × Option Error → Conn S
  unless_error rest (c, none) = rest c
  unless_error rest (c, some e) = c

  -- the loop over the lines of the article, which ends at an error
  unfoldable pub send_article : List Bytes → Conn S → Conn S
  send_article [] c = c
  send_article (l ∷ ls) c =
      unless_error (send_article ls) (printf_line env c (format (bare_line l)))

  -- the reply to an article
  unfoldable pub transfer_reply : Bytes → List Bytes → Line S → Feeding S
  transfer_reply msgid delivered (text, err, c) = record {
    conn = c;
    delivered =
        if event_valid text && same (event_command text) rpl_streaming_transfered && env.hooks
        then delivered ++ msgid ∷ []
        else delivered;
  }

  unfoldable pub transfer_sent : Bytes → List Bytes → Conn S × Option Error → Feeding S
  transfer_sent msgid delivered (c, none) = transfer_reply msgid delivered (readline c)
  transfer_sent msgid delivered (c, some e) = record { conn = c; delivered = delivered }

  -- TAKETHIS, the article, and a line of one dot; the error of the first line is not looked at
  unfoldable pub takethis : Bytes → List Bytes → Bytes → Conn S → Feeding S
  takethis msgid delivered article c = transfer_sent msgid delivered (
      printf_line env
        (send_article (read_strings article) (printf_line env c (reply stream_takethis msgid)).0)
        (codes "."))

  -- an article that the peer wants, if it is in the storage and can be opened
  unfoldable pub wanted_article : Bytes → List Bytes → Conn S → Feeding S
  wanted_article msgid delivered c = elim (env.storage.has_article c.store msgid) [
    | some e ↦ record { conn = c; delivered = delivered }
    | none ↦ elim (env.storage.open_article c.store msgid) [
      | none ↦ record { conn = c; delivered = delivered }
      | some article ↦ takethis msgid delivered article c
    ]
  ]

  -- the reply to CHECK, and whether the loop goes on
  unfoldable pub check_reply : Bytes → List Bytes → Line S → Feeding S × Bool
  check_reply msgid delivered (text, err, c) =
      if event_valid text
      then (
        (if same (event_command text) rpl_streaming_accept
            then wanted_article msgid delivered c
            else record { conn = c; delivered = delivered }),
        true,
      )
      else (record { conn = c; delivered = delivered }, false)

  unfoldable pub check_sent : Bytes → List Bytes → Conn S × Option Error → Feeding S × Bool
  check_sent msgid delivered (c, none) = check_reply msgid delivered (readline c)
  check_sent msgid delivered (c, some e) = (record { conn = c; delivered = delivered }, false)

  -- one event of the channel; an invalid id is dropped
  unfoldable pub offer : Feeding S → ArticleEntry → Feeding S × Bool
  offer f e =
      if message_id_valid e.message_id
      then check_sent e.message_id f.delivered
          (printf_line env f.conn (reply stream_check e.message_id))
      else (f, true)

  abbrev pub while_streaming : (Feeding S → Feeding S) → Feeding S × Bool → Feeding S
  while_streaming rest (f, true) = rest f
  while_streaming rest (f, false) = f

  -- StreamAndQuit over the events of the channel until it is closed
  unfoldable pub stream_and_quit : Feeding S → List ArticleEntry → Feeding S
  stream_and_quit f [] = f
  stream_and_quit f (e ∷ es) = while_streaming (λ g. stream_and_quit g es) (offer f e)
