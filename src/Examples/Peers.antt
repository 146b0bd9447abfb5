-- ===== src/Examples/Peers.antt =====
-- Peers that the server connects to, for v1OBConn.
use srndv.Base.{
  ◌≡◌, refl, true, false, none, some, List, [], ◌∷◌, ◌++◌, All, Bytes, codes, count_byte,
  has_prefix, same, map, split,
}
use srndv.Header.{Header}
use srndv.Header.Io.{write_entries}
use srndv.Header.Io.Steps
use srndv.Nntp.Codes.{rpl_no_such_group, rpl_overview, rpl_article_headers, rpl_newsgroup_list}
use srndv.Nntp.Mode.{mode_unset}
use srndv.Nntp.Ident.{ArticleEntry}
use srndv.Nntp.Policy.{is_ban, is_accept}
use srndv.Nntp.Stream.{stream_takethis}
use srndv.Store.{Files}
use srndv.Inbound.{Error, Conn, dot, dot_read, unstuff}
use srndv.Inbound.Commands.{reply}
use srndv.Inbound.Commands.Transfer.{after}
use srndv.Nntp.Ident.Language.{message_id_line-valid}
use srndv.Outbound.{
  FeedConfig, cmd_group, cmd_xover, cmd_head, cmd_newsgroups, list_newsgroups, negotiate, dot_error,
}
use srndv.Outbound.Session.{
  Marked, line_of, name_of, IsOneWord, list_newsgroups_lem, refusal, unread, asked, negotiation,
}
use srndv.Outbound.Fetch.{overview, overview_ids, is_wanted, download_group}
use srndv.Outbound.Fetch.Bare.{bare_header_ends_download}
use srndv.Outbound.Feed.{Feeding, takethis, stream_and_quit}
use srndv.Outbound.Feed.Wire.{unlines, IsText, IsPlain, article_survives, dot_line_ends_article}
use srndv.Outbound.Feed.Delivered.{IsHonest, stream_and_quit-IsHonest}
use srndv.Examples.{env_of, conn_of, no_files, id, writable}
use srndv.Examples.Idents.{id_valid}

abbrev tab : Bytes
tab = 9 ∷ []

-- one line of the overview, the header of the article, and a dot
abbrev listing : List Bytes
listing =
    (codes "1" ++ tab ++ codes "s" ++ tab ++ codes "f" ++ tab ++ codes "d" ++ tab ++ id ++ tab)
    ∷ dot
    ∷ codes "221 head"
    ∷ codes "Subject: s"
    ∷ dot
    ∷ []

abbrev answers : List Bytes
answers = codes "211 group" ∷ codes "224 overview" ∷ listing

abbrev peer : Conn Files
peer = conn_of mode_unset answers no_files

listed : overview (env_of 0 100) no_files listing ≡ record {
  msgids = id ∷ [];
  err = none;
  rest = codes "221 head" ∷ codes "Subject: s" ∷ dot ∷ [];
}
unfolding overview overview_ids is_wanted is_ban is_accept same split
listed = refl

abbrev sent_header : Header
sent_header = (codes "Subject", codes "s" ∷ []) ∷ []

as_written : (dot_read (codes "Subject: s" ∷ dot ∷ [])).0 ≡ write_entries sent_header
unfolding dot_read unstuff same write_entries
as_written = refl

header_IsWritable : Steps.IsWritable sent_header
unfolding count_byte
header_IsWritable = ((refl, refl, (refl, tt)), tt)

starts_otherwise : has_prefix rpl_no_such_group (codes "211 group") ≡ false
unfolding has_prefix
starts_otherwise = refl

starts_224 : has_prefix rpl_overview (codes "224 overview") ≡ true
unfolding has_prefix
starts_224 = refl

starts_221 : has_prefix rpl_article_headers (codes "221 head") ≡ true
unfolding has_prefix
starts_221 = refl

bare_header_ends_download_example :
    (d : Conn Files) × (e : Error) × (download_group (env_of 0 100) (λ s. s) peer (codes "a.b")
      ≡ some (d, some e))
    × (d.sent ≡ cmd_group (codes "a.b") ∷ cmd_xover ∷ cmd_head id ∷ [])
bare_header_ends_download_example =
    bare_header_ends_download (env_of 0 100) (λ s. s) peer (codes "a.b") id (codes "211 group")
      (codes "224 overview") (codes "221 head") [] listing (codes "Subject: s" ∷ dot ∷ [])
      sent_header (writable 0 100 mode_unset answers no_files) refl starts_otherwise starts_224
      listed (message_id_line-valid id id_valid) starts_221 as_written header_IsWritable

abbrev groups : List Marked
groups = (codes "a.b", 7, 2) ∷ (codes "c.d", 1, 0) ∷ []

IsOneWord-each : All IsOneWord groups
unfolding count_byte
IsOneWord-each = (refl, (refl, tt))

starts_231 : has_prefix rpl_newsgroup_list (codes "231 list") ≡ true
unfolding has_prefix
starts_231 = refl

abbrev lister : Conn Files
lister = conn_of mode_unset (codes "231 list" ∷ (map line_of groups ++ dot ∷ [])) no_files

list_newsgroups_lem_example :
    list_newsgroups (env_of 0 100) lister
    ≡ (record (after lister cmd_newsgroups) { input = [] }, map name_of groups, none)
list_newsgroups_lem_example =
    list_newsgroups_lem (env_of 0 100) lister (codes "231 list") groups []
      (writable 0 100 mode_unset lister.input no_files) refl starts_231 IsOneWord-each

abbrev conf : FeedConfig
conf = record {
  name = codes "feed";
  addr = codes "10.0.0.2:1199";
  username = codes "user";
  password = codes "secret";
}

abbrev stranger : Conn Files
stranger = conn_of mode_unset (codes "482 no" ∷ []) no_files

abbrev greeting : List Bytes
greeting = codes "READER" ∷ dot ∷ codes "381 more" ∷ codes "281 ok" ∷ codes "203 stream" ∷ []

abbrev friend : Conn Files
friend = conn_of mode_unset (codes "200 hello" ∷ greeting) no_files

greeting_ends : dot_error greeting ≡ none
unfolding dot_error same
greeting_ends = refl

greeting_read : (dot_read greeting).1 ≡ codes "381 more" ∷ codes "281 ok" ∷ codes "203 stream" ∷ []
unfolding dot_read same
greeting_read = refl

negotiation_example :
    (d : Conn Files) × (negotiate (env_of 0 100) conf true friend
      ≡ (d, refusal (env_of 0 100) conf (codes "381 more") (codes "281 ok") (codes "203 stream")))
    × (d.input
        ≡ unread (env_of 0 100) conf (codes "381 more") (codes "281 ok") (codes "203 stream") [])
    × (d.sent ≡ asked (env_of 0 100) conf (codes "381 more") (codes "281 ok") (codes "203 stream"))
negotiation_example =
    negotiation (env_of 0 100) conf (codes "381 more") (codes "281 ok") (codes "203 stream") friend
      (codes "200 hello") greeting [] (writable 0 100 mode_unset friend.input no_files) refl refl
      greeting_ends greeting_read

-- fmt.Sprintf on formats without a percent sign
abbrev plain_format : Bytes → Bytes
plain_format l = l

abbrev text : List Bytes
text = codes "Subject: s" ∷ [] ∷ codes "hi" ∷ []

text-IsPlain : All IsPlain text
unfolding count_byte
text-IsPlain = (
  record {
    is_text = record { no_newline = refl; no_return = refl; no_percent = refl };
    no_dot = refl;
  },
  (
    record {
      is_text = record { no_newline = refl; no_return = refl; no_percent = refl };
      no_dot = refl;
    },
    (
      record {
        is_text = record { no_newline = refl; no_return = refl; no_percent = refl };
        no_dot = refl;
      },
      tt,
    ),
  ),
)

article_survives_example :
    (more : List Bytes) × ((takethis
        (env_of 0 100)
        plain_format
        id
        []
        (unlines text)
        stranger).conn.sent
      ≡ reply stream_takethis id ∷ more)
    × ((rest : List Bytes) → dot_read (more ++ rest) ≡ (unlines text, rest))
article_survives_example =
    article_survives (env_of 0 100) plain_format (λ l h. refl) stranger id [] text
      (writable 0 100 mode_unset stranger.input no_files) text-IsPlain

abbrev injected : List Bytes
injected = codes "QUIT" ∷ []

injected-IsText : All IsText injected
unfolding count_byte
injected-IsText = (record { no_newline = refl; no_return = refl; no_percent = refl }, tt)

dot_line_ends_article_example :
    (more : List Bytes) × ((takethis
        (env_of 0 100)
        plain_format
        id
        []
        (unlines (text ++ dot ∷ injected))
        stranger).conn.sent
      ≡ reply stream_takethis id ∷ more)
    × ((rest : List Bytes) → dot_read (more ++ rest) ≡ (unlines text, injected ++ dot ∷ rest))
dot_line_ends_article_example =
    dot_line_ends_article (env_of 0 100) plain_format (λ l h. refl) stranger id [] text injected
      (writable 0 100 mode_unset stranger.input no_files) text-IsPlain injected-IsText

abbrev feed : Feeding Files
feed = record { conn = stranger; delivered = [] }

feed-IsHonest : IsHonest (env_of 0 100) plain_format no_files feed
feed-IsHonest = record { same_store = refl; held = tt }

abbrev events : List ArticleEntry
events = record { message_id = id; newsgroup = codes "a.b" } ∷ []

stream_and_quit-IsHonest_example :
    IsHonest
      (env_of 0 100)
      plain_format
      no_files
      (stream_and_quit (env_of 0 100) plain_format feed events)
stream_and_quit-IsHonest_example =
    stream_and_quit-IsHonest (env_of 0 100) plain_format no_files feed events feed-IsHonest
