-- ===== src/Outbound.antt =====
-- v1OBConn of lib/nntp/conn_v1.go and the commands of lib/nntp/commands.go: the connection that
-- the server opens to a peer. The lines with which the peer will answer are the input of the
-- connection. Its acceptor and database are never set, but DownloadGroup asks for an acceptor.
pub mod Fetch
pub mod Feed
pub mod Session
use srndv.Base.{
  ℕ, Bool, true, false, not, ◌&&◌, ◌||◌, Option, none, some, List, [], ◌∷◌, ◌++◌, if◌then◌else◌,
  is_none, Bytes, codes, same, split, has_prefix, length,
}
use srndv.Header.{is_empty}
use srndv.Nntp.Codes.{rpl_newsgroup_list, rpl_more_auth, rpl_auth_accepted, rpl_posting_streaming}
use srndv.Nntp.Mode.{mode_unset, command_mode_stream}
use srndv.Inbound.{Error, Env, ConnState, Conn, close, printf_line, dot, dot_read}

-- the fields of FeedConfig that the connection reads
pub record FeedConfig : Type 0 where
  pub name : Bytes
  pub addr : Bytes
  pub username : Bytes
  pub password : Bytes

abbrev pub cmd_newsgroups : Bytes
cmd_newsgroups = codes "NEWSGROUPS 0 0 GMT"

unfoldable pub cmd_group : Bytes → Bytes
cmd_group g = codes "GROUP " ++ g

abbrev pub cmd_xover : Bytes
cmd_xover = codes "XOVER 0"

unfoldable pub cmd_article : Bytes → Bytes
cmd_article msgid = codes "ARTICLE " ++ msgid

unfoldable pub cmd_head : Bytes → Bytes
cmd_head msgid = codes "HEAD " ++ msgid

abbrev pub cmd_capabilities : Bytes
cmd_capabilities = codes "CAPABILITIES"

abbrev pub eof : Error
eof = codes "EOF"

-- the connection that newOutboundConn makes
unfoldable pub new_outbound_conn : {S : Type 0} → FeedConfig → S → List Bytes → Conn S
new_outbound_conn conf store input = record {
  state = record {
    feed_name = conf.name;
    conn_name = [];
    host_name = conf.addr;
    mode = mode_unset;
    group = [];
    article = [];
    policy = none;
    is_open = true;
  };
  tls_on = false;
  authenticated = false;
  input = input;
  handshakes = [];
  writes = 0;
  sent = [];
  hooked = [];
  hung = false;
  store = store;
}

-- the name of the server: that of its configuration, if it has one
unfoldable pub outbound_server_name : Option Bytes → Bytes
outbound_server_name none = codes "default.value.tld"
outbound_server_name (some name) = if is_empty name then codes "nntp.anon.tld" else name

-- a line that was read, with the error of reading it, and the connection behind it
abbrev pub Line : Type 0 → Type 0
Line S = Bytes × Option Error × Conn S

-- what ListNewsgroups reads: the groups, its error and the lines behind
pub record Listed : Type 0 where
  pub groups : List Bytes
  pub err : Option Error
  pub rest : List Bytes

module _ {S : Type 0} where
  abbrev pub take_line : Conn S → List Bytes → Line S
  take_line c [] = ([], some eof, c)
  take_line c (l ∷ ls) = (l, none, record c { input = ls })

  -- readline
  unfoldable pub readline : Conn S → Line S
  readline c = take_line c c.input

-- what io.Copy of a DotReader returns: an error if the input ends before the dot
unfoldable pub dot_error : List Bytes → Option Error
dot_error [] = some (codes "unexpected EOF")
dot_error (l ∷ ls) = let rest = dot_error ls in if same l dot then none else rest

-- the groups of a line of NEWSGROUPS, which has four words
abbrev pub four_words : List Bytes → List Bytes
four_words (g ∷ (a ∷ (b ∷ (d ∷ [])))) = g ∷ []
four_words _ = []

abbrev pub prepend_groups : List Bytes → Listed → Listed
prepend_groups gs r = record r { groups = gs ++ r.groups }

-- the loop of ListNewsgroups over the lines up to one of a dot
unfoldable pub list_lines : List Bytes → Listed
list_lines [] = record { groups = []; err = some eof; rest = [] }
list_lines (line ∷ lines) =
    let more = list_lines lines in
    if same line dot
    then record { groups = []; err = none; rest = lines }
    else prepend_groups (four_words (split 32 line)) more

module _ {S : Type 0} (env : Env S) where
  -- ListNewsgroups, from the reply to its command on
  unfoldable pub list_reply : Line S → Conn S × List Bytes × Option Error
  list_reply (text, some e, c) = (c, [], some e)
  list_reply (text, none, c) =
      if has_prefix rpl_newsgroup_list text
      then (
        record c { input = (list_lines c.input).rest },
        (list_lines c.input).groups,
        (list_lines c.input).err,
      )
      else (c, [], some (codes "invalid reply for NEWSGROUPS command: " ++ text))

  unfoldable pub list_sent : Conn S × Option Error → Conn S × List Bytes × Option Error
  list_sent (c, none) = list_reply (readline c)
  list_sent (c, some e) = (c, [], some e)

  -- ListNewsgroups
  unfoldable pub list_newsgroups : Conn S → Conn S × List Bytes × Option Error
  list_newsgroups c = list_sent (printf_line env c cmd_newsgroups)

  -- Negotiate: the answer to AUTHINFO PASS
  unfoldable pub password_reply : Line S → Conn S × Option Error
  password_reply (text, some e, c) = (c, some e)
  password_reply (text, none, c) =
      if has_prefix rpl_auth_accepted text then (c, none) else (c, some text)

  unfoldable pub password_sent : Conn S × Option Error → Conn S × Option Error
  password_sent (c, none) = password_reply (readline c)
  password_sent (c, some e) = (c, some e)

  -- the answer to AUTHINFO USER; the error of reading it is not looked at
  unfoldable pub user_reply : FeedConfig → Line S → Conn S × Option Error
  user_reply conf (text, err, c) =
      if has_prefix rpl_more_auth text
      then password_sent (printf_line env c (codes "AUTHINFO PASS " ++ conf.password))
      else (c, some text)

  unfoldable pub user_sent : FeedConfig → Conn S × Option Error → Conn S × Option Error
  user_sent conf (c, none) = user_reply conf (readline c)
  user_sent conf (c, some e) = (c, some e)

  unfoldable pub login : FeedConfig → Conn S → Conn S × Option Error
  login conf c =
      if not (is_empty conf.username) && not (is_empty conf.password)
      then user_sent conf (printf_line env c (codes "AUTHINFO USER " ++ conf.username))
      else (c, none)

  unfoldable pub stream_reply : Line S → Conn S × Option Error
  stream_reply (text, some e, c) = (c, some e)
  stream_reply (text, none, c) =
      if has_prefix rpl_posting_streaming text
      then (c, none)
      else (c, some (codes "streaiming not allowed"))

  unfoldable pub stream_sent : Conn S × Option Error → Conn S × Option Error
  stream_sent (c, none) = stream_reply (readline c)
  stream_sent (c, some e) = (c, some e)

  unfoldable pub ask_streaming : Bool → Conn S × Option Error → Conn S × Option Error
  ask_streaming true (c, none) = stream_sent (printf_line env c command_mode_stream)
  ask_streaming stream r = r

  -- the reply to CAPABILITIES is read and not looked at, nor is the error of sending it
  unfoldable pub capabilities_read :
      FeedConfig → Bool → Conn S → Option Error → Conn S × Option Error
  capabilities_read conf stream c none = ask_streaming stream (login conf c)
  capabilities_read conf stream c (some e) = (c, some e)

  unfoldable pub ask_capabilities : FeedConfig → Bool → Conn S → Conn S × Option Error
  ask_capabilities conf stream c =
      capabilities_read conf stream (record c { input = (dot_read c.input).1 }) (dot_error c.input)

  unfoldable pub greeted : FeedConfig → Bool → Line S → Conn S × Option Error
  greeted conf stream (text, some e, c) = (c, some e)
  greeted conf stream (text, none, c) =
      ask_capabilities conf stream (printf_line env c cmd_capabilities).0

  -- Negotiate
  unfoldable pub negotiate : FeedConfig → Bool → Conn S → Conn S × Option Error
  negotiate conf stream c = greeted conf stream (readline c)

  -- Quit
  unfoldable pub quit : Conn S → Conn S
  quit c = close (readline (printf_line env c (codes "QUIT yo")).0).2
