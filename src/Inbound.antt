-- ===== src/Inbound.antt =====
-- lib/nntp/conn_v1.go: the connection that a peer opened, its state and what it asks of the rest
-- of the program.
pub mod Article
pub mod Commands
pub mod Groups
pub mod Process
pub mod Evolution
use srndv.Base.{
  ℕ, ◌+◌, Bool, true, false, not, ◌&&◌, ◌||◌, Option, none, some, List, [], ◌∷◌, ◌++◌, ◌==◌,
  if◌then◌else◌, is_none, length, Bytes, codes, same,
}
use srndv.Header.{Header}
use srndv.Nntp.Ident.{ArticleEntry}
use srndv.Store.{Storage}

-- the text of an error
abbrev pub Error : Type 0
Error = Bytes

pub data Answer (A : Type 0) : Type 0 where
  answer : A → Answer A
  failed : Error → Answer A

-- ArticleAcceptor
pub record Acceptor : Type 0 where
  pub check_header : Header → ℕ
  pub check_message_id : Bytes → ℕ
  pub max_article_size : ℕ

-- what the connection asks of a database driver; the pair is the last and the first number
pub record Database : Type 0 where
  pub get_all_newsgroups : Answer (List Bytes)
  pub has_newsgroup : Bytes → Answer Bool
  pub get_last_and_first : Bytes → Answer (ℕ × ℕ)

-- a part of a multipart body, as mime/multipart hands it over
pub record Part : Type 0 where
  pub transfer_encoding : Bytes
  pub content_type : Bytes
  pub file_name : Bytes
  pub text : Bytes

-- The surroundings of a connection: its fields that no handler changes, and what the network, the
-- random source, the clock and the package mime answer.
pub record Env (S : Type 0) : Type 0 where
  pub storage : Storage S
  pub acceptor : Option Acceptor
  pub db : Option Database
  pub server_name : Bytes
  -- is tlsConfig set?
  pub tls_config : Bool
  -- are hooks given?
  pub hooks : Bool
  -- the error of the n-th write to the socket
  pub write_error : ℕ → Option Error
  pub random : Bytes
  pub now : ℕ
  -- mime.ParseMediaType: the type without its parameters, `none` for an error
  pub parse_media_type : Bytes → Option Bytes
  pub base64_decode : Bytes → Bytes
  -- the parts up to the end or the first error
  pub parts : Header → Bytes → List Part
  -- the bytes of the body that the parser of parts takes before it closes its end, `none` if it
  -- reads to the end
  pub parser_stops : Header → Bytes → Option ℕ

pub record FeedPolicy : Type 0 where
  pub whitelist : List Bytes
  pub blacklist : List Bytes
  pub allow_anon_posts : Bool
  pub allow_anon_attachments : Bool
  pub allow_attachments : Bool
  pub untrusted_requires_pow : Bool

pub record ConnState : Type 0 where
  pub feed_name : Bytes
  pub conn_name : Bytes
  pub host_name : Bytes
  pub mode : Bytes
  pub group : Bytes
  pub article : Bytes
  pub policy : Option FeedPolicy
  pub is_open : Bool

-- a TLS handshake: its error, or the lines that follow it under encryption
pub record Handshake : Type 0 where
  pub err : Option Error
  pub lines : List Bytes

-- v1Conn. `input` is what the peer sends from here on, `sent` the lines that reached the socket,
-- `hooked` the articles that the hooks were told of, `store` the state of the storage; `hung` says
-- that a call of readArticle waits for ever, and what called it with it.
pub record Conn (S : Type 0) : Type 0 where
  pub state : ConnState
  pub tls_on : Bool
  pub authenticated : Bool
  pub input : List Bytes
  pub handshakes : List Handshake
  pub writes : ℕ
  pub sent : List Bytes
  pub hooked : List ArticleEntry
  pub hung : Bool
  pub store : S

-- What a handler returns: the connection and its error; `none` is a panic, which ends the process.
abbrev pub Outcome : Type 0 → Type 0
Outcome S = Option (Conn S × Option Error)

abbrev pub Handler : Type 0 → Type 0
Handler S = Conn S → Bytes → Outcome S

abbrev pub err_closed : Error
err_closed = codes "use of closed network connection"

module _ {S : Type 0} where
  -- Authed
  unfoldable pub authed : Conn S → Bool
  authed c = c.tls_on || c.authenticated

  unfoldable pub posting_allowed : Conn S → Bool
  unfolding authed
  posting_allowed c = authed c

  -- Close
  unfoldable pub close : Conn S → Conn S
  close c = record c { state = record c.state { is_open = false } }

  -- GetState copies the fields of the policy that the state points at; `none` is its panic
  unfoldable pub get_state : Conn S → Option ConnState
  get_state c = elim c.state.policy [
    | none ↦ none
    | some p ↦ some (record {
      feed_name = c.state.feed_name;
      conn_name = c.state.conn_name;
      host_name = c.state.host_name;
      mode = c.state.mode;
      group = c.state.group;
      article = c.state.article;
      policy = some (record {
        whitelist = p.whitelist;
        blacklist = p.blacklist;
        allow_anon_posts = p.allow_anon_posts;
        allow_anon_attachments = p.allow_anon_attachments;
        allow_attachments = p.allow_attachments;
        untrusted_requires_pow = p.untrusted_requires_pow;
      });
      is_open = false;
    })
  ]

-- a line that reached the socket, or the error of the write
abbrev pub put_line : {S : Type 0} → Conn S → Option Error → Bytes → Conn S × Option Error
put_line c none line = (record c { writes = c.writes + 1; sent = c.sent ++ line ∷ [] }, none)
put_line c (some e) line = (record c { writes = c.writes + 1 }, some e)

module _ {S : Type 0} (env : Env S) where
  unfoldable pub write_result : Conn S → Option Error
  write_result c = if c.state.is_open then env.write_error c.writes else some err_closed

  -- printfLine of a line that is already formatted
  unfoldable pub printf_line : Conn S → Bytes → Conn S × Option Error
  unfolding write_result
  printf_line c line = put_line c (write_result c) line

-- readline: the next line, and the empty line with an error at the end of the input
unfoldable pub next_line : List Bytes → Bytes × List Bytes
next_line [] = ([], [])
next_line (line ∷ lines) = (line, lines)

-- textproto's DotReader: the lines up to a line of one dot, a leading dot taken off each
unfoldable pub unstuff : Bytes → Bytes
unstuff [] = []
unstuff (c ∷ cs) = if c == b'.' then cs else c ∷ cs

abbrev pub dot : Bytes
dot = b'.' ∷ []

abbrev pub prepend_line : Bytes → Bytes × List Bytes → Bytes × List Bytes
prepend_line line (body, rest) = (unstuff line ++ (10 ∷ body), rest)

-- the bytes of the body, and the lines behind it
unfoldable pub dot_read : List Bytes → Bytes × List Bytes
unfolding unstuff
dot_read [] = ([], [])
dot_read (line ∷ lines) =
    let more = dot_read lines in if same line dot then ([], lines) else prepend_line line more
