-- ===== src/Daemon.antt =====
-- src/srnd/nntp.go: the connection between the daemon and a peer, its state and what it asks of the
-- rest of the daemon. The daemon's database and its store are Go interfaces, and are records here.
pub mod Runs
pub mod Mime
pub mod Pending
pub mod Wanted
pub mod Deliver
pub mod Account
pub mod Transfer
pub mod Reader
pub mod Groups
pub mod Lines
pub mod Policy
pub mod Feeds
pub mod Dial
pub mod Scrape
use srndv.Base.{
  ℕ, ◌+◌, ◌-◌, ◌%◌, Bool, true, false, Option, none, some, List, [], ◌∷◌, ◌++◌, map, ◌==◌,
  if◌then◌else◌, Bytes, split, ℤ,
}
use srndv.Header.{Header}
use srndv.Inbound.{Error, Answer}
use srndv.Inbound.Groups.{dot_lines}
use srndv.Nntp.Ident.{ArticleEntry}

-- int64 wraps around
abbrev pub w64 : ℕ
w64 = 18446744073709551616

abbrev pub add64 : ℕ → ℕ → ℕ
add64 a b = (a + b) % w64

abbrev pub sub64 : ℕ → ℕ → ℕ
sub64 a b = (a + (w64 - b % w64)) % w64

-- syncEvent
pub record SyncEvent : Type 0 where
  pub msgid : Bytes
  pub sz : ℕ
  pub state : Bytes

-- the fields of a PostModel that XOVER prints
pub record Overview : Type 0 where
  pub subject : Bytes
  pub name : Bytes
  pub frontend : Bytes
  pub date : Bytes
  pub message_id : Bytes
  pub reference : Bytes

-- What a reader of a body yields: its bytes, and whether it comes to its end without an error.
pub record Body : Type 0 where
  pub text : Bytes
  pub complete : Bool

-- the part of the interface Database that a connection uses; `W` is the state of database and store
pub record Database (W : Type 0) : Type 0 where
  pub has_newsgroup : W → Bytes → Bool
  pub has_article : W → Bytes → Bool
  pub has_article_local : W → Bytes → Bool
  pub article_banned : W → Bytes → Bool
  pub newsgroup_banned : W → Bytes → Bool × Option Error
  pub pubkey_is_banned : W → Bytes → Bool × Option Error
  pub check_enc_ip_banned : W → Bytes → Bool × Option Error
  pub is_expired : W → Bytes → Bool
  pub ban_article : W → Bytes → Bytes → W × Option Error
  pub check_nntp_user_exists : W → Bytes → Bool × Option Error
  pub check_nntp_login : W → Bytes → Bytes → Bool × Option Error
  pub get_enc_address : W → Bytes → W × Answer Bytes
  pub get_all_newsgroups : W → List Bytes
  pub count_posts_in_group : W → Bytes → ℕ
  pub count_all_articles_in_group : W → Bytes → Answer ℕ
  pub get_last_and_first : W → Bytes → Answer (ℕ × ℕ)
  pub get_message_id_for_nntp_id : W → Bytes → ℤ → Answer Bytes
  pub get_nntp_id_for_message_id : W → Bytes → Bytes → ℕ × Option Error
  pub get_posts_in_group : W → Bytes → Answer (List (Option Overview))

-- the part of the interface ArticleStore that a connection uses; a file is named by its message id
pub record ArticleStore (W : Type 0) : Type 0 where
  pub has_article : W → Bytes → Bool
  -- `false` where CreateFile returns nil
  pub create_file : W → Bytes → W × Bool
  -- a write to the file that CreateFile opened
  pub write_file : W → Bytes → Bytes → W × Option Error
  pub process_message_body : W → Bytes → Header → Body → W × Option Error
  pub close_file : W → Bytes → W
  -- DelFile of the file's name
  pub del_file : W → Bytes → W
  pub open_message : W → Bytes → Answer Bytes
  pub get_headers : W → Bytes → Option Header
  pub get_message_size : W → Bytes → ℕ

-- The daemon as a connection sees it. `remote_host` is the host of the connection's address.
pub record NntpDaemon (W : Type 0) : Type 0 where
  pub database : Database W
  pub store : ArticleStore W
  pub instance_name : Bytes
  pub allow_anon : Bool
  pub allow_anon_attachments : Bool
  pub allow_attachments : Bool
  pub remote_host : Bytes
  pub fresh_message_id : Bytes
  pub time_now : Bytes
  pub can_tls : Bool
  -- HandleStartTLS over the lines to come: the lines under encryption, or the error of the
  -- handshake
  pub starttls : List Bytes → Answer (List Bytes)
  -- the text of strconv.ParseInt's error
  pub number_error : Bytes → Error
  -- the error of the socket when these lines were handed to it
  pub write_error : List Bytes → Option Error

-- nntpConnection. The channels are the lists of what waits in them, the oldest first. `input`
-- holds the lines that the peer sends from here on, `sent` those handed to the socket; `infeed`
-- and `asked` are what loadFromInfeed and askForArticle of the daemon were called with; `world` is
-- the state of its database and its store.
pub record NntpConnection (W : Type 0) : Type 0 where
  pub mode : Bytes
  pub group : Bytes
  pub authenticated : Bool
  pub username : Bytes
  pub article : List Bytes
  pub check : List SyncEvent
  pub takethis : List SyncEvent
  pub pending : List (Bytes × SyncEvent)
  pub backlog : ℕ
  pub input : List Bytes
  pub sent : List Bytes
  pub is_open : Bool
  pub infeed : List Bytes
  pub asked : List ArticleEntry
  pub world : W

-- What a call on a connection comes to: a panic, which ends the process; a send on a full channel,
-- which waits for the other goroutine; or a return with an error or nil.
pub data Run (W : Type 0) : Type 0 where
  panics : Run W
  blocks : Run W
  returns : NntpConnection W → Option Error → Run W

-- make(chan string, 1024)
abbrev pub channel_capacity : ℕ
channel_capacity = 1024

-- textproto's DotWriter: a CR in front of the end of a line is part of that end
unfoldable pub drop_cr : Bytes → Bytes
drop_cr [] = []
drop_cr (c ∷ []) = if c == 13 then [] else c ∷ []
drop_cr (c ∷ (d ∷ cs)) = c ∷ drop_cr (d ∷ cs)

unfoldable pub dot_writer : Bytes → List Bytes
unfolding drop_cr dot_lines
dot_writer text = dot_lines (map drop_cr (split 10 text))

module _ {W : Type 0} where
  -- PrintfLine, whose error no handler looks at
  abbrev pub print_line : NntpConnection W → Bytes → NntpConnection W
  print_line c line = record c { sent = c.sent ++ line ∷ [] }

  abbrev pub print_lines : NntpConnection W → List Bytes → NntpConnection W
  print_lines c lines = record c { sent = c.sent ++ lines }

  abbrev pub replied : NntpConnection W → Bytes → Run W
  replied c line = returns (print_line c line) none
