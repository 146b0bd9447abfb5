-- ===== src/Examples/Daemons.antt =====
-- A daemon with an empty database and a store that is the list of its files, for the theorems about
-- src/srnd/nntp.go.
pub mod Streams
pub mod Lines
pub mod Feeds
use srndv.Base.{
  ℕ, ◌≡◌, refl, Bool, true, false, Option, none, some, List, [], ◌∷◌, ◌++◌, map, Bytes, codes,
  lift_codes, same, not, if◌then◌else◌,
}
use srndv.Header.{Header}
use srndv.Inbound.{Error, Answer, answer, failed}
use srndv.Daemon.{Body, Database, ArticleStore, NntpDaemon, NntpConnection, SyncEvent, Overview}

-- the message ids of the files that are there
abbrev pub Ids : Type 0
Ids = List Bytes

abbrev pub is_file : Ids → Bytes → Bool
is_file [] msgid = false
is_file (f ∷ fs) msgid = if same f msgid then true else is_file fs msgid

abbrev pub without_file : Ids → Bytes → Ids
without_file [] msgid = []
without_file (f ∷ fs) msgid = if same f msgid then fs else f ∷ without_file fs msgid

abbrev pub empty_database : Database Ids
empty_database = record {
  has_newsgroup = λ w g. same g (codes "overchan.test");
  has_article = λ w m. is_file w m;
  has_article_local = λ w m. is_file w m;
  article_banned = λ w m. false;
  newsgroup_banned = λ w g. (false, none);
  pubkey_is_banned = λ w k. (false, none);
  check_enc_ip_banned = λ w a. (false, none);
  is_expired = λ w m. false;
  ban_article = λ w m r. (w, none);
  check_nntp_user_exists = λ w u. (same u (codes "admin"), none);
  check_nntp_login = λ w u p. (false, none);
  get_enc_address = λ w a. (w, answer (codes "abc"));
  get_all_newsgroups = λ w. codes "overchan.test" ∷ [];
  count_posts_in_group = λ w g. 0;
  count_all_articles_in_group = λ w g. answer 0;
  get_last_and_first = λ w g. answer (0, 0);
  get_message_id_for_nntp_id = λ w g n. failed (codes "no such article");
  get_nntp_id_for_message_id = λ w g m. (1, none);
  get_posts_in_group = λ w g. answer [];
}

abbrev pub file_store : ArticleStore Ids
file_store = record {
  has_article = λ w m. is_file w m;
  create_file = λ w m. (if is_file w m then w else m ∷ w, not (is_file w m));
  write_file = λ w m t. (w, none);
  process_message_body = λ w m h b. (w, if b.complete then none else some (codes "unexpected EOF"));
  close_file = λ w m. w;
  del_file = without_file;
  open_message = λ w m. if is_file w m then answer (codes "Subject: hi") else failed (codes "none");
  get_headers = λ w m. none;
  get_message_size = λ w m. 12;
}

abbrev pub small_daemon : NntpDaemon Ids
small_daemon = record {
  database = empty_database;
  store = file_store;
  instance_name = codes "here";
  allow_anon = true;
  allow_anon_attachments = true;
  allow_attachments = true;
  remote_host = [];
  fresh_message_id = codes "<ab12@here>";
  time_now = codes "Thu, 01 Jan 1970 00:00:00 +0000";
  can_tls = false;
  starttls = λ lines. failed (codes "no TLS");
  number_error = λ s. codes "invalid syntax";
  write_error = λ lines. none;
}

-- a connection that sends these lines
abbrev pub dialled : Bool → List Bytes → NntpConnection Ids
dialled authenticated lines = record {
  mode = codes "READER";
  group = [];
  authenticated = authenticated;
  username = [];
  article = [];
  check = [];
  takethis = [];
  pending = [];
  backlog = 0;
  input = lines;
  sent = [];
  is_open = true;
  infeed = [];
  asked = [];
  world = codes "<old1@there>" ∷ [];
}

abbrev pub posted_lines : List Bytes
posted_lines = lift_codes (
    "Newsgroups: overchan.test" ∷ "Message-ID: <new1@there>" ∷ "Path: there" ∷ "" ∷ "hello" ∷ "."
    ∷ [])

abbrev pub new_header : Header
new_header =
    (codes "Newsgroups", codes "overchan.test" ∷ [])
    ∷ (codes "Message-Id", codes "<new1@there>" ∷ [])
    ∷ []
