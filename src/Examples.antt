-- ===== src/Examples.antt =====
-- Concrete inputs: a disk without faults, a server with an acceptor and a database, and the
-- connections on which the theorems are applied.
pub mod Headers
pub mod Idents
pub mod Stores
pub mod Articles
pub mod Lines
pub mod Peers
pub mod Boards
pub mod Expiry
pub mod Daemons
pub mod Moderators
pub mod Markups
use srndv.Base.{ℕ, Bool, true, false, none, some, List, [], ◌∷◌, ◌++◌, Bytes, codes, refl, take}
use srndv.Header.{Header}
use srndv.Nntp.Mode.{mode_reader, mode_unset, mode_stream}
use srndv.Store.{Disk, Files, filesystem_storage}
use srndv.Inbound.{Acceptor, Database, answer, failed, Env, Handshake, Conn}
use srndv.Inbound.Evolution.{IsSane}
use srndv.Inbound.Commands.Transfer.{IsWritable}
use srndv.Inbound.Article.Kept.{IsHealthy}

abbrev pub disk : Disk
disk = record {
  stat_error = λ name. none;
  open_error = λ name. none;
  write_error = λ name. none;
  temp_error = none;
  remove_error = λ name. none;
  checksum = λ text. take 3 text;
}

-- takes every article whose check of the header gives `status`, up to `max` bytes of a body
abbrev pub acceptor_of : ℕ → ℕ → Acceptor
acceptor_of status max = record {
  check_header = λ hdr. status;
  check_message_id = λ msgid. status;
  max_article_size = max;
}

abbrev pub database : Database
database = record {
  get_all_newsgroups = answer (codes "a.b" ∷ codes "c.d" ∷ []);
  has_newsgroup = λ group. answer true;
  get_last_and_first = λ group. answer (7, 2);
}

abbrev pub env_of : ℕ → ℕ → Env Files
env_of status max = record {
  storage = filesystem_storage disk;
  acceptor = some (acceptor_of status max);
  db = some database;
  server_name = codes "srv";
  tls_config = true;
  hooks = true;
  write_error = λ n. none;
  random = 1 ∷ 2 ∷ 3 ∷ 4 ∷ [];
  now = 7;
  parse_media_type = λ t. some t;
  base64_decode = λ b. b;
  parts = λ hdr body. [];
  parser_stops = λ hdr body. none;
}

abbrev pub no_files : Files
no_files = record { articles = []; attachments = [] }

abbrev pub conn_of : Bytes → List Bytes → Files → Conn Files
conn_of mode input files = record {
  state = record {
    feed_name = codes "inbound-feed";
    conn_name = [];
    host_name = codes "10.0.0.1";
    mode = mode;
    group = [];
    article = [];
    policy = none;
    is_open = true;
  };
  tls_on = false;
  authenticated = false;
  input = input;
  handshakes = [];
  writes = 0;
  sent = [];
  hooked = [];
  hung = false;
  store = files;
}

pub IsHealthy-disk : (name : Bytes) → IsHealthy disk name
IsHealthy-disk name = record { stat_works = refl; open_works = refl; write_works = refl }

pub writable :
    (status max : ℕ) (mode : Bytes) (input : List Bytes) (files : Files)
    → IsWritable (env_of status max) (conn_of mode input files)
writable status max mode input files = record { opened = refl; takes = λ n. refl }

abbrev pub article_lines : List Bytes
article_lines =
    codes "Message-ID: <ab@cd>" ∷ codes "Newsgroups: a.b" ∷ [] ∷ codes "hi" ∷ codes "." ∷ []

abbrev pub id : Bytes
id = codes "<ab@cd>"
