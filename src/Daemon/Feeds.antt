-- ===== src/Daemon/Feeds.antt =====
-- The feeds of src/srnd/daemon.go: pollfeeds, which keeps the feeds and their connections, and
-- poll, which hands articles to them.
pub mod Lowest
pub mod Routed
use srndv.Base.{
  ℕ, ◌+◌, ◌*◌, ◌%◌, Bool, true, false, not, ◌&&◌, ◌||◌, Option, none, some, List, [], ◌∷◌, ◌++◌,
  map, ◌==◌, ltb, if◌then◌else◌, is_none, length, drop, ◌-◌, Bytes, codes, same,
}
use srndv.Header.{Header}
use srndv.Inbound.{Error, Answer, answer, failed}
use srndv.Nntp.Ident.{ArticleEntry}
use srndv.Daemon.{w64}
use srndv.Daemon.Policy.{FeedPolicy, allows_newsgroup, sure, verdict}

-- a < b on int64
abbrev pub lt64 : ℕ → ℕ → Bool
lt64 a b = ltb ((a + 9223372036854775808) % w64) ((b + 9223372036854775808) % w64)

-- what the daemon looks at in an nntpConnection
pub record Link : Type 0 where
  pub name : Bytes
  pub feedname : Bytes
  pub backlog : ℕ
  pub policy : FeedPolicy

-- feedState with the parts of its FeedConfig that the daemon changes
pub record FeedState : Type 0 where
  pub feed_policy : FeedPolicy
  pub paused : Bool

-- feedStatus
pub record FeedStatus : Type 0 where
  pub exists : Bool
  pub conns : List Link
  pub state : Option FeedState

-- loadedFeeds and activeConnections
pub record Feeds : Type 0 where
  pub loaded : List (Bytes × FeedState)
  pub active : List (Bytes × Link)

-- maps with names for keys
unfoldable pub get_key : {A : Type 0} → Bytes → List (Bytes × A) → Option A
get_key key [] = none
get_key key ((k, a) ∷ m) = if same k key then some a else get_key key m

unfoldable pub set_key : {A : Type 0} → Bytes → A → List (Bytes × A) → List (Bytes × A)
set_key key a [] = (key, a) ∷ []
set_key key a ((k, b) ∷ m) = if same k key then (k, a) ∷ m else (k, b) ∷ set_key key a m

unfoldable pub delete_key : {A : Type 0} → Bytes → List (Bytes × A) → List (Bytes × A)
delete_key key [] = []
delete_key key ((k, b) ∷ m) = if same k key then delete_key key m else (k, b) ∷ delete_key key m

-- the active connections of a feed
unfoldable pub connections_of : Bytes → List (Bytes × Link) → List Link
connections_of name [] = []
connections_of name ((k, c) ∷ m) =
    let rest = connections_of name m in if same c.feedname name then c ∷ rest else rest

abbrev pub status_of : Feeds → Bytes → Option FeedState → FeedStatus
status_of self name (some s) = record {
  exists = true;
  conns = connections_of name self.active;
  state = some s;
}
status_of self name none = record { exists = false; conns = []; state = none }

-- The cases of pollfeeds. A feed is asked for, or all of them are.
unfoldable pub get_feed_status : Feeds → Bytes → FeedStatus
unfolding get_key connections_of
get_feed_status self name = status_of self name (get_key name self.loaded)

unfoldable pub statuses : Feeds → List (Bytes × FeedState) → List FeedStatus
unfolding connections_of
statuses self [] = []
statuses self ((name, s) ∷ m) =
    record { exists = true; conns = connections_of name self.active; state = some s }
    ∷ statuses self m

-- activeFeeds
unfoldable pub active_feeds : Feeds → List FeedStatus
unfolding statuses
active_feeds self = statuses self self.loaded

abbrev pub modified : Feeds → Bytes → FeedPolicy → Option FeedState → Feeds × Option Error
modified self name policy (some s) =
    (record self { loaded = set_key name (record s { feed_policy = policy }) self.loaded }, none)
modified self name policy none = (self, some (codes "no such feed"))

-- modifyFeedPolicy
unfoldable pub modify_feed_policy : Feeds → Bytes → FeedPolicy → Feeds × Option Error
unfolding get_key set_key
modify_feed_policy self name policy = modified self name policy (get_key name self.loaded)

unfoldable pub register_feed : Feeds → Bytes → FeedPolicy → Feeds
unfolding set_key
register_feed self name policy = record self {
  loaded = set_key name (record { feed_policy = policy; paused = false }) self.loaded;
}

unfoldable pub deregister_feed : Feeds → Bytes → Feeds
unfolding delete_key
deregister_feed self name = record self { loaded = delete_key name self.loaded }

unfoldable pub register_connection : Feeds → Link → Feeds
unfolding set_key
register_connection self outfeed = record self { active = set_key outfeed.name outfeed self.active }

unfoldable pub deregister_connection : Feeds → Link → Feeds
unfolding delete_key
deregister_connection self outfeed = record self { active = delete_key outfeed.name self.active }

-- removeFeed: the feeds, and the connections that are told to quit
unfoldable pub remove_feed : Feeds → Bytes → Feeds × List Link
unfolding deregister_feed get_feed_status
remove_feed self feedname =
    let self' = deregister_feed self feedname in (self', (get_feed_status self' feedname).conns)

-- lowestBacklogConnection: `min` is 0 before the first connection
abbrev pub lowest_step : ℕ → ℕ → Bool
lowest_step min b = min == 0 || lt64 b min

unfoldable pub lowest_from : ℕ → Option Link → List Link → Option Link
lowest_from min minconn [] = minconn
lowest_from min minconn (c ∷ cs) =
    if lowest_step min c.backlog
    then lowest_from c.backlog (some c) cs
    else lowest_from min minconn cs

unfoldable pub lowest_backlog_connection : List Link → Option Link
unfolding lowest_from
lowest_backlog_connection conns = lowest_from 0 none conns

-- strings.HasSuffix
unfoldable pub has_suffix : Bytes → Bytes → Bool
has_suffix suffix s =
    not (ltb (length s) (length suffix)) && same (drop (length s - length suffix) s) suffix

-- `valid` is regexp.MatchString with patterns that compile
module _ (valid : Bytes → Bytes → Bool) where
  -- the connections of a feed that may carry the newsgroup, of one kind
  unfoldable pub carriers : Bytes → Bytes → List Link → List Link
  unfolding allows_newsgroup has_suffix
  carriers suffix newsgroup [] = []
  carriers suffix newsgroup (c ∷ cs) =
      let rest = carriers suffix newsgroup cs in
      if verdict (allows_newsgroup (sure valid) c.policy newsgroup) && has_suffix suffix c.name
      then c ∷ rest
      else rest

  abbrev pub append_option : {A : Type 0} → Option A → List A → List A
  append_option none xs = xs
  append_option (some x) xs = x ∷ xs

  -- one connection of each feed, as poll picks them
  unfoldable pub picked : Bytes → Bytes → List FeedStatus → List Link
  unfolding carriers lowest_backlog_connection
  picked suffix newsgroup [] = []
  picked suffix newsgroup (f ∷ fs) =
      append_option (lowest_backlog_connection (carriers suffix newsgroup f.conns))
        (picked suffix newsgroup fs)

  -- the connections that an article is offered to; `configured` is the number of feeds in the
  -- configuration, which Federate looks at
  unfoldable pub send_to_feeds : ℕ → Feeds → ArticleEntry → List Link
  unfolding picked active_feeds
  send_to_feeds configured self e =
      if ltb 0 configured then picked (codes "-stream") e.newsgroup (active_feeds self) else []

  -- the connections that are asked for an article
  unfoldable pub ask_feeds : Feeds → ArticleEntry → List Link
  unfolding picked active_feeds
  ask_feeds self e = picked (codes "-reader") e.newsgroup (active_feeds self)

-- the lists of askForArticle and sendAllFeeds, and the channels that pump_article_requests empties
-- them into
pub record Requests : Type 0 where
  pub ask_articles : List ArticleEntry
  pub send_articles : List ArticleEntry
  pub asking : List ArticleEntry
  pub sending : List ArticleEntry

unfoldable pub ask_for_article_later : Requests → ArticleEntry → Requests
ask_for_article_later self e = record self { ask_articles = self.ask_articles ++ e ∷ [] }

unfoldable pub send_all_feeds_later : Requests → ArticleEntry → Requests
send_all_feeds_later self e = record self { send_articles = self.send_articles ++ e ∷ [] }

unfoldable pub pump_article_requests : Requests → Requests
pump_article_requests self = record {
  ask_articles = [];
  send_articles = [];
  asking = self.asking ++ self.ask_articles;
  sending = self.sending ++ self.send_articles;
}
