-- ===== src/Examples/Daemons/Feeds.antt =====
-- Feeds with a busy and a less busy connection, for src/srnd/daemon.go and src/srnd/policy.go.
use srndv.Base.{
  ◌≤◌, ◌≡◌, Bool, false, not, ◌&&◌, some, [], ◌∷◌, Bytes, codes, has_prefix, All, arith, length,
}
use mathlib.Core.Quot.{Quot}
use srndv.Nntp.Ident.{ArticleEntry}
use srndv.Daemon.Policy.{
  FeedPolicy, allows_newsgroup, has_rule, sure, carries, allows_newsgroup-carries,
}
use srndv.Daemon.Feeds.{Link, Feeds, lowest_backlog_connection, send_to_feeds}
use srndv.Daemon.Feeds.Lowest.{IsBusy, IsIn, lowest_backlog_lem}
use srndv.Daemon.Feeds.Routed.{of_feed, IsMap, IsCarrier, send_to_feeds_lem}

abbrev overchan_only : FeedPolicy
overchan_only = record {
  rules = (codes "overchan.", codes "1") ∷ (codes "overchan.test", codes "0") ∷ [];
}

-- patterns without special characters, anchored at the front
abbrev starts : Bytes → Bytes → Bool
starts k newsgroup = has_prefix k newsgroup

allows_newsgroup-carries_example :
    (allows_newsgroup (sure starts) overchan_only (codes "overchan.a")
      ≡ some (carries starts (codes "overchan.a") (Quot.mk overchan_only.rules)))
    × (allows_newsgroup (sure starts) overchan_only (codes "overchan.a")
        ≡ some (
            not (has_rule starts "0" overchan_only.rules (codes "overchan.a"))
            && has_rule starts "1" overchan_only.rules (codes "overchan.a")))
allows_newsgroup-carries_example =
    allows_newsgroup-carries starts overchan_only (codes "overchan.a")

abbrev busy : Link
busy = record {
  name = codes "a-0-stream";
  feedname = codes "a";
  backlog = 900;
  policy = overchan_only;
}

abbrev less_busy : Link
less_busy = record busy { name = codes "a-1-stream"; backlog = 7 }

links_busy : All IsBusy (busy ∷ less_busy ∷ [])
links_busy = ((omega arith, omega arith), ((omega arith, omega arith), tt))

lowest_backlog_lem_example :
    (m : Link) × (lowest_backlog_connection (busy ∷ less_busy ∷ []) ≡ some m)
    × IsIn m (busy ∷ less_busy ∷ [])
    × All (λ (d : Link). m.backlog ≤ d.backlog) (busy ∷ less_busy ∷ [])
lowest_backlog_lem_example = lowest_backlog_lem busy (less_busy ∷ []) links_busy

abbrev one_feed : Feeds
one_feed = record {
  loaded = (codes "a", record { feed_policy = overchan_only; paused = false }) ∷ [];
  active = (codes "a-0-stream", busy) ∷ (codes "a-1-stream", less_busy) ∷ [];
}

abbrev entry : ArticleEntry
entry = record { message_id = codes "<ab@cd>"; newsgroup = codes "overchan.a" }

one_feed-IsMap : IsMap starts one_feed.loaded
one_feed-IsMap name = ground arith

send_to_feeds_lem_example :
    All
      (IsCarrier starts (codes "-stream") (codes "overchan.a"))
      (send_to_feeds starts 1 one_feed entry)
    × ((name : Bytes) → length (of_feed starts name (send_to_feeds starts 1 one_feed entry)) ≤ 1)
    × (length (send_to_feeds starts 1 one_feed entry) ≤ 1)
send_to_feeds_lem_example = send_to_feeds_lem starts 1 one_feed entry one_feed-IsMap
