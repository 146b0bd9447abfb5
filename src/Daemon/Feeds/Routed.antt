-- ===== src/Daemon/Feeds/Routed.antt =====
-- Where poll of src/srnd/daemon.go sends an article, and what changes to the feeds do to that.
use srndv.Base.{
  ℕ, ◌≡◌, inl, inr, refl, ap, subst, Bool, true, Option, none, some, List, [], ◌∷◌, ltb,
  if◌then◌else◌, arith, All, Holds, length, suc, ◌≤◌, Bool-cases, Option-cases, Bytes, codes, same,
  same_iff, false, ◌&&◌,
}
use srndv.Nntp.Ident.{ArticleEntry}
use srndv.Daemon.Policy.{FeedPolicy, allows_newsgroup, sure, verdict}
use srndv.Daemon.Feeds.{
  Link, FeedState, FeedStatus, Feeds, get_key, set_key, delete_key, connections_of, get_feed_status,
  statuses, active_feeds, modify_feed_policy, deregister_feed, remove_feed, lowest_step,
  lowest_from, lowest_backlog_connection, has_suffix, carriers, append_option, picked,
  send_to_feeds, ask_feeds,
}

get_key-delete_key :
    {A : Type 0} (key : Bytes) (m : List (Bytes × A)) → get_key key (delete_key key m) ≡ none
unfolding get_key delete_key
get_key-delete_key key [] = refl
get_key-delete_key key ((k, a) ∷ m) = elim (Bool-cases (same k key)) [
  | inl e ↦ rw e (get_key-delete_key key m)
  | inr e ↦ rw (e, e) (get_key-delete_key key m)
]

-- removeFeed takes the feed away and tells none of its connections to quit: it asks for them when
-- the feed is gone already.
pub remove_feed_stops_none :
    (self : Feeds) (name : Bytes)
    → ((remove_feed self name).1 ≡ []) × ((remove_feed self name).0.active ≡ self.active)
unfolding remove_feed deregister_feed get_feed_status
remove_feed_stops_none self name = (rw (get_key-delete_key name self.loaded) refl, refl)

module _ (valid : Bytes → Bytes → Bool) where
  abbrev reloaded : Feeds → List (Bytes × FeedState) → Feeds
  reloaded self l = record self { loaded = l }

  statuses-reloaded :
      (self : Feeds) (l m : List (Bytes × FeedState))
      → statuses (reloaded self l) m ≡ statuses self m
  unfolding statuses
  statuses-reloaded self l [] = refl
  statuses-reloaded self l ((k, t) ∷ m) =
      ap (◌∷◌ (record { exists = true; conns = connections_of k self.active; state = some t }))
        (statuses-reloaded self l m)

  picked-set_key :
      (suffix newsgroup : Bytes) (self : Feeds) (l : List (Bytes × FeedState)) (name : Bytes)
      (s s0 : FeedState) (m : List (Bytes × FeedState))
      → get_key name m ≡ some s0
      → picked valid suffix newsgroup (statuses (reloaded self l) (set_key name s m))
        ≡ picked valid suffix newsgroup (statuses self m)
  unfolding picked statuses set_key get_key
  picked-set_key suffix newsgroup self l name s s0 [] h = cc
  picked-set_key suffix newsgroup self l name s s0 ((k, t) ∷ m) h =
      let first =
        lowest_backlog_connection
          (carriers valid suffix newsgroup (connections_of k self.active)) in
      elim (Bool-cases (same k name)) [
        | inl e ↦ rw e (
            ap (λ fs. append_option valid first (picked valid suffix newsgroup fs))
              (statuses-reloaded self l m))
        | inr e ↦
            let h' = subst (λ b. (if b then some t else get_key name m) ≡ some s0) e h in
            rw e (
              ap (append_option valid first)
                (picked-set_key suffix newsgroup self l name s s0 m h'))
      ]

  picked-modify_feed_policy :
      (suffix newsgroup : Bytes) (self : Feeds) (name : Bytes) (policy : FeedPolicy)
      → picked valid suffix newsgroup (active_feeds (modify_feed_policy self name policy).0)
        ≡ picked valid suffix newsgroup (active_feeds self)
  unfolding modify_feed_policy active_feeds
  picked-modify_feed_policy suffix newsgroup self name policy =
      elim (Option-cases (get_key name self.loaded)) [
        | inl e ↦ rw e refl
        | inr (t, e) ↦ rw e (
            picked-set_key suffix newsgroup self
              (set_key name (record t { feed_policy = policy }) self.loaded) name
              (record t { feed_policy = policy }) t self.loaded e)
      ]

  -- A new policy for a feed changes nothing for its open connections: every article goes to the
  -- same ones as before, and is asked of the same ones, since poll looks at the policy that each
  -- connection was made with.
  pub new_policy_unused :
      (self : Feeds) (name : Bytes) (policy : FeedPolicy) (configured : ℕ) (e : ArticleEntry)
      → let self' = (modify_feed_policy self name policy).0 in
        (send_to_feeds valid configured self' e ≡ send_to_feeds valid configured self e)
        × (ask_feeds valid self' e ≡ ask_feeds valid self e)
  unfolding send_to_feeds ask_feeds
  new_policy_unused self name policy configured e = (
    ap (λ cs. if ltb 0 configured then cs else [])
        (picked-modify_feed_policy (codes "-stream") e.newsgroup self name policy),
    picked-modify_feed_policy (codes "-reader") e.newsgroup self name policy,
  )

  -- what holds of every connection that is handed an article
  abbrev pub IsCarrier : Bytes → Bytes → Link → Type 0
  IsCarrier suffix newsgroup c =
      (verdict (allows_newsgroup (sure valid) c.policy newsgroup) ≡ true)
      × (has_suffix suffix c.name ≡ true)

  carriers-IsCarrier :
      (suffix newsgroup : Bytes) (cs : List Link)
      → All (IsCarrier suffix newsgroup) (carriers valid suffix newsgroup cs)
  unfolding carriers
  carriers-IsCarrier suffix newsgroup [] = tt
  carriers-IsCarrier suffix newsgroup (c ∷ cs) =
      let rest = carriers-IsCarrier suffix newsgroup cs in
      elim (Bool-cases (verdict (allows_newsgroup (sure valid) c.policy newsgroup))) [
        | inr e ↦ rw e rest
        | inl e ↦ rw e (elim (Bool-cases (has_suffix suffix c.name)) [
          | inl f ↦ rw f ((e, f), rest)
          | inr f ↦ rw f rest
        ])
      ]

  lowest_from-Holds :
      (P : Link → Type 0) (min : ℕ) (o : Option Link) (cs : List Link)
      → Holds P o
      → All P cs
      → Holds P (lowest_from min o cs)
  unfolding lowest_from
  lowest_from-Holds P min o [] h a = h
  lowest_from-Holds P min o (c ∷ cs) h a = elim (Bool-cases (lowest_step min c.backlog)) [
    | inl e ↦ rw e (lowest_from-Holds P c.backlog (some c) cs a.0 a.1)
    | inr e ↦ rw e (lowest_from-Holds P min o cs h a.1)
  ]

  append_option-All :
      (P : Link → Type 0) (o : Option Link) (cs : List Link)
      → Holds P o
      → All P cs
      → All P (append_option valid o cs)
  append_option-All P none cs h a = a
  append_option-All P (some c) cs h a = (h, a)

  picked-IsCarrier :
      (suffix newsgroup : Bytes) (fs : List FeedStatus)
      → All (IsCarrier suffix newsgroup) (picked valid suffix newsgroup fs)
  unfolding picked lowest_backlog_connection
  picked-IsCarrier suffix newsgroup [] = tt
  picked-IsCarrier suffix newsgroup (f ∷ fs) =
      append_option-All (IsCarrier suffix newsgroup) _ _
        (lowest_from-Holds (IsCarrier suffix newsgroup) 0 none
          (carriers valid suffix newsgroup f.conns) tt
          (carriers-IsCarrier suffix newsgroup f.conns))
        (picked-IsCarrier suffix newsgroup fs)

  length-picked :
      (suffix newsgroup : Bytes) (fs : List FeedStatus)
      → length (picked valid suffix newsgroup fs) ≤ length fs
  unfolding picked
  length-picked suffix newsgroup [] = omega arith
  length-picked suffix newsgroup (f ∷ fs) =
      elim (Option-cases (lowest_backlog_connection (carriers valid suffix newsgroup f.conns))) [
        | inl e ↦ rw e (omega (arith, length-picked suffix newsgroup fs))
        | inr (c, e) ↦ rw e (omega (arith, length-picked suffix newsgroup fs))
      ]

  length-statuses :
      (self : Feeds) (m : List (Bytes × FeedState)) → length (statuses self m) ≡ length m
  unfolding statuses
  length-statuses self [] = refl
  length-statuses self (x ∷ m) = ap suc (length-statuses self m)

  -- the connections among these that belong to a feed
  abbrev pub of_feed : Bytes → List Link → List Link
  of_feed name [] = []
  of_feed name (c ∷ cs) =
      let rest = of_feed name cs in if same c.feedname name then c ∷ rest else rest

  -- how often a name is a key
  abbrev pub occurs : Bytes → List (Bytes × FeedState) → ℕ
  occurs name [] = 0
  occurs name ((k, s) ∷ m) = let rest = occurs name m in if same k name then suc rest else rest

  -- no name is the key of two entries, as in every map
  abbrev pub IsMap : List (Bytes × FeedState) → Type 0
  IsMap m = (name : Bytes) → occurs name m ≤ 1

  connections_of-All :
      (name : Bytes) (m : List (Bytes × Link))
      → All (λ (c : Link). c.feedname ≡ name) (connections_of name m)
  unfolding connections_of
  connections_of-All name [] = tt
  connections_of-All name ((k, c) ∷ m) = elim (Bool-cases (same c.feedname name)) [
    | inl e ↦ rw e ((same_iff c.feedname name).0 e, connections_of-All name m)
    | inr e ↦ rw e (connections_of-All name m)
  ]

  carriers-All :
      (P : Link → Type 0) (suffix newsgroup : Bytes) (cs : List Link)
      → All P cs
      → All P (carriers valid suffix newsgroup cs)
  unfolding carriers
  carriers-All P suffix newsgroup [] h = tt
  carriers-All P suffix newsgroup (c ∷ cs) h =
      elim (Bool-cases
        (verdict (allows_newsgroup (sure valid) c.policy newsgroup) && has_suffix suffix c.name)) [
          | inl e ↦ rw e (h.0, carriers-All P suffix newsgroup cs h.1)
          | inr e ↦ rw e (carriers-All P suffix newsgroup cs h.1)
        ]

  of_feed-append_option :
      (name k : Bytes) (o : Option Link) (cs : List Link)
      → Holds (λ (c : Link). c.feedname ≡ k) o
      → length (of_feed name (append_option valid o cs))
        ≤ (if same k name then suc (length (of_feed name cs)) else length (of_feed name cs))
  of_feed-append_option name k none cs h = elim (Bool-cases (same k name)) [
    | inl e ↦ rw e (omega arith)
    | inr e ↦ rw e (omega arith)
  ]
  of_feed-append_option name k (some c) cs h =
      rw h (elim (Bool-cases (same k name)) [
        | inl e ↦ rw e (omega arith)
        | inr e ↦ rw e (omega arith)
      ])

  of_feed-picked :
      (suffix newsgroup name : Bytes) (self : Feeds) (m : List (Bytes × FeedState))
      → length (of_feed name (picked valid suffix newsgroup (statuses self m))) ≤ occurs name m
  unfolding picked statuses lowest_backlog_connection
  of_feed-picked suffix newsgroup name self [] = omega arith
  of_feed-picked suffix newsgroup name self ((k, s) ∷ m) =
      let conns = connections_of k self.active in
      let rest = picked valid suffix newsgroup (statuses self m) in
      let one =
        of_feed-append_option name k (lowest_from 0 none (carriers valid suffix newsgroup conns))
          rest
          (lowest_from-Holds (λ (c : Link). c.feedname ≡ k) 0 none
            (carriers valid suffix newsgroup conns) tt
            (carriers-All (λ (c : Link). c.feedname ≡ k) suffix newsgroup conns
              (connections_of-All k self.active))) in
      bounded (same k name) _ _ _ one (of_feed-picked suffix newsgroup name self m)
    where
      bounded :
          (b : Bool) (n r o : ℕ)
          → n ≤ (if b then suc r else r)
          → r ≤ o
          → n ≤ (if b then suc o else o)
      bounded true n r o h k = omega (arith, h, k)
      bounded false n r o h k = omega (arith, h, k)

  -- An article is only offered to connections whose policy carries its newsgroup and whose name is
  -- that of a stream; to no two connections of the same feed, and to no more connections than
  -- there are feeds; and without a feed in the configuration to none.
  pub send_to_feeds_lem :
      (configured : ℕ) (self : Feeds) (e : ArticleEntry)
      → IsMap self.loaded
      → All (IsCarrier (codes "-stream") e.newsgroup) (send_to_feeds valid configured self e)
        × ((name : Bytes) → length (of_feed name (send_to_feeds valid configured self e)) ≤ 1)
        × (length (send_to_feeds valid configured self e)
            ≤ (if ltb 0 configured then length self.loaded else 0))
  unfolding send_to_feeds active_feeds
  send_to_feeds_lem configured self e keys = elim (Bool-cases (ltb 0 configured)) [
    | inl c ↦ rw c (
      picked-IsCarrier (codes "-stream") e.newsgroup (statuses self self.loaded),
      λ name.
          omega
            (arith, of_feed-picked (codes "-stream") e.newsgroup name self self.loaded, keys name),
      omega (
        arith,
        length-picked (codes "-stream") e.newsgroup (statuses self self.loaded),
        length-statuses self self.loaded,
      ),
    )
    | inr c ↦ rw c (tt, λ name. omega arith, omega arith)
  ]
