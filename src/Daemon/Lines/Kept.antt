-- ===== src/Daemon/Lines/Kept.antt =====
-- The commands of handleLine in src/srnd/nntp.go with a peer that has not authenticated, one by
-- one.
use srndv.Base.{
  ℕ, ◌≡◌, inl, inr, refl, Bool, true, false, Option, none, some, List, [], ◌∷◌, ltb, length, drop,
  if◌then◌else◌, Bytes, codes, same, arith, Bool-cases,
}
use srndv.Header.{Header}
use srndv.Inbound.{Error}
use srndv.Nntp.Ident.{ArticleEntry}
use srndv.Daemon.{NntpDaemon, NntpConnection, Run, panics, blocks, returns}
use srndv.Daemon.Pending.{stream_answer, message_set_pending_state, message_set_processed}
use srndv.Daemon.Mime.{Dotted, dot_reader, read_mime_header}
use srndv.Daemon.Wanted.{check_mime_header, refused}
use srndv.Daemon.Account.{
  mode_command, quit_command, authinfo_command, user_command, pass_command, check_command,
  user_known, login_reply,
}
use srndv.Daemon.Transfer.{takethis_command, ihave_command, post_command, takethis_read}
use srndv.Daemon.Reader.{article_command, head_command, stat_command, xover_command}
use srndv.Daemon.Groups.{listgroup_command, newsgroups_command, group_command, list_command}

-- what a stranger must not touch: the database and the store, what the daemon was told and asked
-- for, and whether the peer counts as authenticated
abbrev pub Guarded : Type 0 → Type 0
Guarded W = W × (List Bytes × (List ArticleEntry × Bool))

module _ {W : Type 0} where
  abbrev pub guarded : NntpConnection W → Guarded W
  guarded c = (c.world, (c.infeed, (c.asked, c.authenticated)))

  -- the connection that a call returns, or the one it was called on
  abbrev pub after : NntpConnection W → Run W → NntpConnection W
  after c panics = c
  after c blocks = c
  after c (returns c' e) = c'

  abbrev pub Keeps : NntpConnection W → Run W → Type 0
  Keeps c r = guarded (after c r) ≡ guarded c

  module _ (daemon : NntpDaemon W) where
    pub mode_command-Keeps : (w : Bytes) (c : NntpConnection W) → Keeps c (mode_command daemon w c)
    unfolding mode_command
    mode_command-Keeps w c = ground arith

    pub check_command-Keeps :
        (w : Bytes) (c : NntpConnection W) → Keeps c (check_command daemon w c)
    unfolding check_command
    check_command-Keeps w c = ground arith

    pub group_command-Keeps :
        (w : Bytes) (c : NntpConnection W) → Keeps c (group_command daemon w c)
    unfolding group_command
    group_command-Keeps w c = ground arith

    pub head_command-Keeps : (w : Bytes) (c : NntpConnection W) → Keeps c (head_command daemon w c)
    unfolding head_command
    head_command-Keeps w c = ground arith

    pub article_command-Keeps :
        (w : Bytes) (c : NntpConnection W) → Keeps c (article_command daemon w c)
    unfolding article_command
    article_command-Keeps w c = ground arith

    pub stat_command-Keeps :
        (w : Bytes) (ws : List Bytes) (c : NntpConnection W) → Keeps c (stat_command daemon w ws c)
    unfolding stat_command
    stat_command-Keeps w ws c = ground arith

    pub xover_command-Keeps : (c : NntpConnection W) → Keeps c (xover_command daemon c)
    unfolding xover_command
    xover_command-Keeps c = ground arith

    pub listgroup_command-Keeps :
        (w : Bytes) (c : NntpConnection W) → Keeps c (listgroup_command daemon w c)
    unfolding listgroup_command
    listgroup_command-Keeps w c = ground arith

    pub quit_command-Keeps : (c : NntpConnection W) → Keeps c (quit_command daemon c)
    unfolding quit_command
    quit_command-Keeps c = refl

    pub newsgroups_command-Keeps : (c : NntpConnection W) → Keeps c (newsgroups_command daemon c)
    unfolding newsgroups_command
    newsgroups_command-Keeps c = refl

    pub list_command-Keeps : (c : NntpConnection W) → Keeps c (list_command daemon c)
    unfolding list_command
    list_command-Keeps c = refl

    -- No login is valid in any state of the database.
    abbrev pub NoLogin : Type 0
    NoLogin =
        (w : W) (user password : Bytes)
        → (daemon.database.check_nntp_login w user password).0 ≡ false

    login_reply-Keeps :
        (c : NntpConnection W) (r : Bool × Option Error)
        → r.0 ≡ false
        → Keeps c (login_reply daemon c r)
    login_reply-Keeps c (true, e) h = cc
    login_reply-Keeps c (false, none) h = refl
    login_reply-Keeps c (false, some e) h = refl

    user_known-Keeps :
        (line : Bytes) (c : NntpConnection W) (r : Bool × Option Error)
        → NoLogin
        → Keeps c (user_known daemon line c r)
    user_known-Keeps line c (true, e) n = elim (Bool-cases (ltb (length line) 14)) [
      | inl short ↦ rw short refl
      | inr long ↦ rw long (login_reply-Keeps c _ (n c.world c.username (drop 14 line)))
    ]
    user_known-Keeps line c (false, e) n = login_reply-Keeps c (false, e) refl

    user_command-Keeps :
        (ws : List Bytes) (c : NntpConnection W) → Keeps c (user_command daemon ws c)
    unfolding user_command
    user_command-Keeps [] c = refl
    user_command-Keeps (w ∷ ws) c = refl

    pass_command-Keeps :
        (line : Bytes) (c : NntpConnection W) → NoLogin → Keeps c (pass_command daemon line c)
    unfolding pass_command
    pass_command-Keeps line c n = elim (Bool-cases (same c.username [])) [
      | inl e ↦ rw e refl
      | inr e ↦ rw e (user_known-Keeps line c _ n)
    ]

    pub authinfo_command-Keeps :
        (line w : Bytes) (ws : List Bytes) (c : NntpConnection W)
        → NoLogin
        → Keeps c (authinfo_command daemon line w ws c)
    unfolding authinfo_command
    authinfo_command-Keeps line w ws c n =
        ground (arith, user_command-Keeps ws c, pass_command-Keeps line c n)

    stranger_refused :
        (c : NntpConnection W) (hdr : Header)
        → c.authenticated ≡ false
        → check_mime_header daemon c hdr ≡ refused (codes "not authenticated")
    unfolding check_mime_header
    stranger_refused c hdr h = rw h refl

    takethis_read-Keeps :
        (msgid : Bytes) (d : Dotted) (c0 c : NntpConnection W) (r : Option (Header × List Bytes))
        → c.authenticated ≡ false
        → guarded (after c0 (takethis_read daemon msgid d c r)) ≡ guarded c
    takethis_read-Keeps msgid d c0 c none h = refl
    takethis_read-Keeps msgid d c0 c (some (hdr, lines)) h =
        rw (stranger_refused c hdr h) (unfold same in refl)

    pub takethis_command-Keeps :
        (msgid : Bytes) (c : NntpConnection W)
        → c.authenticated ≡ false
        → Keeps c (takethis_command daemon msgid c)
    unfolding takethis_command
    takethis_command-Keeps msgid c h =
        let d = dot_reader c.input in
        takethis_read-Keeps msgid d c (record c { input = d.rest }) (read_mime_header d.lines) h

    pub ihave_command-Keeps :
        (msgid : Bytes) (c : NntpConnection W)
        → c.authenticated ≡ false
        → Keeps c (ihave_command daemon msgid c)
    unfolding ihave_command
    ihave_command-Keeps msgid c h = rw h refl

    pub post_command-Keeps :
        (c : NntpConnection W) → c.authenticated ≡ false → Keeps c (post_command daemon c)
    unfolding post_command
    post_command-Keeps c h = rw h refl

    processed-Keeps :
        (msgid : Bytes) (c : NntpConnection W) → guarded (message_set_processed c msgid) ≡ guarded c
    unfolding message_set_processed
    processed-Keeps msgid c = ground arith

    pub stream_answer-Keeps :
        (code : ℕ) (msgid : Bytes) (c : NntpConnection W) (r : Run W)
        → Keeps c r
        → Keeps c (stream_answer daemon code msgid c r)
    unfolding stream_answer message_set_pending_state
    stream_answer-Keeps code msgid c r h = ground (arith, processed-Keeps msgid c)

    pub Keeps-if :
        (c : NntpConnection W) (b : Bool) (x y : Run W)
        → Keeps c x
        → Keeps c y
        → Keeps c (if b then x else y)
    Keeps-if c true x y hx hy = hx
    Keeps-if c false x y hx hy = hy
