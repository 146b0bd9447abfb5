-- ===== src/Daemon/Lines/Returned.antt =====
-- The commands of handleLine in src/srnd/nntp.go that always return, and AUTHINFO, which may panic.
use srndv.Base.{
  ◌≡◌, refl, Bool, true, false, not, ◌&&◌, Option, none, some, List, [], ◌∷◌, ltb, length,
  if◌then◌else◌, Bytes, codes, same, to_upper, arith, is_none,
}
use srndv.Inbound.{Error}
use srndv.Daemon.{NntpDaemon, NntpConnection, Run, panics, blocks, print_line}
use srndv.Header.{Header}
use srndv.Nntp.Ident.{message_id_valid}
use srndv.Daemon.Mime.{Dotted, dot_reader, read_mime_header, mime_get}
use srndv.Daemon.Wanted.{Verdict, check_mime_header, differs}
use srndv.Daemon.Transfer.{
  takethis_command, ihave_command, post_command, post_wanted, post_read, post_checked,
  posted_header, takethis_read, takethis_stored,
}
use srndv.Daemon.Reader.{article_command, head_command, stat_command, stat_by_id, xover_command}
use srndv.Daemon.Groups.{listgroup_command, group_command}
use srndv.Daemon.Account.{mode_command, check_command, authinfo_command, user_command, pass_command}

abbrev same_none : List Bytes → Bool
same_none [] = true
same_none (_ ∷ _) = false

module _ {W : Type 0} (daemon : NntpDaemon W) where
  abbrev pub is_panic : Run W → Bool
  is_panic panics = true
  is_panic _ = false

  abbrev pub is_blocked : Run W → Bool
  is_blocked blocks = true
  is_blocked _ = false

  -- the words of an AUTHINFO that handleLine does not check: a USER without a name, and a PASS of
  -- a known user in a line below 14 bytes
  abbrev pub is_short_authinfo : Bytes → Bytes → List Bytes → NntpConnection W → Bool
  is_short_authinfo line v rest c =
      if same (to_upper v) (codes "USER")
      then same_none rest
      else same (to_upper v) (codes "PASS")
        && (not (same c.username [])
            && ((daemon.database.check_nntp_user_exists c.world c.username).0
                && ltb (length line) 14))

  pub authinfo_command-panics :
      (line v : Bytes) (rest : List Bytes) (c : NntpConnection W)
      → is_panic (authinfo_command daemon line v rest c) ≡ is_short_authinfo line v rest c
  unfolding authinfo_command user_command pass_command
  authinfo_command-panics line v rest c = ground arith

  -- A call that returns, whatever else it does.
  abbrev pub Comes : Run W → Type 0
  Comes r = (is_panic r ≡ false) × (is_blocked r ≡ false)

  pub Comes-if : (b : Bool) (x y : Run W) → Comes x → Comes y → Comes (if b then x else y)
  Comes-if true x y hx hy = hx
  Comes-if false x y hx hy = hy

  takethis_stored-Comes :
      (m : Bytes) (r : NntpConnection W × Option Error) → Comes (takethis_stored daemon m r)
  takethis_stored-Comes m (c, none) = (refl, refl)
  takethis_stored-Comes m (c, some e) = (refl, refl)

  takethis_read-Comes :
      (m : Bytes) (d : Dotted) (c : NntpConnection W) (r : Option (Header × List Bytes))
      → Comes (takethis_read daemon m d c r)
  takethis_read-Comes m d c none = (refl, refl)
  takethis_read-Comes m d c (some (hdr, lines)) =
      let v = check_mime_header daemon c hdr in
      Comes-if (not (same v.reason [])) _ _ (refl, refl)
        (Comes-if (is_none v.err) _ _ (takethis_stored-Comes m _) (refl, refl))

  pub takethis_command-Comes :
      (m : Bytes) (c : NntpConnection W) → Comes (takethis_command daemon m c)
  unfolding takethis_command
  takethis_command-Comes m c =
      let d = dot_reader c.input in
      takethis_read-Comes m d (record c { input = d.rest }) (read_mime_header d.lines)

  pub ihave_command-Comes : (m : Bytes) (c : NntpConnection W) → Comes (ihave_command daemon m c)
  unfolding ihave_command
  ihave_command-Comes m c = ground arith

  post_wanted-Comes : (hdr : Header) (c : NntpConnection W) → Comes (post_wanted daemon hdr c)
  unfolding post_wanted
  post_wanted-Comes hdr c =
      let reference = mime_get hdr (codes "References") in
      Comes-if (differs reference [] && not (message_id_valid reference)) _ _ (refl, refl)
        (Comes-if (daemon.database.has_newsgroup c.world (mime_get hdr (codes "Newsgroups"))) _ _
          (refl, refl) (refl, refl))

  post_checked-Comes :
      (hdr : Header) (v : Verdict) (c : NntpConnection W) → Comes (post_checked daemon hdr v c)
  post_checked-Comes hdr v c =
      Comes-if (same v.reason [] && is_none v.err) _ _ (post_wanted-Comes hdr c) (refl, refl)

  post_read-Comes :
      (c : NntpConnection W) (r : Option (Header × List Bytes)) → Comes (post_read daemon c r)
  post_read-Comes c none = (refl, refl)
  post_read-Comes c (some (hdr, lines)) =
      let r = posted_header daemon c.world hdr in
      let c' = record c { world = r.0; input = lines } in
      post_checked-Comes r.1 (check_mime_header daemon c' r.1) c'

  pub post_command-Comes : (c : NntpConnection W) → Comes (post_command daemon c)
  unfolding post_command
  post_command-Comes c =
      Comes-if (not c.authenticated) _ _ (refl, refl)
        (post_read-Comes (print_line c (codes "340 Yeeeh postit yo; end with <CR-LF>.<CR-LF>"))
          (read_mime_header c.input))

  pub article_command-Comes :
      (m : Bytes) (c : NntpConnection W) → Comes (article_command daemon m c)
  unfolding article_command
  article_command-Comes m c = ground arith

  pub head_command-Comes : (m : Bytes) (c : NntpConnection W) → Comes (head_command daemon m c)
  unfolding head_command
  head_command-Comes m c = ground arith

  pub stat_command-Comes :
      (m : Bytes) (ws : List Bytes) (c : NntpConnection W) → Comes (stat_command daemon m ws c)
  unfolding stat_command stat_by_id
  stat_command-Comes m ws c = ground arith

  pub xover_command-Comes : (c : NntpConnection W) → Comes (xover_command daemon c)
  unfolding xover_command
  xover_command-Comes c = ground arith

  pub listgroup_command-Comes :
      (m : Bytes) (c : NntpConnection W) → Comes (listgroup_command daemon m c)
  unfolding listgroup_command
  listgroup_command-Comes m c = ground arith

  pub group_command-Comes : (m : Bytes) (c : NntpConnection W) → Comes (group_command daemon m c)
  unfolding group_command
  group_command-Comes m c = ground arith

  pub mode_command-Comes : (m : Bytes) (c : NntpConnection W) → Comes (mode_command daemon m c)
  unfolding mode_command
  mode_command-Comes m c = ground arith

  pub check_command-Comes : (m : Bytes) (c : NntpConnection W) → Comes (check_command daemon m c)
  unfolding check_command
  check_command-Comes m c = ground arith
