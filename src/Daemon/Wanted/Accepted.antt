-- ===== src/Daemon/Wanted/Accepted.antt =====
-- checkMIMEHeader of src/srnd/nntp.go against the list of what an article has to satisfy.
use srndv.Base.{
  ◌≡◌, Bool, true, false, not, ◌&&◌, ◌||◌, Option, none, some, [], ◌∷◌, if◌then◌else◌, Bytes, same,
  arith, Bool-cases, inl, inr, refl,
}
use srndv.Header.{Header}
use srndv.Inbound.{Error}
use srndv.Nntp.Ident.{message_id_valid, newsgroup_valid}
use srndv.Daemon.{NntpDaemon, NntpConnection}
use srndv.Daemon.Wanted.{
  Verdict, Facts, facts, differs, anonymous_post, attachment_rules, address_checked, addressed_post,
  check_facts, check_mime_header_no_auth, check_mime_header, allowed,
}

abbrev pub is_nil : Bytes → Bool
is_nil [] = true
is_nil (_ ∷ _) = false

module _ {W : Type 0} (daemon : NntpDaemon W) where
  abbrev pub is_anon_allowed : Facts → Bool
  is_anon_allowed f =
      daemon.allow_anon
      && (not f.has_attachment || (daemon.allow_anon_attachments && daemon.allow_attachments))

  abbrev pub is_clear : Bool × Option Error → Bool
  is_clear (ban, none) = not ban
  is_clear (ban, some e) = true

  abbrev pub is_address_allowed : W → Facts → Bool
  is_address_allowed w f =
      (same f.encaddr [] || is_clear (daemon.database.check_enc_ip_banned w f.encaddr))
      && (daemon.allow_attachments || (f.is_ctl || (not f.is_signed && not f.has_attachment)))

  -- What an article has to satisfy: a newsgroup and ids that are proper, nothing banned, nothing
  -- seen, and the rules for its kind of poster. A control message is let off these rules.
  abbrev pub is_acceptable : W → Facts → Bool
  is_acceptable w f =
      newsgroup_valid f.newsgroup
      && (not (daemon.database.newsgroup_banned w f.newsgroup).0
          && (not (daemon.database.pubkey_is_banned w f.pubkey).0
              && ((message_id_valid f.msgid
                    || (differs f.reference [] && not (message_id_valid f.reference)))
                  && (not (daemon.database.article_banned w f.msgid)
                      && (not
                            (differs f.reference [] && daemon.database.article_banned w f.reference)
                          && (not (daemon.database.has_article_local w f.msgid)
                              && (not (daemon.database.has_article w f.msgid)
                                  && (f.is_ctl
                                      || (if f.anon_poster
                                          then is_anon_allowed f
                                          else is_address_allowed w f)))))))))

  anonymous_post_lem : (f : Facts) → is_nil (anonymous_post daemon f).reason ≡ is_anon_allowed f
  unfolding anonymous_post
  anonymous_post_lem f = ground arith

  attachment_rules_lem :
      (f : Facts) (ban : Bool) (err : Option Error)
      → is_nil (attachment_rules daemon f ban err).reason
        ≡ (daemon.allow_attachments || (f.is_ctl || (not f.is_signed && not f.has_attachment)))
  unfolding attachment_rules
  attachment_rules_lem f ban err = ground arith

  address_checked_lem :
      (f : Facts) (r : Bool × Option Error)
      → is_nil (address_checked daemon f r).reason ≡ (
          is_clear r
          && (daemon.allow_attachments || (f.is_ctl || (not f.is_signed && not f.has_attachment))))
  address_checked_lem f (true, none) = refl
  address_checked_lem f (false, none) = attachment_rules_lem f false none
  address_checked_lem f (ban, some e) = attachment_rules_lem f ban (some e)

  addressed_post_lem :
      (w : W) (f : Facts) → is_nil (addressed_post daemon w f).reason ≡ is_address_allowed w f
  unfolding addressed_post
  addressed_post_lem w f = elim (Bool-cases (same f.encaddr [])) [
    | inl e ↦ rw e (attachment_rules_lem f false none)
    | inr e ↦ rw e (address_checked_lem f (daemon.database.check_enc_ip_banned w f.encaddr))
  ]

  -- a refusal in front of other tests
  refused_first :
      (b ok : Bool) (x y : Verdict)
      → is_nil x.reason ≡ false
      → is_nil y.reason ≡ ok
      → is_nil (if b then x else y).reason ≡ (not b && ok)
  refused_first true ok x y hx hy = hx
  refused_first false ok x y hx hy = hy

  refused_unless :
      (b ok : Bool) (x y : Verdict)
      → is_nil x.reason ≡ false
      → is_nil y.reason ≡ ok
      → is_nil (if not b then x else y).reason ≡ (b && ok)
  refused_unless true ok x y hx hy = hy
  refused_unless false ok x y hx hy = hx

  kinds_lem :
      (ctl anon p q : Bool) (x y : Verdict)
      → is_nil x.reason ≡ p
      → is_nil y.reason ≡ q
      → is_nil (if ctl then allowed else if anon then x else y).reason
        ≡ (ctl || (if anon then p else q))
  kinds_lem true anon p q x y hx hy = refl
  kinds_lem false true p q x y hx hy = hx
  kinds_lem false false p q x y hx hy = hy

  pub check_facts_lem :
      (w : W) (f : Facts) → is_nil (check_facts daemon w f).reason ≡ is_acceptable w f
  unfolding check_facts
  check_facts_lem w f = refused_unless (newsgroup_valid f.newsgroup) _ _ _ refl (
      refused_first (daemon.database.newsgroup_banned w f.newsgroup).0 _ _ _ refl (
        refused_first (daemon.database.pubkey_is_banned w f.pubkey).0 _ _ _ refl (
          refused_unless
            (message_id_valid f.msgid
              || (differs f.reference [] && not (message_id_valid f.reference)))
            _ _ _ refl
            (refused_first (daemon.database.article_banned w f.msgid) _ _ _ refl (
              refused_first (differs f.reference [] && daemon.database.article_banned w f.reference)
                _ _ _ refl
                (refused_first (daemon.database.has_article_local w f.msgid) _ _ _ refl (
                  refused_first (daemon.database.has_article w f.msgid) _ _ _ refl (
                    kinds_lem f.is_ctl f.anon_poster _ _ _ _ (anonymous_post_lem f)
                      (addressed_post_lem w f)))))))))

  -- checkMIMEHeader gives no reason against an article exactly if the peer is authenticated and
  -- the header satisfies the list: the order of its tests and its early returns make no difference
  -- to this.
  pub check_mime_header_lem :
      (c : NntpConnection W) (hdr : Header)
      → is_nil (check_mime_header daemon c hdr).reason
        ≡ (c.authenticated && is_acceptable c.world (facts hdr))
  unfolding check_mime_header check_mime_header_no_auth
  check_mime_header_lem c hdr =
      refused_unless c.authenticated _ _ _ refl (check_facts_lem c.world (facts hdr))
