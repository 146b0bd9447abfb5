-- ===== src/Daemon/Wanted.antt =====
-- checkMIMEHeader of src/srnd/nntp.go: whether the daemon wants an article with this header.
pub mod Accepted
use srndv.Base.{
  ℕ, Bool, true, false, not, ◌&&◌, ◌||◌, Option, none, some, List, [], ◌∷◌, ◌++◌, if◌then◌else◌,
  is_none, Bytes, codes, same, has_prefix,
}
use srndv.Header.{Header}
use srndv.Inbound.{Error}
use srndv.Nntp.Ident.{message_id_valid, newsgroup_valid}
use srndv.Daemon.{NntpDaemon, NntpConnection}
use srndv.Daemon.Mime.{mime_get, get_message_id}

-- the reason, which is empty for an article that is wanted; whether to ban the article; the error
pub record Verdict : Type 0 where
  pub reason : Bytes
  pub ban : Bool
  pub err : Option Error

abbrev pub allowed : Verdict
allowed = record { reason = []; ban = false; err = none }

abbrev pub refused : Bytes → Verdict
refused reason = record { reason = reason; ban = false; err = none }

abbrev pub banned : Bytes → Verdict
banned reason = record { reason = reason; ban = true; err = none }

abbrev pub differs : Bytes → Bytes → Bool
differs a b = not (same a b)

-- what checkMIMEHeaderNoAuth reads of the header
pub record Facts : Type 0 where
  pub newsgroup : Bytes
  pub reference : Bytes
  pub msgid : Bytes
  pub encaddr : Bytes
  pub pubkey : Bytes
  pub has_attachment : Bool
  pub is_signed : Bool
  pub is_ctl : Bool
  pub anon_poster : Bool

unfoldable pub facts : Header → Facts
unfolding mime_get get_message_id
facts hdr =
    let newsgroup = mime_get hdr (codes "Newsgroups") in
    let encaddr = mime_get hdr (codes "X-Encrypted-Ip") in
    let pubkey = mime_get hdr (codes "X-Pubkey-Ed25519") in
    let is_signed = differs pubkey [] in
    record {
      newsgroup = newsgroup;
      reference = mime_get hdr (codes "References");
      msgid = get_message_id hdr;
      encaddr = encaddr;
      pubkey = pubkey;
      has_attachment = has_prefix (codes "multipart/mixed") (mime_get hdr (codes "Content-Type"));
      is_signed = is_signed;
      is_ctl = same newsgroup (codes "ctl") && is_signed;
      anon_poster =
          differs (mime_get hdr (codes "X-Tor-Poster")) []
          || differs (mime_get hdr (codes "X-I2p-Desthash")) []
          || same encaddr [];
    }

module _ {W : Type 0} (daemon : NntpDaemon W) where
  -- an article without an address, or from Tor or I2P
  unfoldable pub anonymous_post : Facts → Verdict
  anonymous_post f =
      if daemon.allow_anon
      then (if f.has_attachment
          then (if daemon.allow_anon_attachments
              then (if daemon.allow_attachments
                  then allowed
                  else banned (codes "no attachments allowed"))
              else banned (codes "no anon attachments"))
          else allowed)
      else banned (codes "no anon posts allowed")

  -- the rules on attachments, at the end; an error of the check of the address is returned with
  -- them
  unfoldable pub attachment_rules : Facts → Bool → Option Error → Verdict
  attachment_rules f ban err =
      if daemon.allow_attachments
      then record { reason = []; ban = ban; err = err }
      else if f.is_ctl
      then record { reason = []; ban = ban; err = err }
      else if f.is_signed
      then record {
        reason = codes "disallow signed posts because no attachments allowed";
        ban = true;
        err = err;
      }
      else if f.has_attachment
      then record { reason = codes "attachments of any kind not allowed"; ban = true; err = err }
      else record { reason = []; ban = ban; err = err }

  abbrev pub address_checked : Facts → Bool × Option Error → Verdict
  address_checked f (ban, none) =
      if ban then banned (codes "address banned") else attachment_rules f ban none
  address_checked f (ban, some e) = attachment_rules f ban (some e)

  unfoldable pub addressed_post : W → Facts → Verdict
  unfolding attachment_rules
  addressed_post w f =
      if differs f.encaddr []
      then address_checked f (daemon.database.check_enc_ip_banned w f.encaddr)
      else attachment_rules f false none

  -- checkMIMEHeaderNoAuth
  unfoldable pub check_facts : W → Facts → Verdict
  unfolding message_id_valid newsgroup_valid anonymous_post addressed_post
  check_facts w f =
      if not (newsgroup_valid f.newsgroup)
      then banned (codes "invalid newsgroup: " ++ f.newsgroup)
      else if (daemon.database.newsgroup_banned w f.newsgroup).0
      then banned (codes "newsgroup banned")
      else if (daemon.database.pubkey_is_banned w f.pubkey).0
      then banned (codes "poster's pubkey is banned")
      else if not (
          message_id_valid f.msgid
          || (differs f.reference [] && not (message_id_valid f.reference)))
      then banned (
          codes "invalid reference or message id is '"
          ++ (f.msgid ++ (codes "' reference is '" ++ (f.reference ++ codes "'"))))
      else if daemon.database.article_banned w f.msgid
      then banned (codes "article banned")
      else if differs f.reference [] && daemon.database.article_banned w f.reference
      then banned (codes "thread banned")
      else if daemon.database.has_article_local w f.msgid
      then refused (codes "have this article locally")
      else if daemon.database.has_article w f.msgid
      then refused (codes "already seen")
      else if f.is_ctl
      then allowed
      else if f.anon_poster
      then anonymous_post f
      else addressed_post w f

  unfoldable pub check_mime_header_no_auth : W → Header → Verdict
  unfolding facts check_facts
  check_mime_header_no_auth w hdr = check_facts w (facts hdr)

  -- checkMIMEHeader
  unfoldable pub check_mime_header : NntpConnection W → Header → Verdict
  unfolding check_mime_header_no_auth
  check_mime_header c hdr =
      if not c.authenticated
      then refused (codes "not authenticated")
      else check_mime_header_no_auth c.world hdr
