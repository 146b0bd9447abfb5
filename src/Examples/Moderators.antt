-- ===== src/Examples/Moderators.antt =====
-- A moderation engine whose state is the list of the banned articles, for src/srnd/mod.go, and a
-- blinded address for src/srnd/util.go.
use srndv.Base.{
  ◌≡◌, inl, inr, refl, ap, subst, Bool, true, false, Option, none, some, List, [], ◌∷◌, ◌++◌, All,
  Bytes, codes, same, same_refl, split, if◌then◌else◌, Bool-cases, arith, count_byte,
}
use srndv.Header.{Header, get, lookup, get_values, drop_comma, accumulate}
use srndv.Inbound.{answer}
use srndv.Address.{enc_addr, dec_addr}
use srndv.Address.Lost.{dec_addr-enc_addr}
use srndv.Moderation.{
  ModEngine, NntpMessage, Moderated, overchan_delete, wrap_mod_message, run_mod_engine,
  moderate_lines, delete_post, trim_front, trim_end,
}
use srndv.Moderation.Trusted.{NoRights, unchanged, is_fatal_message, untrusted_message_lem}
use srndv.Moderation.Deleted.{KeepsBans, doomed, regen_of, delete_post_lem}
use srndv.Moderation.Written.{IsLine, moderate_events, moderate_lines-wrap_mod_message}

abbrev op : Bytes
op = codes "<ab@cd>"

abbrev header : Header
header = (codes "Newsgroups", codes "overchan.test" ∷ []) ∷ []

abbrev is_banned : List Bytes → Bytes → Bool
is_banned [] msgid = false
is_banned (b ∷ bs) msgid = if same b msgid then true else is_banned bs msgid

abbrev engine : ModEngine (List Bytes)
engine = record {
  database = record {
    get_headers_for_message = λ w m. some header;
    get_thread_replies = λ w m. codes "<re@cd>" ∷ [];
    get_page_for_root_message = λ w m. 3;
    get_post_attachments = λ w m. codes "a.png" ∷ [];
    get_group_for_message = λ w m. answer (codes "overchan.test");
    delete_thread = λ w m. w;
    delete_article = λ w m. w;
    ban_article = λ w m r. m ∷ w;
    ban_addr = λ w c. w;
    check_admin_pubkey = λ w k. same k (codes "admin");
    check_mod_pubkey_global = λ w k. false;
    check_mod_pubkey_can_mod_group = λ w k g. false;
  };
  store = record {
    get_filename = λ m. m;
    attachment_filepath = λ a. a;
    thumbnail_filepath = λ a. a;
    get_message = λ w m.
        some
          (record { newsgroup = codes "ctl"; pubkey = codes "nobody"; message = codes "delete" });
    remove_file = λ w f. w;
  };
}

abbrev quiet : Moderated (List Bytes)
quiet = record { world = []; regenerated = [] }

nobody-NoRights : NoRights engine [] (codes "nobody")
unfolding same
nobody-NoRights = record { no_admin = refl; no_global = refl; no_group = λ g. refl }

nobody_asks :
    (nntp : NntpMessage)
    → engine.store.get_message [] op ≡ some nntp
    → NoRights engine [] nntp.pubkey
nobody_asks nntp e = subst (λ k. NoRights engine [] k) (ap pubkey_of e) nobody-NoRights
  where
    pubkey_of : Option NntpMessage → Bytes
    pubkey_of none = []
    pubkey_of (some m) = m.pubkey

untrusted_message_lem_example :
    run_mod_engine engine op quiet
    ≡ unchanged engine (is_fatal_message (engine.store.get_message [] op)) quiet
untrusted_message_lem_example = untrusted_message_lem engine op quiet nobody_asks

banning : KeepsBans engine (λ w m. is_banned w m ≡ true)
banning = record {
  bans = λ w m r. rw (same_refl m) refl;
  kept_by_ban =
      λ w m other r h. elim (Bool-cases (same other m)) [ inl s ↦ rw s refl | inr s ↦ rw s h ];
  kept_by_delete = λ w m other h. h;
}

no_reference : get header (codes "References") [] ≡ some []
unfolding get lookup get_values same
no_reference = refl

its_group : get header (codes "Newsgroups") [] ≡ some (codes "overchan.test")
unfolding get lookup get_values same drop_comma accumulate
its_group = refl

delete_post_lem_example :
    (st' : Moderated (List Bytes)) × (delete_post engine op quiet ≡ some st')
    × All (λ m. is_banned st'.world m ≡ true) (doomed engine [] op [])
    × (st'.regenerated ≡ [] ++ regen_of engine [] op [] (codes "overchan.test") ∷ [])
delete_post_lem_example =
    delete_post_lem engine (λ w m. is_banned w m ≡ true) banning op quiet header []
      (codes "overchan.test") refl no_reference its_group

deletes_are_lines : All IsLine (overchan_delete op ∷ [])
unfolding overchan_delete count_byte trim_front trim_end
deletes_are_lines = (record { one_line = refl; trimmed = refl }, tt)

moderate_lines-wrap_mod_message_example :
    moderate_lines engine
      (codes "admin")
      (split 10 (wrap_mod_message (codes "<x1@y1>") (codes "now") (overchan_delete op ∷ [])).1)
      quiet
    ≡ moderate_events engine (codes "admin") (overchan_delete op ∷ []) quiet
moderate_lines-wrap_mod_message_example =
    moderate_lines-wrap_mod_message engine (codes "admin") (codes "<x1@y1>") (codes "now")
      (overchan_delete op ∷ []) quiet deletes_are_lines

dec_addr-enc_addr_example :
    dec_addr
      (enc_addr (codes "10.0.0.1") (codes "AAECAwQFBgcICQoLDA0ODw=="))
      (codes "AAECAwQFBgcICQoLDA0ODw==")
    ≡ []
dec_addr-enc_addr_example =
    dec_addr-enc_addr (codes "10.0.0.1") (codes "AAECAwQFBgcICQoLDA0ODw==") (omega arith)
