-- ===== src/Moderation.antt =====
-- src/srnd/mod.go: moderation events, and the engine that carries out the ones that trusted keys
-- sign. The database and the article store are Go interfaces, and are records here; `W` is their
-- state.
pub mod Trusted
pub mod Written
pub mod Deleted
use srndv.Base.{
  ℕ, zero, suc, ◌+◌, Bool, true, false, not, ◌&&◌, ◌||◌, Option, none, some, List, [], ◌∷◌, ◌++◌,
  ◌>>=◌, ltb, ◌==◌, if◌then◌else◌, Bytes, codes, same, split, ℤ, decimal_int,
}
use srndv.Header.{Header, get, set}
use srndv.Inbound.{Error, Answer, answer, failed}
use srndv.Nntp.Ident.{message_id_valid, newsgroup_valid}
use srndv.Address.{dec_addr}

-- simpleModEvent
abbrev pub ModEvent : Type 0
ModEvent = Bytes

abbrev pub word_or_empty : List Bytes → Bytes
word_or_empty [] = []
word_or_empty (w ∷ ws) = w

unfoldable pub action : ModEvent → Bytes
unfolding split
action ev = word_or_empty (split 32 ev)

abbrev pub second_word : List Bytes → Option Bytes
second_word (w ∷ (v ∷ ws)) = some v
second_word _ = none

-- the second word; without one the index is out of range
unfoldable pub target : ModEvent → Option Bytes
unfolding split
target ev = second_word (split 32 ev)

unfoldable pub overchan_delete : Bytes → ModEvent
overchan_delete msgid = codes "delete " ++ msgid

unfoldable pub overchan_inet_ban : Bytes → Bytes → ℤ → ModEvent
unfolding decimal_int
overchan_inet_ban enc_addr key expire =
    codes "overchan-inet-ban " ++ (enc_addr ++ (b':' ∷ (key ++ (b':' ∷ decimal_int expire))))

-- ModMessage.WriteTo
unfoldable pub write_to : List ModEvent → Bytes → Bytes
write_to [] delim = []
write_to (ev ∷ mm) delim = ev ++ (delim ++ write_to mm delim)

abbrev pub censor : Bytes
censor = codes "nntpchan.censor"

-- wrapModMessage: the headers and the text of the article; the message id and the date are given
unfoldable pub wrap_mod_message : Bytes → Bytes → List ModEvent → Header × Bytes
unfolding set write_to
wrap_mod_message msgid date mm =
    let h1 = set [] (codes "Newsgroups") (codes "ctl") in
    let h2 = set h1 (codes "Content-Type") (codes "text/plain; charset=UTF-8") in
    let h3 = set h2 (codes "Message-ID") msgid in
    let h4 = set h3 (codes "Date") date in
    let h5 = set h4 (codes "Path") censor in
    let h6 = set h5 (codes "From") (codes "anon <a@n.on>") in
    (set h6 (codes "Subject") (codes "censor"), write_to mm (10 ∷ []))

-- what the engine uses of the Database
pub record ModDatabase (W : Type 0) : Type 0 where
  pub get_headers_for_message : W → Bytes → Option Header
  pub get_thread_replies : W → Bytes → List Bytes
  pub get_page_for_root_message : W → Bytes → ℕ
  pub get_post_attachments : W → Bytes → List Bytes
  pub get_group_for_message : W → Bytes → Answer Bytes
  pub delete_thread : W → Bytes → W
  pub delete_article : W → Bytes → W
  pub ban_article : W → Bytes → Bytes → W
  pub ban_addr : W → Bytes → W
  pub check_admin_pubkey : W → Bytes → Bool
  pub check_mod_pubkey_global : W → Bytes → Bool
  pub check_mod_pubkey_can_mod_group : W → Bytes → Bytes → Bool

-- the parts of an NNTPMessage that the engine looks at
pub record NntpMessage : Type 0 where
  pub newsgroup : Bytes
  pub pubkey : Bytes
  pub message : Bytes

-- what it uses of the ArticleStore, and os.Remove
pub record ModStore (W : Type 0) : Type 0 where
  pub get_filename : Bytes → Bytes
  pub attachment_filepath : Bytes → Bytes
  pub thumbnail_filepath : Bytes → Bytes
  pub get_message : W → Bytes → Option NntpMessage
  pub remove_file : W → Bytes → W

pub record ModEngine (W : Type 0) : Type 0 where
  pub database : ModDatabase W
  pub store : ModStore W

-- a call of RegenFunc
pub record Regen : Type 0 where
  pub newsgroup : Bytes
  pub msgid : Bytes
  pub root : Bytes
  pub page : ℕ

pub record Moderated (W : Type 0) : Type 0 where
  pub world : W
  pub regenerated : List Regen

-- what DeletePost finds out before it deletes anything; `root` is empty but for the root of a
-- thread
pub record Deletion : Type 0 where
  pub delposts : List Bytes
  pub root : Bytes
  pub group : Bytes
  pub ref : Bytes
  pub page : ℕ

-- strings.Trim(line, "\r\t\n ")
abbrev pub is_blank : ℕ → Bool
is_blank c = c == 13 || c == 9 || c == 10 || c == 32

unfoldable pub trim_front : Bytes → Bytes
trim_front [] = []
trim_front (c ∷ cs) = let rest = trim_front cs in if is_blank c then rest else c ∷ cs

abbrev pub or_cut : ℕ → Bytes → Bytes
or_cut c [] = if is_blank c then [] else c ∷ []
or_cut c (d ∷ ds) = c ∷ (d ∷ ds)

unfoldable pub trim_end : Bytes → Bytes
trim_end [] = []
trim_end (c ∷ cs) = or_cut c (trim_end cs)

module _ {W : Type 0} (mod_engine : ModEngine W) where
  abbrev pub db : ModDatabase W
  db = mod_engine.database

  abbrev pub deletion_of : W → Bytes → Bytes → Bytes → Deletion
  deletion_of w msgid ref group =
      if same ref [] || same ref msgid
      then record {
        delposts = db.get_thread_replies w msgid ++ msgid ∷ [];
        root = msgid;
        group = group;
        ref = msgid;
        page = db.get_page_for_root_message w msgid;
      }
      else record {
        delposts = msgid ∷ [];
        root = [];
        group = group;
        ref = ref;
        page = db.get_page_for_root_message w ref;
      }

  -- An article whose header is not found is deleted alone. A header with an entry of no values
  -- panics.
  unfoldable pub deletion : W → Bytes → Option Header → Option Deletion
  unfolding get
  deletion w msgid none =
      some (record { delposts = msgid ∷ []; root = []; group = []; ref = []; page = 0 })
  deletion w msgid (some hdr) = do
    ref ← get hdr (codes "References") []
    group ← get hdr (codes "Newsgroups") []
    some (deletion_of w msgid ref group)

  unfoldable pub attachment_files : List Bytes → List Bytes
  attachment_files [] = []
  attachment_files (att ∷ atts) =
      mod_engine.store.attachment_filepath att
      ∷ (mod_engine.store.thumbnail_filepath att ∷ attachment_files atts)

  -- the list of files to delete
  unfoldable pub del_files : W → List Bytes → List Bytes
  unfolding attachment_files
  del_files w [] = []
  del_files w (delmsg ∷ delposts) =
      mod_engine.store.get_filename delmsg
      ∷ (attachment_files (db.get_post_attachments w delmsg) ++ del_files w delposts)

  unfoldable pub remove_files : List Bytes → W → W
  remove_files [] w = w
  remove_files (f ∷ files) w = remove_files files (mod_engine.store.remove_file w f)

  -- every article is taken out of the database, and banned
  unfoldable pub delete_articles : List Bytes → W → W
  delete_articles [] w = w
  delete_articles (delmsg ∷ delposts) w =
      delete_articles delposts
        (db.ban_article (db.delete_article w delmsg) delmsg (codes "deleted by moderator"))

  unfoldable pub carry_out : Bytes → Deletion → Moderated W → Moderated W
  unfolding del_files remove_files delete_articles
  carry_out msgid d st =
      let w = remove_files (del_files st.world d.delposts) st.world in
      let w' = if not (same d.root []) then db.delete_thread w d.root else w in
      record {
        world = delete_articles d.delposts w';
        regenerated =
            st.regenerated
            ++ record { newsgroup = d.group; msgid = msgid; root = d.ref; page = d.page } ∷ [];
      }

  -- DeletePost
  unfoldable pub delete_post : Bytes → Moderated W → Option (Moderated W)
  unfolding deletion carry_out
  delete_post msgid st = do
    d ← deletion st.world msgid (db.get_headers_for_message st.world msgid)
    some (carry_out msgid d st)

  -- BanAddress
  unfoldable pub ban_address : Bytes → Moderated W → Moderated W
  ban_address cidr st = record st { world = db.ban_addr st.world cidr }

  -- AllowBan
  unfoldable pub allow_ban : W → Bytes → Bool
  allow_ban w pubkey =
      if db.check_admin_pubkey w pubkey then true else db.check_mod_pubkey_global w pubkey

  abbrev pub allow_scoped : W → Bytes → Answer Bytes → Bool
  allow_scoped w pubkey (answer group) =
      if newsgroup_valid group then db.check_mod_pubkey_can_mod_group w pubkey group else false
  allow_scoped w pubkey (failed e) = false

  -- AllowDelete
  unfoldable pub allow_delete : W → Bytes → Bytes → Bool
  unfolding newsgroup_valid
  allow_delete w pubkey msgid =
      if db.check_admin_pubkey w pubkey
      then true
      else if db.check_mod_pubkey_global w pubkey
      then true
      else allow_scoped w pubkey (db.get_group_for_message w msgid)

  abbrev pub delete_event : Bytes → Moderated W → Option Bytes → Option (Moderated W)
  delete_event pubkey st none = none
  delete_event pubkey st (some msgid) =
      if not (message_id_valid msgid)
      then some st
      else if allow_delete st.world pubkey msgid
      then delete_post msgid st
      else some st

  abbrev pub allowed_ban : Bytes → Moderated W → Bytes → Moderated W
  allowed_ban pubkey st cidr = if allow_ban st.world pubkey then ban_address cidr st else st

  abbrev pub ban_parts : Bytes → Moderated W → List Bytes → Moderated W
  ban_parts pubkey st (encaddr ∷ (key ∷ (expire ∷ []))) =
      let cidr = dec_addr encaddr key in if same cidr [] then st else allowed_ban pubkey st cidr
  ban_parts pubkey st (cidr ∷ []) = allowed_ban pubkey st cidr
  ban_parts pubkey st _ = st

  -- target[0] panics on an empty target
  abbrev pub ban_event : Bytes → Moderated W → Option Bytes → Option (Moderated W)
  ban_event pubkey st none = none
  ban_event pubkey st (some []) = none
  ban_event pubkey st (some (c ∷ cs)) =
      if c == b'['
      then some (allowed_ban pubkey st (c ∷ cs))
      else some (ban_parts pubkey st (split 58 (c ∷ cs)))

  -- the loop over the lines of a message
  unfoldable pub moderate_event : Bytes → ModEvent → Moderated W → Option (Moderated W)
  unfolding action target message_id_valid allow_delete delete_post allow_ban ban_address dec_addr
      split
  moderate_event pubkey ev st =
      if same (action ev) (codes "delete")
      then delete_event pubkey st (target ev)
      else if same (action ev) (codes "overchan-inet-ban")
      then ban_event pubkey st (target ev)
      else some st

  unfoldable pub moderate_lines : Bytes → List Bytes → Moderated W → Option (Moderated W)
  unfolding moderate_event trim_front trim_end
  moderate_lines pubkey [] st = some st
  moderate_lines pubkey (line ∷ lines) st = do
    st' ← moderate_event pubkey (trim_end (trim_front line)) st
    moderate_lines pubkey lines st'

  abbrev pub moderate_message : Moderated W → Option NntpMessage → Option (Moderated W)
  moderate_message st none = some st
  moderate_message st (some nntp) =
      if same nntp.newsgroup (codes "ctl")
      then moderate_lines nntp.pubkey (split 10 nntp.message) st
      else some st

  -- one round of RunModEngine
  unfoldable pub run_mod_engine : Bytes → Moderated W → Option (Moderated W)
  unfolding moderate_lines split
  run_mod_engine msgid st = moderate_message st (mod_engine.store.get_message st.world msgid)
