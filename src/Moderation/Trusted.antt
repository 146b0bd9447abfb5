-- ===== src/Moderation/Trusted.antt =====
-- The engine of src/srnd/mod.go and a message of a key that may not moderate.
use srndv.Base.{
  ◌≡◌, inl, inr, refl, Bool, true, false, Option, none, some, List, [], ◌∷◌, if◌then◌else◌, Bytes,
  codes, same, split, Bool-cases, is_none,
}
use srndv.Inbound.{Answer, answer, failed}
use srndv.Nntp.Ident.{message_id_valid, newsgroup_valid}
use srndv.Address.{dec_addr}
use srndv.Moderation.{
  ModEngine, NntpMessage, ModEvent, Moderated, action, target, trim_front, trim_end, allow_ban,
  allow_delete, allow_scoped, delete_event, ban_parts, ban_event, allowed_ban, moderate_event,
  moderate_lines, moderate_message, run_mod_engine,
}

abbrev no_target : Option Bytes → Bool
no_target none = true
no_target (some []) = true
no_target (some (c ∷ cs)) = false

-- an event without the word that the engine reads behind its action
abbrev pub is_fatal : ModEvent → Bool
is_fatal ev =
    if same (action ev) (codes "delete")
    then is_none (target ev)
    else if same (action ev) (codes "overchan-inet-ban")
    then no_target (target ev)
    else false

abbrev pub has_fatal : List Bytes → Bool
has_fatal [] = false
has_fatal (line ∷ lines) =
    let rest = has_fatal lines in if is_fatal (trim_end (trim_front line)) then true else rest

abbrev pub is_fatal_message : Option NntpMessage → Bool
is_fatal_message none = false
is_fatal_message (some nntp) =
    if same nntp.newsgroup (codes "ctl") then has_fatal (split 10 nntp.message) else false

module _ {W : Type 0} (e : ModEngine W) where
  -- The key is no administrator, no global moderator, and moderates no newsgroup.
  pub record NoRights (w : W) (pubkey : Bytes) : Type 0 where
    pub no_admin : e.database.check_admin_pubkey w pubkey ≡ false
    pub no_global : e.database.check_mod_pubkey_global w pubkey ≡ false
    pub no_group :
        (group : Bytes) → e.database.check_mod_pubkey_can_mod_group w pubkey group ≡ false

  -- what the engine comes to where it changes nothing: it panics, or goes on
  abbrev pub unchanged : Bool → Moderated W → Option (Moderated W)
  unchanged fatal st = if fatal then none else some st

  ban_refused : (w : W) (pubkey : Bytes) → NoRights w pubkey → allow_ban e w pubkey ≡ false
  unfolding allow_ban
  ban_refused w pubkey r = rw (r.no_admin, r.no_global) refl

  scoped_refused :
      (w : W) (pubkey : Bytes) (g : Answer Bytes)
      → NoRights w pubkey
      → allow_scoped e w pubkey g ≡ false
  scoped_refused w pubkey (failed x) r = refl
  scoped_refused w pubkey (answer group) r = elim (Bool-cases (newsgroup_valid group)) [
    | inl v ↦ rw (v, r.no_group group) refl
    | inr v ↦ rw v refl
  ]

  delete_refused :
      (w : W) (pubkey msgid : Bytes) → NoRights w pubkey → allow_delete e w pubkey msgid ≡ false
  unfolding allow_delete
  delete_refused w pubkey msgid r =
      rw (r.no_admin, r.no_global)
        (scoped_refused w pubkey (e.database.get_group_for_message w msgid) r)

  delete_event-unchanged :
      (pubkey : Bytes) (st : Moderated W) (t : Option Bytes)
      → NoRights st.world pubkey
      → delete_event e pubkey st t ≡ unchanged (is_none t) st
  delete_event-unchanged pubkey st none r = refl
  delete_event-unchanged pubkey st (some msgid) r =
      rw (delete_refused st.world pubkey msgid r)
        (elim (Bool-cases (message_id_valid msgid)) [ inl v ↦ rw v refl | inr v ↦ rw v refl ])

  allowed_ban-unchanged :
      (pubkey cidr : Bytes) (st : Moderated W)
      → NoRights st.world pubkey
      → allowed_ban e pubkey st cidr ≡ st
  allowed_ban-unchanged pubkey cidr st r = rw (ban_refused st.world pubkey r) refl

  ban_parts-unchanged :
      (pubkey : Bytes) (st : Moderated W) (parts : List Bytes)
      → NoRights st.world pubkey
      → ban_parts e pubkey st parts ≡ st
  ban_parts-unchanged pubkey st [] r = refl
  ban_parts-unchanged pubkey st (cidr ∷ []) r = allowed_ban-unchanged pubkey cidr st r
  ban_parts-unchanged pubkey st (a ∷ (b ∷ [])) r = refl
  ban_parts-unchanged pubkey st (a ∷ (b ∷ (c ∷ []))) r =
      elim (Bool-cases (same (dec_addr a b) [])) [
        | inl n ↦ rw n refl
        | inr n ↦ rw n (allowed_ban-unchanged pubkey (dec_addr a b) st r)
      ]
  ban_parts-unchanged pubkey st (a ∷ (b ∷ (c ∷ (d ∷ parts)))) r = refl

  ban_event-unchanged :
      (pubkey : Bytes) (st : Moderated W) (t : Option Bytes)
      → NoRights st.world pubkey
      → ban_event e pubkey st t ≡ unchanged (no_target t) st
  ban_event-unchanged pubkey st none r = refl
  ban_event-unchanged pubkey st (some []) r = refl
  ban_event-unchanged pubkey st (some (c ∷ cs)) r =
      rw (allowed_ban-unchanged pubkey (c ∷ cs) st r)
        (rw (ban_parts-unchanged pubkey st (split 58 (c ∷ cs)) r) (same_branches _ st))
    where
      same_branches : (b : Bool) (s : Moderated W) → (if b then some s else some s) ≡ some s
      same_branches true s = refl
      same_branches false s = refl

  moderate_event-unchanged :
      (pubkey : Bytes) (ev : ModEvent) (st : Moderated W)
      → NoRights st.world pubkey
      → moderate_event e pubkey ev st ≡ unchanged (is_fatal ev) st
  unfolding moderate_event
  moderate_event-unchanged pubkey ev st r = elim (Bool-cases (same (action ev) (codes "delete"))) [
    | inl d ↦ rw d (delete_event-unchanged pubkey st (target ev) r)
    | inr d ↦ rw d (elim (Bool-cases (same (action ev) (codes "overchan-inet-ban"))) [
      | inl b ↦ rw b (ban_event-unchanged pubkey st (target ev) r)
      | inr b ↦ rw b refl
    ])
  ]

  moderate_lines-unchanged :
      (pubkey : Bytes) (lines : List Bytes) (st : Moderated W)
      → NoRights st.world pubkey
      → moderate_lines e pubkey lines st ≡ unchanged (has_fatal lines) st
  unfolding moderate_lines
  moderate_lines-unchanged pubkey [] st r = refl
  moderate_lines-unchanged pubkey (line ∷ lines) st r =
      let ev = trim_end (trim_front line) in
      rw (moderate_event-unchanged pubkey ev st r) (elim (Bool-cases (is_fatal ev)) [
        | inl f ↦ rw f refl
        | inr f ↦ rw f (moderate_lines-unchanged pubkey lines st r)
      ])

  -- A moderation message of a key without rights deletes nothing, bans nobody and regenerates no
  -- page, whatever it says. But it ends the process exactly if it is in the newsgroup ctl and one
  -- of its lines is a delete of a single word or an overchan-inet-ban with nothing or an empty
  -- word behind it: the target is read before the key is looked at.
  pub untrusted_message_lem :
      (msgid : Bytes) (st : Moderated W)
      → ((nntp : NntpMessage)
          → e.store.get_message st.world msgid ≡ some nntp
          → NoRights st.world nntp.pubkey)
      → run_mod_engine e msgid st
        ≡ unchanged (is_fatal_message (e.store.get_message st.world msgid)) st
  unfolding run_mod_engine
  untrusted_message_lem msgid st r = message _ r
    where
      message :
          (o : Option NntpMessage)
          → ((nntp : NntpMessage) → o ≡ some nntp → NoRights st.world nntp.pubkey)
          → moderate_message e st o ≡ unchanged (is_fatal_message o) st
      message none r = refl
      message (some nntp) r = elim (Bool-cases (same nntp.newsgroup (codes "ctl"))) [
        | inl c ↦
            rw c (moderate_lines-unchanged nntp.pubkey (split 10 nntp.message) st (r nntp refl))
        | inr c ↦ rw c refl
      ]
