-- ===== src/Moderation/Deleted.antt =====
-- DeletePost of src/srnd/mod.go: which articles are banned behind it.
use srndv.Base.{
  ◌≡◌, ap, ◌∙◌, inl, inr, refl, Bool, ◌||◌, some, List, [], ◌∷◌, ◌++◌, if◌then◌else◌, Bytes, codes,
  same, All, Bool-cases,
}
use srndv.Header.{Header, get}
use srndv.Moderation.{
  ModEngine, Moderated, Regen, Deletion, deletion, deletion_of, carry_out, delete_articles,
  delete_post,
}

-- what a post stands in: its thread if it is a root, or else itself alone
abbrev pub is_thread : Bytes → Bytes → Bool
is_thread msgid ref = same ref [] || same ref msgid

module _ {W : Type 0} (e : ModEngine W) where
  -- The database keeps its bans.
  pub record KeepsBans (Banned : W → Bytes → Type 0) : Type 0 where
    pub bans : (w : W) (msgid reason : Bytes) → Banned (e.database.ban_article w msgid reason) msgid
    pub kept_by_ban :
        (w : W) (msgid other reason : Bytes)
        → Banned w msgid
        → Banned (e.database.ban_article w other reason) msgid
    pub kept_by_delete :
        (w : W) (msgid other : Bytes)
        → Banned w msgid
        → Banned (e.database.delete_article w other) msgid

  abbrev pub doomed : W → Bytes → Bytes → List Bytes
  doomed w msgid ref =
      if is_thread msgid ref
      then e.database.get_thread_replies w msgid ++ msgid ∷ []
      else msgid ∷ []

  abbrev pub shown_root : Bytes → Bytes → Bytes
  shown_root msgid ref = if is_thread msgid ref then msgid else ref

  doomed_lem :
      (w : W) (msgid ref group : Bytes)
      → doomed w msgid ref ≡ (deletion_of e w msgid ref group).delposts
  doomed_lem w msgid ref group = elim (Bool-cases (is_thread msgid ref)) [
    | inl t ↦ rw t refl
    | inr t ↦ rw t refl
  ]

  -- the page that DeletePost has regenerated
  abbrev pub regen_of : W → Bytes → Bytes → Bytes → Regen
  regen_of w msgid ref group = record {
    newsgroup = group;
    msgid = msgid;
    root = shown_root msgid ref;
    page = e.database.get_page_for_root_message w (shown_root msgid ref);
  }

  abbrev regen_by : Bytes → Deletion → Regen
  regen_by msgid d = record { newsgroup = d.group; msgid = msgid; root = d.ref; page = d.page }

  regen_lem :
      (w : W) (msgid ref group : Bytes)
      → regen_by msgid (deletion_of e w msgid ref group) ≡ regen_of w msgid ref group
  regen_lem w msgid ref group = elim (Bool-cases (is_thread msgid ref)) [
    | inl t ↦ rw t refl
    | inr t ↦ rw t refl
  ]

  carried :
      (msgid : Bytes) (d : Deletion) (st : Moderated W)
      → (carry_out e msgid d st).regenerated ≡ st.regenerated ++ regen_by msgid d ∷ []
  unfolding carry_out
  carried msgid d st = refl

  module _ (Banned : W → Bytes → Type 0) (k : KeepsBans Banned) where
    delete_articles-keeps :
        (delposts : List Bytes) (w : W) (msgid : Bytes)
        → Banned w msgid
        → Banned (delete_articles e delposts w) msgid
    unfolding delete_articles
    delete_articles-keeps [] w msgid b = b
    delete_articles-keeps (d ∷ delposts) w msgid b =
        delete_articles-keeps delposts _ msgid
          (k.kept_by_ban _ msgid d _ (k.kept_by_delete w msgid d b))

    delete_articles-bans :
        (delposts : List Bytes) (w : W)
        → All (λ m. Banned (delete_articles e delposts w) m) delposts
    unfolding delete_articles
    delete_articles-bans [] w = tt
    delete_articles-bans (d ∷ delposts) w =
        (delete_articles-keeps delposts _ d (k.bans _ d _), delete_articles-bans delposts _)

    carry_out-bans :
        (msgid : Bytes) (d : Deletion) (st : Moderated W)
        → All (λ m. Banned (carry_out e msgid d st).world m) d.delposts
    unfolding carry_out
    carry_out-bans msgid d st = delete_articles-bans d.delposts _

    -- DeletePost of an article whose header is known always comes to an end. It bans the article
    -- and, if that is the root of a thread, every reply of the thread that the database knows,
    -- where the database keeps the bans that it is told; and it has one page regenerated, that of
    -- the thread's root.
    pub delete_post_lem :
        (msgid : Bytes) (st : Moderated W) (hdr : Header) (ref group : Bytes)
        → e.database.get_headers_for_message st.world msgid ≡ some hdr
        → get hdr (codes "References") [] ≡ some ref
        → get hdr (codes "Newsgroups") [] ≡ some group
        → (st' : Moderated W) × (delete_post e msgid st ≡ some st')
          × All (Banned st'.world) (doomed st.world msgid ref)
          × (st'.regenerated ≡ st.regenerated ++ regen_of st.world msgid ref group ∷ [])
    unfolding delete_post deletion
    delete_post_lem msgid st hdr ref group h hr hg =
        let d = deletion_of e st.world msgid ref group in
        (
          carry_out e msgid d st,
          rw h (rw hr (rw hg refl)),
          rw (doomed_lem st.world msgid ref group) (carry_out-bans msgid d st),
          carried msgid d st
              ∙ ap (λ r. st.regenerated ++ r ∷ []) (regen_lem st.world msgid ref group),
        )
