-- ===== src/Inbound/Article/Refused.antt =====
-- readArticle of lib/nntp/conn_v1.go on the articles that it does not take, over a
-- FilesystemStorage. The store goroutine is handed every valid id, with an empty article where the
-- status is not ACCEPT, and the parser of parts is handed every body.
use srndv.Base.{
  ℕ, ◌≡◌, refl, ap, ◌∙◌, Bool, true, false, Option, none, some, List, [], ◌∷◌, ◌++◌, ltb,
  if◌then◌else◌, length, Bytes, same, arith,
}
use srndv.Header.{Header}
use srndv.Nntp.Ident.{ArticleEntry, message_id_valid}
use srndv.Nntp.Policy.{policy_accept, policy_reject, policy_ban, is_accept}
use srndv.Store.{
  Stored, Storage, Disk, Files, find, written, filesystem_storage, has_article, store_article,
  open_article,
}
use srndv.Inbound.{Acceptor, Env, Conn, dot_read}
use srndv.Inbound.Article.{
  Copied, accepted_status, stored_status, header_status, copy_body, for_store, store_entry,
  tell_hooks, parse_body, final_status, stop_body, deliver, read_article,
}
use srndv.Inbound.Article.Parsed.{Article, entry, behind, offset, read_article-deliver}
use srndv.Inbound.Article.Attachments.{parse_body-articles}
use srndv.Inbound.Article.Kept.{
  IsHealthy, store_article-new, told, told-valid, find_self, find-other, has_article-missing,
}

-- the status that is returned for a status of the header
abbrev pub unless_too_big : Bool → ℕ → ℕ
unless_too_big too_big status = if too_big then policy_ban else status

-- bytes of the body are left in the pipe, and the call waits for ever; or it is as before
abbrev pub waits_for_rest : Copied → Bytes → Bool → Bool
waits_for_rest copied body hung = if ltb copied.read (length body) then true else hung

header_status-missing :
    (disk : Disk) (env : Env Files) (c : Conn Files) (hdr : Header) (id : Bytes)
    → env.storage ≡ filesystem_storage disk
    → IsHealthy disk id
    → message_id_valid id ≡ true
    → find id c.store.articles ≡ none
    → header_status env false c.store id hdr ≡ accepted_status env.acceptor hdr policy_accept
unfolding header_status stored_status
header_status-missing disk env c hdr id on_disk healthy valid new = rw valid (
    ap
      (λ (s : Storage Files).
        accepted_status env.acceptor hdr (stored_status true (s.has_article c.store id)))
      on_disk
    ∙ ap (λ o. accepted_status env.acceptor hdr (stored_status true o))
        (has_article-missing disk c.store id healthy new))

has_article-there :
    (disk : Disk) (fs : Files) (id : Bytes) {text : Bytes}
    → IsHealthy disk id
    → find id fs.articles ≡ some text
    → has_article disk fs id ≡ none
unfolding has_article
has_article-there disk fs id h e = rw (h.stat_works, has_article) (rw (e, has_article))

store_article-old :
    (disk : Disk) (fs : Files) (r id : Bytes) {text : Bytes}
    → IsHealthy disk id
    → find id fs.articles ≡ some text
    → store_article disk fs r id ≡ (fs, record { path = []; err = none; taken = length r })
unfolding store_article
store_article-old disk fs r id h e = rw (has_article-there disk fs id h e, store_article)

accepted_status-reject :
    (o : Option Acceptor) (hdr : Header) → accepted_status o hdr policy_reject ≡ policy_reject
unfolding accepted_status is_accept
accepted_status-reject none hdr = refl
accepted_status-reject (some a) hdr = refl

header_status-old :
    (disk : Disk) (env : Env Files) (c : Conn Files) (hdr : Header) (id : Bytes) {text : Bytes}
    → env.storage ≡ filesystem_storage disk
    → IsHealthy disk id
    → message_id_valid id ≡ true
    → find id c.store.articles ≡ some text
    → header_status env false c.store id hdr ≡ policy_reject
unfolding header_status stored_status
header_status-old disk env c hdr id on_disk healthy valid old = rw valid (
    ap
      (λ (s : Storage Files).
        accepted_status env.acceptor hdr (stored_status true (s.has_article c.store id)))
      on_disk
    ∙ ap (λ o. accepted_status env.acceptor hdr (stored_status true o))
        (has_article-there disk c.store id healthy old)
    ∙ accepted_status-reject env.acceptor hdr)

not_below_zero : (n : ℕ) → ltb n 0 ≡ false
not_below_zero n = ground arith

module _ (env : Env Files) (c : Conn Files) (offset : ℕ) (hdr : Header) (body : Bytes)
    (e : ArticleEntry) (multipart : Bool) (status : ℕ) (fs : Files) (st : Stored)
    (refused : is_accept status ≡ false) (valid : message_id_valid e.message_id ≡ true)
    (stored : env.storage.store_article c.store [] e.message_id ≡ (fs, st))
    (no_error : st.err ≡ none) where
  -- what becomes of an article that is not taken, whose id is valid
  abbrev dropped : Conn Files
  dropped = record c {
    store = parse_body env multipart fs hdr (copy_body env multipart offset hdr body).seen;
    hooked = c.hooked ++ told env.hooks e;
    hung = waits_for_rest (copy_body env multipart offset hdr body) body c.hung;
  }

  deliver-dropped :
      deliver env multipart c offset hdr body e status
      ≡ (dropped, unless_too_big (copy_body env multipart offset hdr body).too_big status)
  unfolding deliver for_store store_entry tell_hooks final_status stop_body
  deliver-dropped = rw refused (
      rw valid (
        rw stored (
          rw no_error (
            rw (not_below_zero st.taken) (
              ap
                (λ (h : List ArticleEntry). (
                  record dropped { hooked = c.hooked ++ h },
                  unless_too_big (copy_body env multipart offset hdr body).too_big status,
                ))
                (told-valid env.hooks e))))))

-- What readArticle leaves of an article that it did not take, and its status where it returns; it
-- does not where the connection is hung.
abbrev pub Dropped :
    (disk : Disk) (env : Env Files) (c : Conn Files) (a : Article env false c) → ℕ → Files → Type 0
Dropped disk env c a status files =
    read_article env false c
    ≡ some (
      record c {
        input = (dot_read c.input).1;
        store = files;
        hooked = c.hooked ++ told env.hooks (entry a);
        hung = waits_for_rest (copy_body env a.multipart (offset a) a.hdr a.body) a.body c.hung;
      },
      unless_too_big (copy_body env a.multipart (offset a) a.hdr a.body).too_big status,
      none,
    )

module _ (disk : Disk) (env : Env Files) (c : Conn Files) (a : Article env false c)
    (on_disk : env.storage ≡ filesystem_storage disk) (healthy : IsHealthy disk a.id)
    (valid : message_id_valid a.id ≡ true) where
  -- A peer's article with a valid id that the disk does not hold, and that the acceptor does not
  -- take: an empty file is made under the id, so that the storage holds the id from then on; the
  -- other articles' files are as before; and the hooks, if there are any, are told that the
  -- article was got. The call then returns with the acceptor's status, or with BAN if the body is
  -- copied up to the size limit; but where the parser of parts stopped the copy and bytes of the
  -- body are left, it waits for ever and returns no status.
  pub refused_article_leaves_empty_file :
      find a.id c.store.articles ≡ none
      → is_accept (accepted_status env.acceptor a.hdr policy_accept) ≡ false
      → (files : Files) × Dropped disk env c a
          (accepted_status env.acceptor a.hdr policy_accept)
          files
        × (open_article disk files a.id ≡ some [])
        × ((j : Bytes)
            → same a.id j ≡ false
            → open_article disk files j ≡ open_article disk c.store j)
  unfolding open_article is_accept
  refused_article_leaves_empty_file new refused =
      let fs : Files = record c.store { articles = (a.id, []) ∷ c.store.articles } in
      let files : Files =
        parse_body env a.multipart fs a.hdr
          (copy_body env a.multipart (offset a) a.hdr a.body).seen in
      let same_files = parse_body-articles disk env on_disk a.multipart fs a.hdr _ in
      (
        files,
        read_article-deliver a
            ∙ ap (λ (r : Conn Files × ℕ). some (r.0, r.1, none))
                (ap (λ s. deliver env a.multipart (behind a) (offset a) a.hdr a.body (entry a) s)
                    (header_status-missing disk env c a.hdr a.id on_disk healthy valid new)
                  ∙ deliver-dropped env (behind a) (offset a) a.hdr a.body (entry a) a.multipart _
                      fs _ refused valid (stored_new) refl),
        ap (find a.id) same_files ∙ find_self a.id [] c.store.articles,
        λ j h. ap (find j) same_files ∙ find-other a.id j [] c.store.articles h,
      )
    where
      stored_new : env.storage.store_article c.store [] a.id ≡ written c.store [] a.id
      stored_new =
          ap (λ (s : Storage Files). s.store_article c.store [] a.id) on_disk
          ∙ store_article-new disk c.store [] a.id healthy new

  -- A peer's article whose id the disk holds: no file of an article changes, and yet the hooks, if
  -- there are any, are told that the article was got. The call then returns with REJECT, or with
  -- BAN if the body is copied up to the size limit; but where the parser of parts stopped the copy
  -- and bytes of the body are left, it waits for ever and returns no status.
  pub duplicate_article_tells_hooks :
      (text : Bytes)
      → find a.id c.store.articles ≡ some text
      → (files : Files) × Dropped disk env c a policy_reject files
        × ((j : Bytes) → open_article disk files j ≡ open_article disk c.store j)
  unfolding open_article is_accept
  duplicate_article_tells_hooks text old =
      let files : Files =
        parse_body env a.multipart c.store a.hdr
          (copy_body env a.multipart (offset a) a.hdr a.body).seen in
      (
        files,
        read_article-deliver a
            ∙ ap (λ (r : Conn Files × ℕ). some (r.0, r.1, none))
                (ap (λ s. deliver env a.multipart (behind a) (offset a) a.hdr a.body (entry a) s)
                    (header_status-old disk env c a.hdr a.id on_disk healthy valid old)
                  ∙ deliver-dropped env (behind a) (offset a) a.hdr a.body (entry a) a.multipart _
                      c.store _ reject_is valid stored_old refl),
        λ j. ap (find j) (parse_body-articles disk env on_disk a.multipart c.store a.hdr _),
      )
    where
      reject_is : is_accept policy_reject ≡ false
      reject_is = refl

      stored_old :
          env.storage.store_article c.store [] a.id
          ≡ (c.store, record { path = []; err = none; taken = 0 })
      stored_old =
          ap (λ (s : Storage Files). s.store_article c.store [] a.id) on_disk
          ∙ store_article-old disk c.store [] a.id healthy old
