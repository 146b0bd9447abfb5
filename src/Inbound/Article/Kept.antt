-- ===== src/Inbound/Article/Kept.antt =====
-- readArticle of lib/nntp/conn_v1.go over a FilesystemStorage: an article that is taken is on disk
-- as it was sent, with the server's name in its Path.
use srndv.Base.{
  ℕ, ◌≡◌, refl, ap, ap₂, ◌∙◌, Bool, true, false, ◌&&◌, Option, none, some, List, [], ◌∷◌, ◌++◌, ltb,
  if◌then◌else◌, length, Bytes, same, same_refl, arith, Bool-cases, inl, inr,
}
use srndv.Header.Io.{write_header}
use srndv.Header.{Header}
use srndv.Nntp.Ident.{ArticleEntry, message_id_valid}
use srndv.Nntp.Policy.{policy_accept, is_accept}
use srndv.Store.{
  no_such_article, Disk, Files, Directory, find, written, filesystem_storage, has_article,
  store_article, write_article, open_article,
}
use srndv.Inbound.{Acceptor, Env, Conn, dot_read}
use srndv.Inbound.Article.{
  accepted_status, stored_status, header_status, whole_body, limit_body, copy_body, for_store,
  store_entry, tell_hooks, parse_body, final_status, stop_body, deliver, read_article,
}
use srndv.Inbound.Article.Parsed.{Article, entry, behind, offset, read_article-deliver}

-- the disk does not fail for a name
pub record IsHealthy (disk : Disk) (name : Bytes) : Type 0 where
  pub stat_works : disk.stat_error name ≡ none
  pub open_works : disk.open_error name ≡ none
  pub write_works : disk.write_error name ≡ none

pub has_article-missing :
    (disk : Disk) (fs : Files) (id : Bytes)
    → IsHealthy disk id
    → find id fs.articles ≡ none
    → has_article disk fs id ≡ some no_such_article
unfolding has_article
has_article-missing disk fs id h e = rw (h.stat_works, has_article) (rw (e, has_article))

pub store_article-new :
    (disk : Disk) (fs : Files) (r id : Bytes)
    → IsHealthy disk id
    → find id fs.articles ≡ none
    → store_article disk fs r id ≡ written fs r id
unfolding store_article write_article
store_article-new disk fs r id h e =
    rw (has_article-missing disk fs id h e, store_article)
      (rw (h.open_works, write_article) (rw (h.write_works, write_article)))

pub limit_body-fits :
    (o : Option Acceptor) (body : Bytes)
    → (limit_body o body).too_big ≡ false
    → limit_body o body ≡ whole_body body
unfolding limit_body
limit_body-fits none body h = refl
limit_body-fits (some a) body h = elim (Bool-cases (ltb (length body) a.max_article_size)) [
  | inl e ↦ rw e
  | inr n ↦ cc (rw n at h)
]

pub not_less : (n : ℕ) → ltb n n ≡ false
not_less n = ground arith

-- the entry that the hooks are told of
abbrev pub told : Bool → ArticleEntry → List ArticleEntry
told hooks e = if hooks then e ∷ [] else []

pub told-valid :
    (hooks : Bool) (e : ArticleEntry)
    → (if hooks && true && true then e ∷ [] else []) ≡ told hooks e
told-valid true e = refl
told-valid false e = refl

module _ (disk : Disk) (env : Env Files) (c : Conn Files) (offset : ℕ) (hdr : Header) (body : Bytes)
    (e : ArticleEntry) (on_disk : env.storage ≡ filesystem_storage disk)
    (healthy : IsHealthy disk e.message_id) (valid : message_id_valid e.message_id ≡ true)
    (new : find e.message_id c.store.articles ≡ none)
    (fits : (limit_body env.acceptor body).too_big ≡ false) where
  abbrev kept : Conn Files
  kept = record c {
    store = record c.store {
      articles = (e.message_id, write_header hdr ++ body) ∷ c.store.articles;
    };
    hooked = c.hooked ++ told env.hooks e;
  }

  deliver-kept : deliver env false c offset hdr body e policy_accept ≡ (kept, policy_accept)
  unfolding deliver copy_body for_store store_entry tell_hooks parse_body final_status stop_body
      is_accept
  deliver-kept = rw (limit_body-fits env.acceptor body fits) (
      rw valid (
        rw on_disk (
          rw (store_article-new disk c.store (write_header hdr ++ body) e.message_id healthy new) (
            rw (not_less (length (write_header hdr ++ body))) (
              rw (not_less (length body)) (
                ap (λ h. (record c { store = kept.store; hooked = c.hooked ++ h }, policy_accept))
                  (told-valid env.hooks e)))))))

pub header_status-new :
    (disk : Disk) (env : Env Files) (c : Conn Files) (hdr : Header) (id : Bytes)
    → env.storage ≡ filesystem_storage disk
    → IsHealthy disk id
    → message_id_valid id ≡ true
    → find id c.store.articles ≡ none
    → accepted_status env.acceptor hdr policy_accept ≡ policy_accept
    → header_status env false c.store id hdr ≡ policy_accept
unfolding header_status stored_status
header_status-new disk env c hdr id on_disk healthy valid new accepts =
    rw valid (rw on_disk (rw (has_article-missing disk c.store id healthy new) accepts))

pub find-other :
    (id j text : Bytes) (files : Directory)
    → same id j ≡ false
    → find j ((id, text) ∷ files) ≡ find j files
unfolding find
find-other id j text files h = rw h

pub find_self : (id text : Bytes) (files : Directory) → find id ((id, text) ∷ files) ≡ some text
unfolding find
find_self id text files = rw same_refl

-- A peer's article (IHAVE or TAKETHIS) whose header is complete, whose id is valid and not yet on
-- the disk, that the acceptor takes, that is not multipart and not too big, over a disk that does
-- not fail for its name: readArticle returns ACCEPT, the file of the id holds the header with the
-- server's name in its Path and then the body, no other article's file changed, the mode and all
-- other fields of the connection are as before behind the article, and the hooks, if there are
-- any, are told of it once.
pub accepted_article_kept :
    (disk : Disk) (env : Env Files) (c : Conn Files) (a : Article env false c)
    → env.storage ≡ filesystem_storage disk
    → IsHealthy disk a.id
    → message_id_valid a.id ≡ true
    → find a.id c.store.articles ≡ none
    → accepted_status env.acceptor a.hdr policy_accept ≡ policy_accept
    → a.multipart ≡ false
    → (limit_body env.acceptor a.body).too_big ≡ false
    → (files : Files) × (read_article env false c
        ≡ some (
          record c {
            input = (dot_read c.input).1;
            store = files;
            hooked = c.hooked ++ told env.hooks (entry a);
          },
          policy_accept,
          none,
        ))
      × (open_article disk files a.id ≡ some (write_header a.hdr ++ a.body))
      × ((j : Bytes)
          → same a.id j ≡ false
          → open_article disk files j ≡ open_article disk c.store j)
unfolding open_article
accepted_article_kept disk env c a on_disk healthy valid new accepts plain fits = (
  record c.store { articles = (a.id, write_header a.hdr ++ a.body) ∷ c.store.articles },
  read_article-deliver a
      ∙ ap (λ (r : Conn Files × ℕ). some (r.0, r.1, none))
          (ap₂ (λ m s. deliver env m (behind a) (offset a) a.hdr a.body (entry a) s) plain
              (header_status-new disk env c a.hdr a.id on_disk healthy valid new accepts)
            ∙ deliver-kept disk env (behind a) (offset a) a.hdr a.body (entry a) on_disk healthy
                valid new fits),
  find_self a.id (write_header a.hdr ++ a.body) c.store.articles,
  λ j h. find-other a.id j (write_header a.hdr ++ a.body) c.store.articles h,
)
