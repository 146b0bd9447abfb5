-- ===== src/Examples/Articles.antt =====
-- Articles on the wire, for readArticle.
use srndv.Base.{
  ℕ, ◌≡◌, refl, true, false, none, some, [], ◌∷◌, ◌++◌, Bytes, codes, same, has_prefix, split,
  split_head,
}
use srndv.Header.{
  lookup, put, set, has, add, get, get_values, accumulate, drop_comma, first_value, message_id,
  newsgroup, append_path, is_multipart,
}
use srndv.Header.Io.{step, read_from, read_header, write_header}
use srndv.Nntp.Ident.{
  is_local, is_host, span, match_class, match_byte, match_end, message_id_valid, message_id_line,
  some_line,
}
use srndv.Nntp.Policy.{policy_accept, policy_reject, is_accept}
use srndv.Nntp.Mode.{mode_unset}
use srndv.Store.{Files, find, open_article}
use srndv.Inbound.{Conn, Env, unstuff, dot_read}
use srndv.Inbound.Article.{
  read_article, article_id, accepted_status, limit_body, copy_body, cut_body, piece_start,
  piece_end,
}
use srndv.Inbound.Article.Parsed.{Article, entry}
use srndv.Inbound.Article.Kept.{accepted_article_kept, told}
use srndv.Inbound.Article.Refused.{
  Dropped, refused_article_leaves_empty_file, duplicate_article_tells_hooks,
}
use srndv.Examples.{acceptor_of, env_of, conn_of, no_files, disk, IsHealthy-disk, article_lines, id}

abbrev conn_at : Files → Conn Files
conn_at files = conn_of mode_unset article_lines files

-- the files of a storage that has the article
abbrev old_files : Files
old_files = record { articles = (id, codes "old") ∷ []; attachments = [] }

-- what reading looks into
unfoldable Reading : Type 0
unfolding lookup put set has add get get_values accumulate drop_comma first_value message_id
    newsgroup append_path is_multipart step read_from read_header unstuff dot_read same has_prefix
    article_id
Reading = ℕ

-- the article, at a server whose acceptor answers `status`, where `files` are stored
unfoldable article_at :
    (status : ℕ) (files : Files) → Article (env_of status 100) false (conn_at files)
unfolding Reading
article_at status files = record {
  raw = (codes "Message-ID", id ∷ []) ∷ (codes "Newsgroups", codes "a.b" ∷ []) ∷ [];
  hdr =
      (codes "Message-ID", id ∷ [])
      ∷ (codes "Newsgroups", codes "a.b" ∷ [])
      ∷ (codes "Path", codes "srv" ∷ [])
      ∷ [];
  body = codes "hi" ++ 10 ∷ [];
  id = id;
  group = codes "a.b";
  multipart = false;
  parsed = refl;
  path = refl;
  has_id = refl;
  in_group = refl;
  kind = refl;
}

valid_id : message_id_valid id ≡ true
unfolding message_id_valid message_id_line some_line split split_head match_class match_byte
    match_end span is_local is_host
valid_id = refl

nothing_stored : find id no_files.articles ≡ none
unfolding find
nothing_stored = refl

old_stored : find id old_files.articles ≡ some (codes "old")
unfolding find same
old_stored = refl

acceptor_takes :
    (status : ℕ)
    → accepted_status (env_of status 100).acceptor (article_at status no_files).hdr 0 ≡ status
unfolding accepted_status is_accept
acceptor_takes status = refl

fits : (limit_body (env_of 0 100).acceptor (article_at 0 no_files).body).too_big ≡ false
unfolding limit_body article_at
fits = refl

accepted_article_kept_example :
    (files : Files) × (read_article (env_of 0 100) false (conn_at no_files)
      ≡ some (
        record (conn_at no_files) {
          input = (dot_read article_lines).1;
          store = files;
          hooked = told true (entry (article_at 0 no_files));
        },
        policy_accept,
        none,
      ))
    × (open_article disk files id
        ≡ some (write_header (article_at 0 no_files).hdr ++ (codes "hi" ++ 10 ∷ [])))
    × ((j : Bytes) → same id j ≡ false → open_article disk files j ≡ open_article disk no_files j)
unfolding article_at
accepted_article_kept_example =
    accepted_article_kept disk (env_of 0 100) (conn_at no_files) (article_at 0 no_files) refl
      (IsHealthy-disk id) valid_id nothing_stored (acceptor_takes 0) refl fits

-- a server without an acceptor whose parser of parts stops at once
abbrev stopping : Env Files
stopping = record (env_of 0 100) { acceptor = none; parser_stops = λ hdr body. some 0 }

-- the pieces of a body behind a header of 1000 bytes: the first ends at the first block's end, one
-- of the second block has 128 bytes without an acceptor, and all of the block with one
pieces_behind_header :
    (piece_end none 1000 5 ≡ 24)
    × (piece_start none 1000 100 ≡ 24)
    × (piece_end none 1000 100 ≡ 152)
    × (piece_start none 1000 152 ≡ 152)
    × (piece_end (some (acceptor_of 0 5000)) 1000 100 ≡ 1048)
unfolding piece_start piece_end
pieces_behind_header = (refl, refl, refl, refl, refl)

-- of a body of 26 bytes 24 are read before the copy stops, and the reader waits with the others
stopped_copy_leaves_bytes :
    (copy_body stopping true 1000 [] (codes "abcdefghijklmnopqrstuvwxyz")).read ≡ 24
unfolding copy_body cut_body limit_body piece_start piece_end
stopped_copy_leaves_bytes = refl

banned :
    is_accept (accepted_status (env_of 3 100).acceptor (article_at 3 no_files).hdr policy_accept)
    ≡ false
unfolding is_accept accepted_status
banned = refl

-- an acceptor that answers BAN
refused_article_leaves_empty_file_example :
    (files : Files) × Dropped disk
      (env_of 3 100)
      (conn_at no_files)
      (article_at 3 no_files)
      (accepted_status (env_of 3 100).acceptor (article_at 3 no_files).hdr policy_accept)
      files
    × (open_article disk files id ≡ some [])
    × ((j : Bytes) → same id j ≡ false → open_article disk files j ≡ open_article disk no_files j)
unfolding article_at
refused_article_leaves_empty_file_example =
    refused_article_leaves_empty_file disk (env_of 3 100) (conn_at no_files) (article_at 3 no_files)
      refl (IsHealthy-disk id) valid_id nothing_stored banned

duplicate_article_tells_hooks_example :
    (files : Files) × Dropped disk
      (env_of 0 100)
      (conn_at old_files)
      (article_at 0 old_files)
      policy_reject
      files
    × ((j : Bytes) → open_article disk files j ≡ open_article disk old_files j)
unfolding article_at
duplicate_article_tells_hooks_example =
    duplicate_article_tells_hooks disk (env_of 0 100) (conn_at old_files) (article_at 0 old_files)
      refl (IsHealthy-disk id) valid_id (codes "old") old_stored
