-- ===== src/Daemon/Transfer/Replies.antt =====
-- What the replies to TAKETHIS and POST of src/srnd/nntp.go say about the article.
use srndv.Base.{
  ◌≡◌, inl, inr, refl, ap, ◌∙◌, Bool, true, false, not, ◌&&◌, Option, none, some, List, [], ◌∷◌,
  ◌++◌, append_assoc, is_none, Bytes, codes, same, arith, Bool-cases,
}
use srndv.Header.{Header}
use srndv.Inbound.{Error}
use srndv.Nntp.Ident.{message_id_valid}
use srndv.Daemon.{NntpDaemon, NntpConnection, Run, returns, print_line, Body}
use srndv.Daemon.Mime.{mime_get, dot_reader, read_mime_header, get_message_id}
use srndv.Daemon.Wanted.{differs, check_mime_header}
use srndv.Daemon.Deliver.{stored_header, close_up, with_body, with_header, with_file, store_message}
use srndv.Daemon.Transfer.{
  body_of, ask_for_root, post_command, post_read, post_wanted, post_reply, posted_header,
}

module _ {W : Type 0} (daemon : NntpDaemon W) where
  close_up-sent :
      (m : Bytes) (c : NntpConnection W) (r : W × Option Error)
      → (close_up daemon m c r).0.sent ≡ c.sent
  close_up-sent m c (w, none) = refl
  close_up-sent m c (w, some e) = refl

  with_body-sent :
      (m : Bytes) (c : NntpConnection W) (r : W × Option Error)
      → (with_body daemon m c r).0.sent ≡ c.sent
  with_body-sent m c (w, none) = refl
  with_body-sent m c (w, some e) = refl

  with_header-sent :
      (m : Bytes) (hdr : Header) (b : Body) (c : NntpConnection W) (r : W × Option Error)
      → (with_header daemon m hdr b c r).0.sent ≡ c.sent
  with_header-sent m hdr b c (w, none) = with_body-sent m c _
  with_header-sent m hdr b c (w, some e) = refl

  with_file-sent :
      (m : Bytes) (hdr : Header) (b : Body) (c : NntpConnection W) (r : W × Bool)
      → (with_file daemon m hdr b c r).0.sent ≡ c.sent
  with_file-sent m hdr b c (w, true) = with_header-sent m (stored_header daemon hdr) b c _
  with_file-sent m hdr b c (w, false) = refl

  -- Storing an article sends nothing.
  pub store_message-sent :
      (c : NntpConnection W) (hdr : Header) (b : Body)
      → (store_message daemon c hdr b).0.sent ≡ c.sent
  unfolding store_message
  store_message-sent c hdr b = elim (Bool-cases (same (get_message_id hdr) [])) [
    | inl e ↦ rw e refl
    | inr e ↦ rw e (elim (Bool-cases (message_id_valid (get_message_id hdr))) [
      | inl v ↦ rw v (with_file-sent (get_message_id hdr) hdr b c _)
      | inr v ↦ rw v refl
    ])
  ]

  ask_for_root-sent :
      (hdr : Header) (c : NntpConnection W) → (ask_for_root daemon hdr c).sent ≡ c.sent
  unfolding ask_for_root
  ask_for_root-sent hdr c = ground arith

  -- The call returns, and its last line is a refusal of the post.
  abbrev pub IsRefusal : List Bytes → Run W → Type 0
  IsRefusal sent r =
      (c : NntpConnection W) × (err : Option Error) × (reason : Bytes) × (r ≡ returns c err)
      × (c.sent ≡ sent ++ (codes "441 Posting Failed " ++ reason) ∷ [])

  post_reply-IsRefusal :
      (success : Bool) (reason : Bytes) (sent : List Bytes) (r : NntpConnection W × Option Error)
      → r.0.sent ≡ sent
      → IsRefusal sent (post_reply daemon success reason r)
  post_reply-IsRefusal true reason sent (c, err) h =
      (_, err, reason, refl, ap (λ s. s ++ (codes "441 Posting Failed " ++ reason) ∷ []) h)
  post_reply-IsRefusal false reason sent (c, err) h =
      (_, err, reason, refl, ap (λ s. s ++ (codes "441 Posting Failed " ++ reason) ∷ []) h)

  post_wanted-IsRefusal :
      (hdr : Header) (c : NntpConnection W) → IsRefusal c.sent (post_wanted daemon hdr c)
  unfolding post_wanted
  post_wanted-IsRefusal hdr c =
      let reference = mime_get hdr (codes "References") in
      let d = dot_reader c.input in
      let c' = ask_for_root daemon hdr (record c { input = d.rest }) in
      let kept = ask_for_root-sent hdr (record c { input = d.rest }) in
      elim (Bool-cases (differs reference [] && not (message_id_valid reference))) [
        | inl e ↦ rw e (post_reply-IsRefusal false _ c.sent (c', none) kept)
        | inr e ↦
            rw e
              (elim (Bool-cases
                (daemon.database.has_newsgroup c.world (mime_get hdr (codes "Newsgroups")))) [
                  | inl n ↦ rw n (
                      post_reply-IsRefusal true [] c.sent _
                        (store_message-sent c' hdr (body_of d d.lines) ∙ kept))
                  | inr n ↦ rw n (post_reply-IsRefusal true [] c.sent (c', none) kept)
                ])
      ]

  post_read-IsRefusal :
      (c : NntpConnection W) (r : Option (Header × List Bytes))
      → IsRefusal c.sent (post_read daemon c r)
  post_read-IsRefusal c none = post_reply-IsRefusal false [] c.sent _ refl
  post_read-IsRefusal c (some (hdr, lines)) =
      let r = posted_header daemon c.world hdr in
      let c' = record c { world = r.0; input = lines } in
      let v = check_mime_header daemon c' r.1 in
      elim (Bool-cases (same v.reason [] && is_none v.err)) [
        | inl e ↦ rw e (post_wanted-IsRefusal r.1 c')
        | inr e ↦ rw e (post_reply-IsRefusal false v.reason c.sent (c', v.err) refl)
      ]

  abbrev asked_for_post : NntpConnection W → NntpConnection W
  asked_for_post c = print_line c (codes "340 Yeeeh postit yo; end with <CR-LF>.<CR-LF>")

  post_command_authenticated :
      (c : NntpConnection W)
      → c.authenticated ≡ true
      → post_command daemon c ≡ post_read daemon (asked_for_post c) (read_mime_header c.input)
  unfolding post_command
  post_command_authenticated c h = rw h refl

  -- POST of an authenticated peer always ends in the line of a failure, also where the article was
  -- wanted, written to the store and handed to the daemon: the line of success is never sent.
  pub post_never_confirmed :
      (c : NntpConnection W)
      → c.authenticated ≡ true
      → (c' : NntpConnection W) × (err : Option Error) × (reason : Bytes) × (post_command daemon c
          ≡ returns c' err)
        × (c'.sent
            ≡ c.sent
              ++ codes "340 Yeeeh postit yo; end with <CR-LF>.<CR-LF>"
                ∷ (codes "441 Posting Failed " ++ reason)
                ∷ [])
  post_never_confirmed c h =
      let (c', err, reason, eq, s) =
        post_read-IsRefusal (asked_for_post c) (read_mime_header c.input) in
      (c', err, reason, post_command_authenticated c h ∙ eq, s ∙ append_assoc c.sent _ _)
