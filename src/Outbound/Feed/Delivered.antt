-- ===== src/Outbound/Feed/Delivered.antt =====
-- For which articles StreamAndQuit tells the hooks that they were sent.
use srndv.Base.{
  ◌≡◌, refl, sym, ap, ◌∙◌, Bool, true, false, Option, none, some, List, [], ◌∷◌, ◌&&◌, All, Bytes,
  same, Bool-cases, Option-cases, inl, inr,
}
use srndv.Nntp.Ident.{ArticleEntry, message_id_valid}
use srndv.Nntp.Stream.{event_valid, event_command, stream_check}
use srndv.Nntp.Codes.{rpl_streaming_transfered, rpl_streaming_accept}
use srndv.Inbound.{Error, Env, Conn, put_line, printf_line, write_result}
use srndv.Inbound.Commands.{reply}
use srndv.Outbound.{Line, readline, take_line}
use srndv.Outbound.Feed.{
  Feeding, send_article, unless_error, takethis, transfer_sent, transfer_reply, wanted_article,
  check_reply, check_sent, offer, while_streaming, stream_and_quit, bare_line, read_strings,
}
use srndv.Outbound.Feed.Wire.{All-append}

module _ {S : Type 0} (env : Env S) (format : Bytes → Bytes) (store : S) where
  -- an id under which the storage holds an article
  abbrev pub IsHeld : Bytes → Type 0
  IsHeld msgid = (message_id_valid msgid ≡ true) × (env.storage.has_article store msgid ≡ none)

  pub record IsHonest (f : Feeding S) : Type 0 where
    pub same_store : f.conn.store ≡ store
    pub held : All IsHeld f.delivered

  store-printf_line : (c : Conn S) (line : Bytes) → (printf_line env c line).0.store ≡ c.store
  unfolding printf_line
  store-printf_line c line = store-put_line c (write_result env c) line
    where
      store-put_line :
          (c : Conn S) (e : Option Error) (line : Bytes) → (put_line c e line).0.store ≡ c.store
      store-put_line c none line = refl
      store-put_line c (some e) line = refl

  store-take_line : (c : Conn S) (ls : List Bytes) → (take_line c ls).2.store ≡ c.store
  store-take_line c [] = refl
  store-take_line c (l ∷ ls) = refl

  store-unless_error :
      (rest : Conn S → Conn S) (r : Conn S × Option Error)
      → ((c : Conn S) → (rest c).store ≡ c.store)
      → (unless_error env format rest r).store ≡ r.0.store
  store-unless_error rest (c, none) h = h c
  store-unless_error rest (c, some e) h = refl

  store-send_article :
      (ls : List Bytes) (c : Conn S) → (send_article env format ls c).store ≡ c.store
  unfolding send_article
  store-send_article [] c = refl
  store-send_article (l ∷ ls) c =
      store-unless_error (send_article env format ls) (printf_line env c (format (bare_line l)))
        (store-send_article ls)
      ∙ store-printf_line c (format (bare_line l))

  transfer_sent-IsHonest :
      (msgid : Bytes) (delivered : List Bytes) (r : Conn S × Option Error)
      → IsHeld msgid
      → All IsHeld delivered
      → r.0.store ≡ store
      → IsHonest (transfer_sent env format msgid delivered r)
  unfolding transfer_sent transfer_reply readline
  transfer_sent-IsHonest msgid delivered (c, some e) m d s = record { same_store = s; held = d }
  transfer_sent-IsHonest msgid delivered (c, none) m d s =
      reply_read (take_line c c.input) (store-take_line c c.input ∙ s)
    where
      reply_read :
          (l : Line S) → l.2.store ≡ store → IsHonest (transfer_reply env format msgid delivered l)
      reply_read (text, e, c') s' =
          elim (Bool-cases
            (event_valid text && same (event_command text) rpl_streaming_transfered && env.hooks)) [
              | inl y ↦ record {
                same_store = s';
                held = rw y (All-append IsHeld delivered (msgid ∷ []) d (m, tt));
              }
              | inr n ↦ record { same_store = s'; held = rw n d }
            ]

  takethis-IsHonest :
      (msgid : Bytes) (delivered : List Bytes) (article : Bytes) (c : Conn S)
      → IsHeld msgid
      → All IsHeld delivered
      → c.store ≡ store
      → IsHonest (takethis env format msgid delivered article c)
  unfolding takethis
  takethis-IsHonest msgid delivered article c m d s = transfer_sent-IsHonest msgid delivered _ m d (
      store-printf_line _ _
      ∙ store-send_article (read_strings article) _
      ∙ store-printf_line c _
      ∙ s)

  wanted_article-IsHonest :
      (msgid : Bytes) (delivered : List Bytes) (c : Conn S)
      → message_id_valid msgid ≡ true
      → All IsHeld delivered
      → c.store ≡ store
      → IsHonest (wanted_article env format msgid delivered c)
  unfolding wanted_article
  wanted_article-IsHonest msgid delivered c v d s =
      elim (Option-cases (env.storage.has_article c.store msgid)) [
        | inr (e, missing) ↦ rw (missing, wanted_article) (record { same_store = s; held = d })
        | inl there ↦
            rw (there, wanted_article)
              (elim (Option-cases (env.storage.open_article c.store msgid)) [
                | inl closed ↦ rw (closed, wanted_article) (record { same_store = s; held = d })
                | inr (article, opened) ↦
                    rw (opened, wanted_article)
                      (takethis-IsHonest msgid delivered article c
                        (v, ap (λ x. env.storage.has_article x msgid) (sym s) ∙ there) d s)
              ])
      ]

  check_reply-IsHonest :
      (msgid : Bytes) (delivered : List Bytes) (l : Line S)
      → message_id_valid msgid ≡ true
      → All IsHeld delivered
      → l.2.store ≡ store
      → IsHonest (check_reply env format msgid delivered l).0
  unfolding check_reply
  check_reply-IsHonest msgid delivered (text, e, c) v d s = elim (Bool-cases (event_valid text)) [
    | inr n ↦ rw n (record { same_store = s; held = d })
    | inl y ↦ rw y (elim (Bool-cases (same (event_command text) rpl_streaming_accept)) [
      | inl y' ↦ rw y' (wanted_article-IsHonest msgid delivered c v d s)
      | inr n ↦ rw n (record { same_store = s; held = d })
    ])
  ]

  check_sent-IsHonest :
      (msgid : Bytes) (delivered : List Bytes) (r : Conn S × Option Error)
      → message_id_valid msgid ≡ true
      → All IsHeld delivered
      → r.0.store ≡ store
      → IsHonest (check_sent env format msgid delivered r).0
  unfolding check_sent readline
  check_sent-IsHonest msgid delivered (c, some e) v d s = record { same_store = s; held = d }
  check_sent-IsHonest msgid delivered (c, none) v d s =
      check_reply-IsHonest msgid delivered (take_line c c.input) v d (store-take_line c c.input ∙ s)

  offer-IsHonest :
      (f : Feeding S) (e : ArticleEntry) → IsHonest f → IsHonest (offer env format f e).0
  unfolding offer
  offer-IsHonest f e h = elim (Bool-cases (message_id_valid e.message_id)) [
    | inr n ↦ rw n h
    | inl y ↦ rw y (
        check_sent-IsHonest e.message_id f.delivered _ y h.held
          (store-printf_line f.conn (reply stream_check e.message_id) ∙ h.same_store))
  ]

  while_streaming-IsHonest :
      (rest : Feeding S → Feeding S) (r : Feeding S × Bool)
      → ((g : Feeding S) → IsHonest g → IsHonest (rest g))
      → IsHonest r.0
      → IsHonest (while_streaming env format rest r)
  while_streaming-IsHonest rest (g, true) h k = h g k
  while_streaming-IsHonest rest (g, false) h k = k

  -- Whatever events come and whatever the peer answers, StreamAndQuit changes nothing in the
  -- storage, and tells the hooks only of ids that are valid and that the storage holds (if that
  -- was so before).
  pub stream_and_quit-IsHonest :
      (f : Feeding S) (es : List ArticleEntry)
      → IsHonest f
      → IsHonest (stream_and_quit env format f es)
  unfolding stream_and_quit
  stream_and_quit-IsHonest f [] h = h
  stream_and_quit-IsHonest f (e ∷ es) h =
      while_streaming-IsHonest (λ g. stream_and_quit env format g es) (offer env format f e)
        (λ g k. stream_and_quit-IsHonest g es k) (offer-IsHonest f e h)
