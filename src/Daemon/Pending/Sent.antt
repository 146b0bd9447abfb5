-- ===== src/Daemon/Pending/Sent.antt =====
-- What the sending goroutine of src/srnd/nntp.go does with an article of a valid message id.
use srndv.Base.{
  ℕ, ◌≡◌, refl, ap, ◌∙◌, true, false, Option, none, some, List, [], ◌∷◌, ◌++◌, Bytes, codes, same,
  split, count_byte,
}
use srndv.Inbound.{Error, Answer, answer, failed}
use srndv.Nntp.Ident.{message_id_line}
use srndv.Nntp.Ident.Language.{message_id_line-valid}
use srndv.Nntp.Stream.Laws.{split-event}
use srndv.Daemon.{SyncEvent, NntpDaemon, NntpConnection, Run, panics, blocks, returns}
use srndv.Daemon.Pending.{
  assign, find, with_state, delete, stream_message_id, stream_command, nntp_check, nntp_takethis,
  handle_stream_event, sent_article, message_set_pending_state, message_set_processed,
  streaming_check, streaming_takethis,
}
use srndv.Daemon.Pending.Talk.{processed_lem}

split-check :
    (msgid : Bytes)
    → message_id_line msgid ≡ true
    → split 32 (nntp_check msgid) ≡ codes "CHECK" ∷ msgid ∷ []
unfolding nntp_check
split-check msgid v = split-event (codes "CHECK") msgid (unfold count_byte in refl) v

split-takethis :
    (msgid : Bytes)
    → message_id_line msgid ≡ true
    → split 32 (nntp_takethis msgid) ≡ codes "TAKETHIS" ∷ msgid ∷ []
unfolding nntp_takethis
split-takethis msgid v = split-event (codes "TAKETHIS") msgid (unfold count_byte in refl) v

pub check_words :
    (msgid : Bytes)
    → message_id_line msgid ≡ true
    → (stream_message_id (nntp_check msgid) ≡ some msgid)
      × (same (stream_command (nntp_check msgid)) (codes "TAKETHIS") ≡ false)
      × (same (stream_command (nntp_check msgid)) (codes "CHECK") ≡ true)
unfolding stream_message_id stream_command same
check_words msgid v = rw (stream_message_id, stream_command, split-check msgid v) (refl, refl, refl)

pub takethis_words :
    (msgid : Bytes)
    → message_id_line msgid ≡ true
    → (stream_message_id (nntp_takethis msgid) ≡ some msgid)
      × (same (stream_command (nntp_takethis msgid)) (codes "TAKETHIS") ≡ true)
unfolding stream_message_id stream_command same
takethis_words msgid v = rw (stream_message_id, stream_command, split-takethis msgid v) (refl, refl)

abbrev conn_or : {W : Type 0} → NntpConnection W → Run W → NntpConnection W
conn_or d panics = d
conn_or d blocks = d
conn_or d (returns c e) = c

pub returns_conn :
    {W : Type 0} {c d : NntpConnection W} {e f : Option Error} → returns c e ≡ returns d f → c ≡ d
returns_conn {c = c} eq = ap (conn_or c) eq

module _ {W : Type 0} (daemon : NntpDaemon W) where
  pub check_sent :
      (c : NntpConnection W) (ev : SyncEvent) (evs : List SyncEvent)
      → c.check ≡ ev ∷ evs
      → message_id_line ev.msgid ≡ true
      → streaming_check daemon c
        ≡ returns
            (message_set_pending_state
              (record c { check = evs; sent = c.sent ++ nntp_check ev.msgid ∷ [] })
              ev.msgid
              (codes "check")
              0)
            none
  unfolding streaming_check handle_stream_event
  check_sent c ev evs e v =
      let w = check_words ev.msgid v in rw (e, w.0, message_id_line-valid ev.msgid v, w.1, w.2) refl

  -- the connection after a TAKETHIS that was, or was not, sent
  pub record TakethisSent (c c' : NntpConnection W) (msgid : Bytes) (evs : List SyncEvent)
      : Type 0 where
    pub same_check : c'.check ≡ c.check
    pub popped : c'.takethis ≡ evs
    pub settled :
        (state : Bytes) × (sz : ℕ) × (c'.pending
          ≡ delete msgid
              (assign msgid (with_state (find msgid c.pending) msgid state sz) c.pending))

  processed-TakethisSent :
      (c d : NntpConnection W) (msgid : Bytes) (evs : List SyncEvent) (state : Bytes) (sz : ℕ)
      → d.check ≡ c.check
      → d.takethis ≡ evs
      → d.pending ≡ assign msgid (with_state (find msgid c.pending) msgid state sz) c.pending
      → TakethisSent c (message_set_processed d msgid) msgid evs
  processed-TakethisSent c d msgid evs state sz k t p =
      let (b, eq) = processed_lem d msgid in
      rw eq (record { same_check = k; popped = t; settled = (state, sz, ap (delete msgid) p) })

  sent_article-TakethisSent :
      (c : NntpConnection W) (ev : SyncEvent) (evs : List SyncEvent) (r : Answer Bytes)
      → let c0 =
          message_set_pending_state
            (record c { takethis = evs })
            ev.msgid
            (codes "takethis")
            ev.sz in
        (c' : NntpConnection W) × (e : Option Error) × (sent_article daemon
            (nntp_takethis ev.msgid)
            ev.msgid
            c0
            r
          ≡ returns c' e)
        × TakethisSent c c' ev.msgid evs
  unfolding message_set_pending_state
  sent_article-TakethisSent c ev evs (answer text) =
      (_, _, refl, processed-TakethisSent c _ ev.msgid evs (codes "takethis") ev.sz refl refl refl)
  sent_article-TakethisSent c ev evs (failed e) =
      (_, _, refl, processed-TakethisSent c _ ev.msgid evs (codes "takethis") ev.sz refl refl refl)

  abbrev pub marked : NntpConnection W → SyncEvent → List SyncEvent → NntpConnection W
  marked c ev evs =
      message_set_pending_state (record c { takethis = evs }) ev.msgid (codes "takethis") ev.sz

  pub streaming_takethis-sent_article :
      (c : NntpConnection W) (ev : SyncEvent) (evs : List SyncEvent)
      → c.takethis ≡ ev ∷ evs
      → message_id_line ev.msgid ≡ true
      → streaming_takethis daemon c
        ≡ sent_article daemon
            (nntp_takethis ev.msgid)
            ev.msgid
            (marked c ev evs)
            (daemon.store.open_message (marked c ev evs).world ev.msgid)
  unfolding streaming_takethis handle_stream_event
  streaming_takethis-sent_article c ev evs e v =
      let w = takethis_words ev.msgid v in rw (e, w.0, message_id_line-valid ev.msgid v, w.1) refl

  pub takethis_sent :
      (c : NntpConnection W) (ev : SyncEvent) (evs : List SyncEvent)
      → c.takethis ≡ ev ∷ evs
      → message_id_line ev.msgid ≡ true
      → (c' : NntpConnection W) × (e : Option Error) × (streaming_takethis daemon c ≡ returns c' e)
        × TakethisSent c c' ev.msgid evs
  takethis_sent c ev evs e v =
      let (c', err, eq, ts) =
        sent_article-TakethisSent c ev evs
          (daemon.store.open_message (marked c ev evs).world ev.msgid) in
      (c', err, streaming_takethis-sent_article c ev evs e v ∙ eq, ts)
