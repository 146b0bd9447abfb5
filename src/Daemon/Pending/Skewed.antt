-- ===== src/Daemon/Pending/Skewed.antt =====
-- src/srnd/nntp.go: a TAKETHIS for an article that is no longer pending, as after a second 238 for
-- it.
use srndv.Base.{
  ◌≡◌, refl, ap, ◌∙◌, true, Option, none, some, List, [], ◌∷◌, inl, inr, Bytes, codes, same,
  same_refl, Bool-cases,
}
use srndv.Inbound.{Error, Answer, answer, failed}
use srndv.Nntp.Ident.{message_id_line}
use srndv.Daemon.{
  SyncEvent, NntpDaemon, NntpConnection, returns, sub64, print_line, print_lines, dot_writer,
}
use srndv.Daemon.Pending.{
  Pending, find, assign, with_state, nntp_takethis, sent_article, message_set_pending_state,
  message_set_processed, streaming_takethis,
}
use srndv.Daemon.Pending.Sent.{marked, streaming_takethis-sent_article}

find-assign :
    (msgid : Bytes) (ev : SyncEvent) (m : Pending) → find msgid (assign msgid ev m) ≡ some ev
unfolding find assign
find-assign msgid ev [] = rw (same_refl msgid) refl
find-assign msgid ev ((k, old) ∷ m) = elim (Bool-cases (same k msgid)) [
  | inl e ↦ rw (e, e) refl
  | inr e ↦ rw (e, e) (find-assign msgid ev m)
]

module _ {W : Type 0} (daemon : NntpDaemon W) where
  processed-backlog :
      (c : NntpConnection W) (msgid : Bytes) (ev : SyncEvent)
      → find msgid c.pending ≡ some ev
      → (message_set_processed c msgid).backlog ≡ sub64 c.backlog ev.sz
  unfolding message_set_processed
  processed-backlog c msgid ev f = rw (f, message_set_processed) refl

  marked-find :
      (c : NntpConnection W) (ev : SyncEvent) (evs : List SyncEvent)
      → find ev.msgid c.pending ≡ none
      → find ev.msgid (marked daemon c ev evs).pending
        ≡ some (record { msgid = ev.msgid; sz = ev.sz; state = codes "takethis" })
  unfolding message_set_pending_state
  marked-find c ev evs f =
      find-assign ev.msgid (with_state (find ev.msgid c.pending) ev.msgid (codes "takethis") ev.sz)
        c.pending
      ∙ ap (λ o. some (with_state o ev.msgid (codes "takethis") ev.sz)) f

  stale_sent :
      (c : NntpConnection W) (ev : SyncEvent) (evs : List SyncEvent) (r : Answer Bytes)
      → find ev.msgid c.pending ≡ none
      → (c' : NntpConnection W) × (e : Option Error) × (sent_article daemon
            (nntp_takethis ev.msgid)
            ev.msgid
            (marked daemon c ev evs)
            r
          ≡ returns c' e)
        × (c'.backlog ≡ sub64 c.backlog ev.sz)
  unfolding message_set_pending_state
  stale_sent c ev evs (answer text) f = (
    _,
    _,
    refl,
    processed-backlog
        (print_lines (print_line (marked daemon c ev evs) (nntp_takethis ev.msgid))
          (dot_writer text))
        ev.msgid _ (marked-find c ev evs f),
  )
  stale_sent c ev evs (failed e) f =
      (_, _, refl, processed-backlog (marked daemon c ev evs) ev.msgid _ (marked-find c ev evs f))

  -- Sending TAKETHIS for an article that is not pending takes its size off the backlog all the
  -- same, though it was never added: from a backlog of 0 the count goes below zero.
  pub stale_takethis_skews :
      (c : NntpConnection W) (ev : SyncEvent) (evs : List SyncEvent)
      → c.takethis ≡ ev ∷ evs
      → message_id_line ev.msgid ≡ true
      → find ev.msgid c.pending ≡ none
      → (c' : NntpConnection W) × (e : Option Error) × (streaming_takethis daemon c ≡ returns c' e)
        × (c'.backlog ≡ sub64 c.backlog ev.sz)
  stale_takethis_skews c ev evs q v f =
      let (c', e, eq, b) =
        stale_sent c ev evs (daemon.store.open_message (marked daemon c ev evs).world ev.msgid) f in
      (c', e, streaming_takethis-sent_article daemon c ev evs q v ∙ eq, b)
