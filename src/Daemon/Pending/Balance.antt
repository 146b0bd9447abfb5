-- ===== src/Daemon/Pending/Balance.antt =====
-- src/srnd/nntp.go: `backlog` counts the bytes of the articles in `pending`.
use srndv.Base.{
  ℕ, ◌%◌, ◌≡◌, true, false, not, Option, none, some, List, [], ◌∷◌, inl, inr, refl, Bytes, codes,
  same, arith, Option-cases, List-cases, is_none, ltb, length, ◌==◌, subst,
}
use srndv.Inbound.{Error, Answer, answer, failed}
use srndv.Nntp.Ident.{message_id_valid}
use srndv.Daemon.{
  w64, SyncEvent, NntpDaemon, NntpConnection, Run, panics, returns, channel_capacity, print_line,
}
use srndv.Daemon.Runs.{Returning, Returning-if, returned, panicking, blocking, returning}
use srndv.Daemon.Pending.{
  find, with_state, stream_message_id, stream_command, nntp_check, nntp_takethis, message_is_queued,
  message_set_pending_state, message_set_processed, offer_stream, ask_for_article,
  handle_stream_event, streaming_check, streaming_takethis, stream_answer, push_check,
  push_takethis, push_article, sent_article,
}
use srndv.Daemon.Pending.Books.{
  total, IsMap, IsMap-assign, IsMap-delete, total-delete, total-assign, added,
}

added_zero : (o : Option SyncEvent) → added o 0 ≡ 0
added_zero none = refl
added_zero (some ev) = refl

added_queued : (o : Option SyncEvent) (sz : ℕ) → not (is_none o) ≡ true → added o sz ≡ 0
added_queued none sz h = cc
added_queued (some ev) sz h = refl

added_fresh : (o : Option SyncEvent) (sz : ℕ) → not (is_none o) ≡ false → added o sz ≡ sz
added_fresh none sz h = refl
added_fresh (some ev) sz h = cc

module _ {W : Type 0} where
  -- The backlog is the sum of the sizes that are pending, as an int64.
  abbrev pub IsBalanced : NntpConnection W → Type 0
  IsBalanced c = IsMap c.pending × (c.backlog ≡ total c.pending % w64)

  pub processed-IsBalanced :
      (c : NntpConnection W) (msgid : Bytes)
      → IsBalanced c
      → IsBalanced (message_set_processed c msgid)
  unfolding message_set_processed
  processed-IsBalanced c msgid h = elim (Option-cases (find msgid c.pending)) [
    | inl e ↦ rw (e, message_set_processed) h
    | inr (ev, e) ↦
        rw (e, message_set_processed)
          (
            IsMap-delete msgid c.pending h.0,
            omega (arith, total-delete msgid ev c.pending h.0 e, h.1),
          )
  ]

  -- A state is set without a change of the bytes if the article is pending or the size is 0.
  pub set_pending-IsBalanced :
      (c : NntpConnection W) (msgid state : Bytes) (sz : ℕ)
      → added (find msgid c.pending) sz ≡ 0
      → IsBalanced c
      → IsBalanced (message_set_pending_state c msgid state sz)
  unfolding message_set_pending_state
  set_pending-IsBalanced c msgid state sz z h = (
    IsMap-assign msgid _ c.pending h.0,
    omega (arith, total-assign msgid state sz c.pending, h.1, z),
  )

  push_check-IsBalanced :
      (ev : SyncEvent) (c : NntpConnection W)
      → IsBalanced c
      → Returning IsBalanced (push_check ev c)
  push_check-IsBalanced ev c h =
      Returning-if IsBalanced (ltb (length c.check) channel_capacity) _ _ (λ _. returning h)
        (λ _. blocking)

  push_takethis-IsBalanced :
      (ev : SyncEvent) (c : NntpConnection W)
      → IsBalanced c
      → Returning IsBalanced (push_takethis ev c)
  push_takethis-IsBalanced ev c h =
      Returning-if IsBalanced (ltb (length c.takethis) channel_capacity) _ _ (λ _. returning h)
        (λ _. blocking)

  push_article-IsBalanced :
      (msgid : Bytes) (c : NntpConnection W)
      → IsBalanced c
      → Returning IsBalanced (push_article msgid c)
  push_article-IsBalanced msgid c h =
      Returning-if IsBalanced (ltb (length c.article) channel_capacity) _ _ (λ _. returning h)
        (λ _. blocking)

  pub offer_stream-IsBalanced :
      (c : NntpConnection W) (msgid : Bytes) (sz : ℕ)
      → IsBalanced c
      → Returning IsBalanced (offer_stream c msgid sz)
  unfolding offer_stream message_is_queued message_set_pending_state
  offer_stream-IsBalanced c msgid sz h =
      Returning-if IsBalanced (message_is_queued c msgid) _ _ (λ e. returning h)
        (λ e. push_check-IsBalanced _ _ (
          IsMap-assign msgid (with_state (find msgid c.pending) msgid (codes "queued") sz) c.pending
              h.0,
          omega (
            arith,
            total-assign msgid (codes "queued") sz c.pending,
            added_fresh (find msgid c.pending) sz e,
            h.1,
          ),
        ))

  pub ask_for_article-IsBalanced :
      (c : NntpConnection W) (msgid : Bytes)
      → IsBalanced c
      → Returning IsBalanced (ask_for_article c msgid)
  unfolding ask_for_article
  ask_for_article-IsBalanced c msgid h =
      Returning-if IsBalanced (message_is_queued c msgid) _ _ (λ e. returning h)
        (λ e.
          push_article-IsBalanced msgid _
            (set_pending-IsBalanced c msgid (codes "queued") 0 (added_zero _) h))

  module _ (daemon : NntpDaemon W) where
    sent_article-IsBalanced :
        (ev msgid : Bytes) (c : NntpConnection W) (r : Answer Bytes)
        → IsBalanced c
        → Returning IsBalanced (sent_article daemon ev msgid c r)
    sent_article-IsBalanced ev msgid c (answer text) h = returning (processed-IsBalanced _ msgid h)
    sent_article-IsBalanced ev msgid c (failed e) h = returning (processed-IsBalanced c msgid h)

    pub handle_stream_event-IsBalanced :
        (ev : Bytes) (c : NntpConnection W)
        → IsBalanced c
        → Returning IsBalanced (handle_stream_event daemon ev c)
    unfolding handle_stream_event
    handle_stream_event-IsBalanced ev c h = elim (Option-cases (stream_message_id ev)) [
      | inl e ↦ rw (handle_stream_event, e) panicking
      | inr (msgid, e) ↦
          rw (handle_stream_event, e)
            (Returning-if IsBalanced (message_id_valid msgid) _ _
              (λ _.
                Returning-if IsBalanced (same (stream_command ev) (codes "TAKETHIS")) _ _
                  (λ _. sent_article-IsBalanced ev msgid c _ h)
                  (λ _.
                    Returning-if IsBalanced (same (stream_command ev) (codes "CHECK")) _ _
                      (λ _. returning (
                        set_pending-IsBalanced (print_line c ev) msgid (codes "check") 0
                          (added_zero _) h))
                      (λ _. returning h)))
              (λ _. returning h))
    ]

    pub stream_answer-IsBalanced :
        (code : ℕ) (msgid : Bytes) (c : NntpConnection W) (otherwise : Run W)
        → IsBalanced c
        → Returning IsBalanced otherwise
        → Returning IsBalanced (stream_answer daemon code msgid c otherwise)
    unfolding stream_answer
    stream_answer-IsBalanced code msgid c otherwise h o =
        let done : Returning IsBalanced (returns (message_set_processed c msgid) none) =
          returning (processed-IsBalanced c msgid h) in
        Returning-if IsBalanced (code == 238) _ _
          (λ _.
            push_takethis-IsBalanced _ _
              (set_pending-IsBalanced c msgid (codes "takethis") 0 (added_zero _) h))
          (λ _.
            Returning-if IsBalanced (code == 239) _ _ (λ _. done)
              (λ _.
                Returning-if IsBalanced (code == 431) _ _ (λ _. done)
                  (λ _.
                    Returning-if IsBalanced (code == 439) _ _ (λ _. done)
                      (λ _. Returning-if IsBalanced (code == 438) _ _ (λ _. done) (λ _. o)))))

    -- Sending TAKETHIS for an article that is still pending
    pub streaming_takethis-IsBalanced :
        (c : NntpConnection W) (ev : SyncEvent) (evs : List SyncEvent)
        → c.takethis ≡ ev ∷ evs
        → message_is_queued c ev.msgid ≡ true
        → IsBalanced c
        → Returning IsBalanced (streaming_takethis daemon c)
    unfolding message_is_queued streaming_takethis
    streaming_takethis-IsBalanced c ev evs e q h =
        rw (streaming_takethis, e)
          (handle_stream_event-IsBalanced (nntp_takethis ev.msgid)
            (message_set_pending_state (record c { takethis = evs }) ev.msgid (codes "takethis")
              ev.sz)
            (set_pending-IsBalanced (record c { takethis = evs }) ev.msgid (codes "takethis") ev.sz
              (added_queued (find ev.msgid c.pending) ev.sz q) h))

    pub streaming_check-IsBalanced :
        (c : NntpConnection W) → IsBalanced c → Returning IsBalanced (streaming_check daemon c)
    unfolding streaming_check
    streaming_check-IsBalanced c h = elim (List-cases c.check) [
      | inl e ↦ rw (streaming_check, e) (returning h)
      | inr (ev, evs, e) ↦
          rw (streaming_check, e)
            (handle_stream_event-IsBalanced (nntp_check ev.msgid) (record c { check = evs }) h)
    ]

    -- What happens to the stream of a connection: the daemon offers or asks for an article, the
    -- sending goroutine takes an event from a channel, or the peer answers.
    pub data StreamStep (c c' : NntpConnection W) : Type 0 where
      offers :
          (msgid : Bytes) (sz : ℕ) (e : Option Error)
          → offer_stream c msgid sz ≡ returns c' e
          → StreamStep c c'
      asks :
          (msgid : Bytes) (e : Option Error)
          → ask_for_article c msgid ≡ returns c' e
          → StreamStep c c'
      sends_check : (e : Option Error) → streaming_check daemon c ≡ returns c' e → StreamStep c c'
      sends_takethis :
          (ev : SyncEvent) (evs : List SyncEvent) (e : Option Error)
          → c.takethis ≡ ev ∷ evs
          → message_is_queued c ev.msgid ≡ true
          → streaming_takethis daemon c ≡ returns c' e
          → StreamStep c c'
      answers :
          (code : ℕ) (msgid : Bytes) (e : Option Error)
          → stream_answer daemon code msgid c panics ≡ returns c' e
          → StreamStep c c'

    pub StreamStep-IsBalanced :
        {c c' : NntpConnection W} → StreamStep c c' → IsBalanced c → IsBalanced c'
    StreamStep-IsBalanced {c} (offers msgid sz e eq) h =
        returned (subst (Returning IsBalanced) eq (offer_stream-IsBalanced c msgid sz h))
    StreamStep-IsBalanced {c} (asks msgid e eq) h =
        returned (subst (Returning IsBalanced) eq (ask_for_article-IsBalanced c msgid h))
    StreamStep-IsBalanced {c} (sends_check e eq) h =
        returned (subst (Returning IsBalanced) eq (streaming_check-IsBalanced c h))
    StreamStep-IsBalanced {c} (sends_takethis ev evs e ch q eq) h =
        returned (subst (Returning IsBalanced) eq (streaming_takethis-IsBalanced c ev evs ch q h))
    StreamStep-IsBalanced {c} (answers code msgid e eq) h =
        returned (
          subst (Returning IsBalanced) eq
            (stream_answer-IsBalanced code msgid c panics h panicking))

    pub data Streamed (c : NntpConnection W) : NntpConnection W → Type 0 where
      here : Streamed c c
      next : {d e : NntpConnection W} → Streamed c d → StreamStep d e → Streamed c e

    Streamed-IsBalanced :
        {c c' : NntpConnection W} → c.pending ≡ [] → c.backlog ≡ 0 → Streamed c c' → IsBalanced c'
    Streamed-IsBalanced p b here = rw (p, b) (tt, refl)
    Streamed-IsBalanced p b (next r st) = StreamStep-IsBalanced st (Streamed-IsBalanced p b r)

    -- However the offers, the sends and the answers of the peer follow one another, in a
    -- connection that starts with nothing pending the backlog is the sum of the sizes of the
    -- pending articles, as an int64, as long as TAKETHIS is only sent for articles that are
    -- pending still.
    pub backlog_lem :
        {c c' : NntpConnection W}
        → c.pending ≡ []
        → c.backlog ≡ 0
        → Streamed c c'
        → c'.backlog ≡ total c'.pending % w64
    backlog_lem p b r = (Streamed-IsBalanced p b r).1
