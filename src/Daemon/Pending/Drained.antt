-- ===== src/Daemon/Pending/Drained.antt =====
-- The stream of src/srnd/nntp.go runs dry: every article that was offered is settled in the end.
use srndv.Base.{
  ℕ, ◌+◌, ◌≤◌, ◌≡◌, ◌⊎◌, inl, inr, refl, sym, ap, subst, ◌∙◌, true, Option, none, List, [], ◌∷◌,
  ◌++◌, Bytes, arith, Bool-cases, List-cases, length, ltb, if◌then◌else◌,
}
use srndv.Inbound.{Error, Answer, answer, failed}
use srndv.Nntp.Ident.{message_id_line}
use srndv.Daemon.{
  SyncEvent, NntpDaemon, NntpConnection, Run, blocks, returns, channel_capacity, add64,
}
use srndv.Daemon.Pending.{
  offer_stream, queued_state, push_check, message_is_queued, message_set_pending_state,
}
use srndv.Daemon.Pending.Talk.{
  Question, IsAnswer, Talk, weight, measure, takethis_question, Progress, checked, taken, answered,
  Progresses, finished, and_then, TalkStep, offered, progressed, Talked, start, next, Waits,
  Checked, Keys,
}
use srndv.Daemon.Pending.Sent.{check_sent, takethis_sent, TakethisSent, returns_conn}
use srndv.Daemon.Pending.Tracked.{AllValid, AllAsked, InFlight, IsTracked, offered-IsTracked}
use srndv.Daemon.Pending.Nearer.{
  Nearer, checked-Nearer, taken-Nearer, not_blocked, answered-Nearer, answer_returns,
}

module _ {W : Type 0} (daemon : NntpDaemon W) where
  module _ (peer : Talk W → ℕ) where
    -- the question that a TAKETHIS adds
    asked_takethis :
        (msgid : Bytes) (r : Answer Bytes)
        → message_id_line msgid ≡ true
        → let qs = takethis_question daemon peer msgid r in AllAsked qs × (weight qs ≤ 1)
    asked_takethis msgid (answer text) v = ((v, tt), omega arith)
    asked_takethis msgid (failed e) v = (tt, omega arith)

    -- The peer answers its oldest line by one of the codes for it.
    abbrev pub IsPeer : Type 0
    IsPeer =
        (t : Talk W) (q : Question) (qs : List Question)
        → t.questions ≡ q ∷ qs
        → IsAnswer (peer t) q

    Progress-Nearer :
        {t u : Talk W} → IsPeer → IsTracked t → Progress daemon peer t u → Nearer daemon t u
    Progress-Nearer {t} {u} p h (checked ev evs c e eq r ue) =
        let v = (subst AllValid eq h.valid_checks).0 in
        let ce = returns_conn (sym r ∙ check_sent daemon t.conn ev evs eq v) in
        subst (Nearer daemon t) (sym ue) (checked-Nearer daemon t ev evs c eq ce h)
    Progress-Nearer {t} {u} p h (taken ev evs c e eq r ue) =
        let v = (subst AllValid eq h.valid_takethis).0 in
        let (c', e', r', ts) = takethis_sent daemon t.conn ev evs eq v in
        let ts' =
          subst (λ d. TakethisSent daemon t.conn d ev.msgid evs) (returns_conn (sym r' ∙ r)) ts in
        let (a, w) = asked_takethis ev.msgid (daemon.store.open_message t.conn.world ev.msgid) v in
        subst (Nearer daemon t) (sym ue) (taken-Nearer daemon t ev evs c _ eq ts' a w h)
    Progress-Nearer {t} {u} p h (answered q qs c e eq r ue) =
        subst (Nearer daemon t) (sym ue)
          (answered-Nearer daemon t (peer t) q qs c e eq (p t q qs eq) r h)

    nothing_pending :
        (t : Talk W)
        → t.conn.check ≡ []
        → t.conn.takethis ≡ []
        → t.questions ≡ []
        → IsTracked t
        → t.conn.pending ≡ []
    nothing_pending t k ta q h = elim (List-cases t.conn.pending) [
      | inl e ↦ e
      | inr (x, m, e) ↦ absurd (nowhere x.0 (subst (Keys (InFlight t)) e h.covers).0)
    ]
      where
        nowhere : (k : Bytes) → InFlight t k → ⊥
        nowhere m (inl w) = subst (Waits m) k w
        nowhere m (inr (inl w)) = subst (Checked m) q w
        nowhere m (inr (inr w)) = subst (Waits m) ta w

    -- Either somebody can go on, or nothing is pending.
    go_on :
        (t : Talk W)
        → IsPeer
        → IsTracked t
        → ((u : Talk W) × Progress daemon peer t u) ⊎ (t.conn.pending ≡ [])
    go_on t p h = elim (List-cases t.conn.check) [
      | inr (ev, evs, e) ↦
          let r = check_sent daemon t.conn ev evs e (subst AllValid e h.valid_checks).0 in
          inl (_, checked ev evs _ none e r refl)
      | inl k ↦ elim (List-cases t.conn.takethis) [
        | inr (ev, evs, e) ↦
            let (c, err, r, ts) =
              takethis_sent daemon t.conn ev evs e (subst AllValid e h.valid_takethis).0 in
            inl (_, taken ev evs c err e r refl)
        | inl ta ↦ elim (List-cases t.questions) [
          | inr (q, qs, e) ↦
              let (c, r) = answer_returns daemon t.conn (peer t) q ta (p t q qs e) in
              inl (_, answered q qs c none e r refl)
          | inl e ↦ inr (nothing_pending t k ta e h)
        ]
      ]
    ]

    abbrev first_event : Bytes → ℕ → SyncEvent
    first_event msgid sz = record { msgid = msgid; sz = sz; state = queued_state }

    abbrev marked_queued : Talk W → Bytes → ℕ → NntpConnection W
    marked_queued t msgid sz =
        message_set_pending_state (record t.conn { backlog = add64 t.conn.backlog sz }) msgid
          queued_state sz

    abbrev queued : Talk W → Bytes → ℕ → NntpConnection W
    queued t msgid sz = record (marked_queued t msgid sz) {
      check = (marked_queued t msgid sz).check ++ first_event msgid sz ∷ [];
    }

    queued-IsTracked :
        (t : Talk W) (msgid : Bytes) (sz : ℕ) (c : NntpConnection W)
        → message_id_line msgid ≡ true
        → queued t msgid sz ≡ c
        → IsTracked t
        → IsTracked (record { conn = c; questions = t.questions })
    unfolding message_set_pending_state
    queued-IsTracked t msgid sz c v ce h =
        offered-IsTracked t (record { conn = c; questions = t.questions }) (first_event msgid sz) _
          v (ap (λ (d : NntpConnection W). d.check) (sym ce))
          (ap (λ (d : NntpConnection W). d.takethis) (sym ce)) refl
          (ap (λ (d : NntpConnection W). d.pending) (sym ce)) h

    offer-IsTracked :
        (t : Talk W) (msgid : Bytes) (sz : ℕ) (c : NntpConnection W) (e : Option Error)
        → message_id_line msgid ≡ true
        → offer_stream t.conn msgid sz ≡ returns c e
        → IsTracked t
        → IsTracked (record { conn = c; questions = t.questions })
    unfolding offer_stream
    offer-IsTracked t msgid sz c e v r h =
        let pushed : Run W = push_check (first_event msgid sz) (marked_queued t msgid sz) in
        elim (Bool-cases (message_is_queued t.conn msgid)) [
          | inl known ↦
              let ce =
                returns_conn (
                  subst (λ b. (if b then returns t.conn none else pushed) ≡ returns c e) known r) in
              subst (λ d. IsTracked (record { conn = d; questions = t.questions })) ce h
          | inr fresh ↦
              let r' =
                subst (λ b. (if b then returns t.conn none else pushed) ≡ returns c e) fresh r in
              elim (Bool-cases (ltb (length (marked_queued t msgid sz).check) channel_capacity)) [
                | inr full ↦ absurd (
                    not_blocked daemon (
                      subst
                        (λ b.
                          (if b then returns (queued t msgid sz) none else blocks) ≡ returns c e)
                        full r'))
                | inl room ↦
                    queued-IsTracked t msgid sz c v
                      (returns_conn (
                        subst
                          (λ b.
                            (if b then returns (queued t msgid sz) none else blocks) ≡ returns c e)
                          room r'))
                      h
              ]
        ]

    TalkStep-IsTracked :
        {t u : Talk W} → IsPeer → TalkStep daemon peer t u → IsTracked t → IsTracked u
    TalkStep-IsTracked {t} p (offered msgid sz c e v r ue) h =
        subst IsTracked (sym ue) (offer-IsTracked t msgid sz c e v r h)
    TalkStep-IsTracked p (progressed st) h = (Progress-Nearer p h st).0

    Talked-IsTracked : {t u : Talk W} → IsPeer → IsTracked t → Talked daemon peer t u → IsTracked u
    Talked-IsTracked p h start = h
    Talked-IsTracked p h (next r st) = TalkStep-IsTracked p st (Talked-IsTracked p h r)

    Progresses-Nearer :
        {t u : Talk W} {n : ℕ}
        → IsPeer
        → IsTracked t
        → Progresses daemon peer t n u
        → IsTracked u × (n + measure u ≤ measure t)
    Progresses-Nearer p h finished = (h, omega arith)
    Progresses-Nearer p h (and_then r st) =
        let (h', m) = Progresses-Nearer p h r in
        let (h'', m') = Progress-Nearer p h' st in (h'', omega (arith, m, m'))

    -- Nothing was said or offered yet.
    pub record IsQuiet (t : Talk W) : Type 0 where
      pub no_check : t.conn.check ≡ []
      pub no_takethis : t.conn.takethis ≡ []
      pub no_questions : t.questions ≡ []
      pub no_pending : t.conn.pending ≡ []

    quiet-IsTracked : (t : Talk W) → IsQuiet t → IsTracked t
    quiet-IsTracked t q = record {
      covers = rw q.no_pending tt;
      valid_checks = rw q.no_check tt;
      valid_questions = rw q.no_questions tt;
      valid_takethis = rw q.no_takethis tt;
    }

    -- A stream that starts with nothing said, to which the daemon offered any articles, with ids
    -- of one line that are valid, at any time and however often, and whose peer answers its lines
    -- in their order by the codes of the protocol: without a further offer it goes on for at most
    -- `measure` steps, whichever goroutine or peer takes them, and where it stops nothing is
    -- pending any more. No order of the steps leaves the channels, the sender and the peer waiting
    -- for one another.
    pub stream_drains :
        {t0 t u : Talk W} {n : ℕ}
        → IsPeer
        → IsQuiet t0
        → Talked daemon peer t0 t
        → Progresses daemon peer t n u
        → (n ≤ measure t) × (((v : Talk W) × Progress daemon peer u v) ⊎ (u.conn.pending ≡ []))
    stream_drains {t0} {t} {u} p q r st =
        let h = Talked-IsTracked p (quiet-IsTracked t0 q) r in
        let (h', m) = Progresses-Nearer p h st in (omega (arith, m), go_on u p h')
