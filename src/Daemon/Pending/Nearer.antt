-- ===== src/Daemon/Pending/Nearer.antt =====
-- The steps of the stream of src/srnd/nntp.go one by one: behind each there is less left to say.
use srndv.Base.{
  ℕ, ◌≤◌, ◌<◌, ◌≡◌, inl, inr, refl, sym, ap, subst, ◌∙◌, Option, none, List, [], ◌∷◌, ◌++◌, Bytes,
  codes, arith, Bool-cases, length, length-append, ltb, if◌then◌else◌,
}
use srndv.Inbound.{Error}
use srndv.Daemon.{SyncEvent, NntpDaemon, NntpConnection, panics, blocks, returns, channel_capacity}
use srndv.Daemon.Pending.{
  delete, nntp_check, stream_answer, message_set_processed, message_set_pending_state,
}
use srndv.Daemon.Pending.Talk.{
  Question, check_of, takethis_of, id_of, IsAnswer, Talk, weight, measure, weight-append,
  processed_lem,
}
use srndv.Daemon.Pending.Sent.{TakethisSent, returns_conn}
use srndv.Daemon.Pending.Tracked.{
  AllAsked, IsTracked, check-IsTracked, takethis-IsTracked, processed-IsTracked, wanted-IsTracked,
}

module _ {W : Type 0} (daemon : NntpDaemon W) where
  -- What the next state has to satisfy: it is tracked, and there is less to say.
  abbrev pub Nearer : Talk W → Talk W → Type 0
  Nearer t u = IsTracked u × (measure u < measure t)

  pub checked-Nearer :
      (t : Talk W) (ev : SyncEvent) (evs : List SyncEvent) (c : NntpConnection W)
      → t.conn.check ≡ ev ∷ evs
      → c
        ≡ message_set_pending_state
            (record t.conn { check = evs; sent = t.conn.sent ++ nntp_check ev.msgid ∷ [] })
            ev.msgid
            (codes "check")
            0
      → IsTracked t
      → Nearer t (record { conn = c; questions = t.questions ++ check_of ev.msgid ∷ [] })
  unfolding message_set_pending_state
  checked-Nearer t ev evs c e ce h =
      let u : Talk W = record { conn = c; questions = t.questions ++ check_of ev.msgid ∷ [] } in
      (
        check-IsTracked t u ev evs _ e (ap (λ (d : NntpConnection W). d.check) ce)
            (ap (λ (d : NntpConnection W). d.takethis) ce) refl
            (ap (λ (d : NntpConnection W). d.pending) ce) h,
        omega (
          arith,
          ap length e,
          ap (λ (d : NntpConnection W). length d.check) ce,
          ap (λ (d : NntpConnection W). length d.takethis) ce,
          weight-append t.questions (check_of ev.msgid ∷ []),
        ),
      )

  pub taken-Nearer :
      (t : Talk W) (ev : SyncEvent) (evs : List SyncEvent) (c : NntpConnection W)
      (qs : List Question)
      → t.conn.takethis ≡ ev ∷ evs
      → TakethisSent daemon t.conn c ev.msgid evs
      → AllAsked qs
      → weight qs ≤ 1
      → IsTracked t
      → Nearer t (record { conn = c; questions = t.questions ++ qs })
  taken-Nearer t ev evs c qs e ts v w h =
      let (state, sz, p) = ts.settled in
      let u : Talk W = record { conn = c; questions = t.questions ++ qs } in
      (
        takethis-IsTracked t u ev evs _ qs e ts.same_check ts.popped refl v p h,
        omega (
          arith,
          w,
          ap length e,
          ap length ts.same_check,
          ap length ts.popped,
          weight-append t.questions qs,
        ),
      )

  weight_pop : (q : Question) (qs all : List Question) → all ≡ q ∷ qs → weight all ≡ weight (q ∷ qs)
  weight_pop q qs all e = ap weight e

  weight_positive : (q : Question) (qs : List Question) → weight qs < weight (q ∷ qs)
  weight_positive (check_of m) qs = omega arith
  weight_positive (takethis_of m) qs = omega arith

  processed-Nearer :
      (t : Talk W) (q : Question) (qs : List Question) (c : NntpConnection W) (e : Option Error)
      → t.questions ≡ q ∷ qs
      → returns (message_set_processed t.conn (id_of q)) none ≡ returns c e
      → IsTracked t
      → Nearer t (record { conn = c; questions = qs })
  processed-Nearer t q qs c e eq r h =
      let (b, settled) = processed_lem t.conn (id_of q) in
      let ce : c ≡ record t.conn { backlog = b; pending = delete (id_of q) t.conn.pending } =
        sym (returns_conn r) ∙ settled in
      let u : Talk W = record { conn = c; questions = qs } in
      (
        processed-IsTracked t u q qs eq (ap (λ (d : NntpConnection W). d.check) ce)
            (ap (λ (d : NntpConnection W). d.takethis) ce) refl
            (ap (λ (d : NntpConnection W). d.pending) ce) h,
        omega (
          arith,
          weight_pop q qs t.questions eq,
          weight_positive q qs,
          ap (λ (d : NntpConnection W). length d.check) ce,
          ap (λ (d : NntpConnection W). length d.takethis) ce,
        ),
      )

  abbrev wanted_event : Bytes → NntpConnection W → SyncEvent
  wanted_event msgid c = record {
    msgid = msgid;
    sz = daemon.store.get_message_size c.world msgid;
    state = [];
  }

  abbrev wanted : Bytes → NntpConnection W → NntpConnection W
  wanted msgid c =
      let c' = message_set_pending_state c msgid (codes "takethis") 0 in
      record c' { takethis = c'.takethis ++ wanted_event msgid c' ∷ [] }

  pub not_blocked : {c : NntpConnection W} {e : Option Error} → blocks ≡ returns c e → ⊥
  not_blocked r = cc r

  wanted-Nearer :
      (t : Talk W) (msgid : Bytes) (qs : List Question) (c : NntpConnection W) (e : Option Error)
      → t.questions ≡ check_of msgid ∷ qs
      → stream_answer daemon 238 msgid t.conn panics ≡ returns c e
      → IsTracked t
      → Nearer t (record { conn = c; questions = qs })
  unfolding stream_answer message_set_pending_state
  wanted-Nearer t msgid qs c e eq r h =
      elim (Bool-cases (ltb (length t.conn.takethis) channel_capacity)) [
        | inr full ↦ absurd (
            not_blocked (
              subst (λ b. (if b then returns (wanted msgid t.conn) none else blocks) ≡ returns c e)
                full r))
        | inl room ↦
            let ce : wanted msgid t.conn ≡ c = returns_conn (
              subst (λ b. (if b then returns (wanted msgid t.conn) none else blocks) ≡ returns c e)
                room r) in
            let u : Talk W = record { conn = c; questions = qs } in
            (
              wanted-IsTracked t u msgid qs _ _ eq (ap (λ (d : NntpConnection W). d.check) (sym ce))
                  (ap (λ (d : NntpConnection W). d.takethis) (sym ce)) refl refl
                  (ap (λ (d : NntpConnection W). d.pending) (sym ce)) h,
              omega (
                arith,
                weight_pop (check_of msgid) qs t.questions eq,
                ap (λ (d : NntpConnection W). length d.check) ce,
                ap (λ (d : NntpConnection W). length d.takethis) ce,
                length-append t.conn.takethis (wanted_event msgid t.conn ∷ []),
              ),
            )
      ]

  pub answered-Nearer :
      (t : Talk W) (code : ℕ) (q : Question) (qs : List Question) (c : NntpConnection W)
      (e : Option Error)
      → t.questions ≡ q ∷ qs
      → IsAnswer code q
      → stream_answer daemon code (id_of q) t.conn panics ≡ returns c e
      → IsTracked t
      → Nearer t (record { conn = c; questions = qs })
  unfolding stream_answer
  answered-Nearer t code (check_of m) qs c e eq (inl a) r h =
      wanted-Nearer t m qs c e eq
        (subst (λ n. stream_answer daemon n m t.conn panics ≡ returns c e) a r) h
  answered-Nearer t code (check_of m) qs c e eq (inr (inl a)) r h =
      processed-Nearer t (check_of m) qs c e eq
        (subst (λ n. stream_answer daemon n m t.conn panics ≡ returns c e) a r) h
  answered-Nearer t code (check_of m) qs c e eq (inr (inr a)) r h =
      processed-Nearer t (check_of m) qs c e eq
        (subst (λ n. stream_answer daemon n m t.conn panics ≡ returns c e) a r) h
  answered-Nearer t code (takethis_of m) qs c e eq (inl a) r h =
      processed-Nearer t (takethis_of m) qs c e eq
        (subst (λ n. stream_answer daemon n m t.conn panics ≡ returns c e) a r) h
  answered-Nearer t code (takethis_of m) qs c e eq (inr a) r h =
      processed-Nearer t (takethis_of m) qs c e eq
        (subst (λ n. stream_answer daemon n m t.conn panics ≡ returns c e) a r) h

  pub answer_returns :
      (c : NntpConnection W) (code : ℕ) (q : Question)
      → c.takethis ≡ []
      → IsAnswer code q
      → (c' : NntpConnection W) × (stream_answer daemon code (id_of q) c panics ≡ returns c' none)
  unfolding stream_answer message_set_pending_state
  answer_returns c code (check_of m) e (inl a) = (wanted m c, rw (a, e) refl)
  answer_returns c code (check_of m) e (inr (inl a)) = (message_set_processed c m, rw a refl)
  answer_returns c code (check_of m) e (inr (inr a)) = (message_set_processed c m, rw a refl)
  answer_returns c code (takethis_of m) e (inl a) = (message_set_processed c m, rw a refl)
  answer_returns c code (takethis_of m) e (inr a) = (message_set_processed c m, rw a refl)
