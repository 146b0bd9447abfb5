-- ===== src/Daemon/Pending/Tracked.antt =====
-- The articles in flight on a stream of src/srnd/nntp.go, step by step.
use srndv.Base.{◌≡◌, ◌⊎◌, inl, inr, refl, subst, true, List, [], ◌∷◌, ◌++◌, Bytes, All}
use srndv.Nntp.Ident.{message_id_line}
use srndv.Daemon.{SyncEvent}
use srndv.Daemon.Pending.{assign, delete}
use srndv.Daemon.Pending.Talk.{
  Question, check_of, takethis_of, id_of, Talk, Waits, Checked, Waits-push, Checked-append, Keys,
  Keys-weaken, Keys-assign, Keys-delete,
}

abbrev pub AllValid : List SyncEvent → Type 0
AllValid = All (λ (ev : SyncEvent). message_id_line ev.msgid ≡ true)

abbrev pub AllAsked : List Question → Type 0
AllAsked = All (λ (q : Question). message_id_line (id_of q) ≡ true)

-- The id waits in one of the channels, or for the answer to a CHECK.
abbrev pub InFlight : {W : Type 0} → Talk W → Bytes → Type 0
InFlight t k = Waits k t.conn.check ⊎ (Checked k t.questions ⊎ Waits k t.conn.takethis)

-- Every pending article is in flight, and every id in flight is valid.
pub record IsTracked {W : Type 0} (t : Talk W) : Type 0 where
  pub covers : Keys (InFlight t) t.conn.pending
  pub valid_checks : AllValid t.conn.check
  pub valid_questions : AllAsked t.questions
  pub valid_takethis : AllValid t.conn.takethis

All-snoc : {A : Type 0} (P : A → Type 0) (xs ys : List A) → All P xs → All P ys → All P (xs ++ ys)
All-snoc P [] ys h p = p
All-snoc P (x ∷ xs) ys h p = (h.0, All-snoc P xs ys h.1 p)

pop_Waits :
    (k : Bytes) (ev : SyncEvent) (evs all : List SyncEvent)
    → all ≡ ev ∷ evs
    → Waits k all
    → (ev.msgid ≡ k) ⊎ Waits k evs
pop_Waits k ev evs all e w = subst (Waits k) e w

pop_Checked :
    (k : Bytes) (q : Question) (qs all : List Question)
    → all ≡ q ∷ qs
    → Checked k all
    → (id_of q ≡ k) ⊎ Checked k qs
pop_Checked k (check_of m) qs all e w = subst (Checked k) e w
pop_Checked k (takethis_of m) qs all e w = inr (subst (Checked k) e w)

module _ {W : Type 0} where
  -- the id stays in flight, or it is the one that is dealt with
  abbrev pub Moved : Bytes → Talk W → Talk W → Type 0
  Moved msgid t u = (k : Bytes) → InFlight t k → (msgid ≡ k) ⊎ InFlight u k

  -- An article is settled: its entry goes.
  settled-covers :
      (t u : Talk W) (msgid : Bytes)
      → Moved msgid t u
      → u.conn.pending ≡ delete msgid t.conn.pending
      → Keys (InFlight t) t.conn.pending
      → Keys (InFlight u) u.conn.pending
  settled-covers t u msgid f p h =
      rw p (Keys-delete (InFlight t) (InFlight u) msgid t.conn.pending f h)

  -- The entry of an article is set, and the article is in flight thereafter.
  assigned-covers :
      (t u : Talk W) (msgid : Bytes) (ev : SyncEvent)
      → InFlight u msgid
      → Moved msgid t u
      → u.conn.pending ≡ assign msgid ev t.conn.pending
      → Keys (InFlight t) t.conn.pending
      → Keys (InFlight u) u.conn.pending
  assigned-covers t u msgid ev i f p h =
      let stays : (k : Bytes) → InFlight t k → InFlight u k =
        λ k w. elim (f k w) [ inl e ↦ subst (InFlight u) e i | inr w' ↦ w' ] in
      rw p (
        Keys-assign (InFlight u) msgid ev t.conn.pending i
          (Keys-weaken (InFlight t) (InFlight u) t.conn.pending stays h))

  pub check-IsTracked :
      (t u : Talk W) (ev : SyncEvent) (evs : List SyncEvent) (ev' : SyncEvent)
      → t.conn.check ≡ ev ∷ evs
      → u.conn.check ≡ evs
      → u.conn.takethis ≡ t.conn.takethis
      → u.questions ≡ t.questions ++ check_of ev.msgid ∷ []
      → u.conn.pending ≡ assign ev.msgid ev' t.conn.pending
      → IsTracked t
      → IsTracked u
  check-IsTracked t u ev evs ev' e k ta q p h =
      let v = subst AllValid e h.valid_checks in
      record {
        covers =
            assigned-covers t u ev.msgid ev'
              (rw q (inr (inl (Checked-append ev.msgid t.questions _ (inr (inl refl)))))) moved p
              h.covers;
        valid_checks = rw k v.1;
        valid_questions =
            rw q (All-snoc _ t.questions (check_of ev.msgid ∷ []) h.valid_questions (v.0, tt));
        valid_takethis = rw ta h.valid_takethis;
      }
    where
      moved : Moved ev.msgid t u
      moved m (inl w) = elim (pop_Waits m ev evs t.conn.check e w) [
        | inl s ↦ inl s
        | inr w' ↦ inr (rw k (inl w'))
      ]
      moved m (inr (inl w)) = inr (rw q (inr (inl (Checked-append m t.questions _ (inl w)))))
      moved m (inr (inr w)) = inr (rw ta (inr (inr w)))

  pub takethis-IsTracked :
      (t u : Talk W) (ev : SyncEvent) (evs : List SyncEvent) (ev' : SyncEvent) (qs : List Question)
      → t.conn.takethis ≡ ev ∷ evs
      → u.conn.check ≡ t.conn.check
      → u.conn.takethis ≡ evs
      → u.questions ≡ t.questions ++ qs
      → AllAsked qs
      → u.conn.pending ≡ delete ev.msgid (assign ev.msgid ev' t.conn.pending)
      → IsTracked t
      → IsTracked u
  takethis-IsTracked t u ev evs ev' qs e k ta q v p h = record {
    covers = rw p (
        Keys-delete (λ m. (ev.msgid ≡ m) ⊎ InFlight u m) (InFlight u) ev.msgid _ (λ m w. w)
          (Keys-assign (λ m. (ev.msgid ≡ m) ⊎ InFlight u m) ev.msgid ev' t.conn.pending (inl refl)
            (Keys-weaken (InFlight t) _ t.conn.pending moved h.covers)));
    valid_checks = rw k h.valid_checks;
    valid_questions = rw q (All-snoc _ t.questions qs h.valid_questions v);
    valid_takethis = rw ta (subst AllValid e h.valid_takethis).1;
  }
    where
      moved : Moved ev.msgid t u
      moved m (inl w) = inr (rw k (inl w))
      moved m (inr (inl w)) = inr (rw q (inr (inl (Checked-append m t.questions qs (inl w)))))
      moved m (inr (inr w)) = elim (pop_Waits m ev evs t.conn.takethis e w) [
        | inl s ↦ inl s
        | inr w' ↦ inr (rw ta (inr (inr w')))
      ]

  answer-Moved :
      (t u : Talk W) (q : Question) (qs : List Question)
      → t.questions ≡ q ∷ qs
      → u.conn.check ≡ t.conn.check
      → ((m : Bytes) → Waits m t.conn.takethis → Waits m u.conn.takethis)
      → u.questions ≡ qs
      → Moved (id_of q) t u
  answer-Moved t u q qs e k ta s m (inl w) = inr (rw k (inl w))
  answer-Moved t u q qs e k ta s m (inr (inl w)) = elim (pop_Checked m q qs t.questions e w) [
    | inl r ↦ inl r
    | inr w' ↦ inr (rw s (inr (inl w')))
  ]
  answer-Moved t u q qs e k ta s m (inr (inr w)) = inr (inr (inr (ta m w)))

  -- the peer does not want the article, or has got it
  pub processed-IsTracked :
      (t u : Talk W) (q : Question) (qs : List Question)
      → t.questions ≡ q ∷ qs
      → u.conn.check ≡ t.conn.check
      → u.conn.takethis ≡ t.conn.takethis
      → u.questions ≡ qs
      → u.conn.pending ≡ delete (id_of q) t.conn.pending
      → IsTracked t
      → IsTracked u
  processed-IsTracked t u q qs e k ta s p h = record {
    covers = settled-covers t u (id_of q) (answer-Moved t u q qs e k (λ m w. rw ta w) s) p h.covers;
    valid_checks = rw k h.valid_checks;
    valid_questions = rw s (subst AllAsked e h.valid_questions).1;
    valid_takethis = rw ta h.valid_takethis;
  }

  -- the peer wants the article
  pub wanted-IsTracked :
      (t u : Talk W) (msgid : Bytes) (qs : List Question) (ev ev' : SyncEvent)
      → t.questions ≡ check_of msgid ∷ qs
      → u.conn.check ≡ t.conn.check
      → u.conn.takethis ≡ t.conn.takethis ++ ev ∷ []
      → ev.msgid ≡ msgid
      → u.questions ≡ qs
      → u.conn.pending ≡ assign msgid ev' t.conn.pending
      → IsTracked t
      → IsTracked u
  wanted-IsTracked t u msgid qs ev ev' e k ta n s p h =
      let v = subst AllAsked e h.valid_questions in
      record {
        covers =
            assigned-covers t u msgid ev'
              (inr (inr (rw ta (Waits-push msgid ev t.conn.takethis (inr n)))))
              (answer-Moved t u (check_of msgid) qs e k
                (λ m w. rw ta (Waits-push m ev t.conn.takethis (inl w))) s)
              p h.covers;
        valid_checks = rw k h.valid_checks;
        valid_questions = rw s v.1;
        valid_takethis =
            rw ta (All-snoc _ t.conn.takethis (ev ∷ []) h.valid_takethis (rw n (v.0, tt)));
      }

  -- a further article
  pub offered-IsTracked :
      (t u : Talk W) (ev ev' : SyncEvent)
      → message_id_line ev.msgid ≡ true
      → u.conn.check ≡ t.conn.check ++ ev ∷ []
      → u.conn.takethis ≡ t.conn.takethis
      → u.questions ≡ t.questions
      → u.conn.pending ≡ assign ev.msgid ev' t.conn.pending
      → IsTracked t
      → IsTracked u
  offered-IsTracked t u ev ev' v k ta q p h = record {
    covers =
        assigned-covers t u ev.msgid ev'
          (inl (rw k (Waits-push ev.msgid ev t.conn.check (inr refl)))) moved p h.covers;
    valid_checks = rw k (All-snoc _ t.conn.check (ev ∷ []) h.valid_checks (v, tt));
    valid_questions = rw q h.valid_questions;
    valid_takethis = rw ta h.valid_takethis;
  }
    where
      moved : Moved ev.msgid t u
      moved m (inl w) = inr (inl (rw k (Waits-push m ev t.conn.check (inl w))))
      moved m (inr (inl w)) = inr (rw q (inr (inl w)))
      moved m (inr (inr w)) = inr (rw ta (inr (inr w)))
