-- ===== src/Daemon/Pending/Talk.antt =====
-- The stream of src/srnd/nntp.go and a peer that answers its lines in their order: what either of
-- the two can do next, and the articles that somebody still has to say something about.
use srndv.Base.{
  ℕ, ◌+◌, ◌*◌, ◌≡◌, ◌⊎◌, inl, inr, refl, sym, ◌∙◌, true, false, Option, none, List, [], ◌∷◌, ◌++◌,
  Bytes, same, same_iff, arith, All, Bool-cases, Option-cases, length,
}
use srndv.Inbound.{Error, Answer, answer, failed}
use srndv.Nntp.Ident.{message_id_line}
use srndv.Daemon.{sub64, SyncEvent, NntpDaemon, NntpConnection, panics, returns}
use srndv.Daemon.Pending.{
  Pending, find, assign, delete, offer_stream, streaming_check, streaming_takethis, stream_answer,
  message_set_processed,
}

-- a line that the peer has not answered yet
pub data Question : Type 0 where
  check_of : Bytes → Question
  takethis_of : Bytes → Question

abbrev pub id_of : Question → Bytes
id_of (check_of msgid) = msgid
id_of (takethis_of msgid) = msgid

-- the codes by which a peer answers the line
abbrev pub IsAnswer : ℕ → Question → Type 0
IsAnswer code (check_of msgid) = (code ≡ 238) ⊎ ((code ≡ 431) ⊎ (code ≡ 438))
IsAnswer code (takethis_of msgid) = (code ≡ 239) ⊎ (code ≡ 439)

pub record Talk (W : Type 0) : Type 0 where
  pub conn : NntpConnection W
  pub questions : List Question

abbrev pub weight : List Question → ℕ
weight [] = 0
weight (check_of _ ∷ qs) = 3 + weight qs
weight (takethis_of _ ∷ qs) = 1 + weight qs

-- what is left to be said: a waiting CHECK is worth four lines, its answer three of them, a waiting
-- TAKETHIS two and its answer one
abbrev pub measure : {W : Type 0} → Talk W → ℕ
measure t = 4 * length t.conn.check + (weight t.questions + 2 * length t.conn.takethis)

module _ {W : Type 0} (daemon : NntpDaemon W) (peer : Talk W → ℕ) where
  -- TAKETHIS is only sent where the article can be opened
  abbrev pub takethis_question : Bytes → Answer Bytes → List Question
  takethis_question msgid (answer text) = takethis_of msgid ∷ []
  takethis_question msgid (failed e) = []

  -- One step without a new article: a line is sent, or the peer answers the oldest line.
  pub data Progress (t t' : Talk W) : Type 0 where
    checked :
        (ev : SyncEvent) (evs : List SyncEvent) (c : NntpConnection W) (e : Option Error)
        → t.conn.check ≡ ev ∷ evs
        → streaming_check daemon t.conn ≡ returns c e
        → t' ≡ record { conn = c; questions = t.questions ++ check_of ev.msgid ∷ [] }
        → Progress t t'
    taken :
        (ev : SyncEvent) (evs : List SyncEvent) (c : NntpConnection W) (e : Option Error)
        → t.conn.takethis ≡ ev ∷ evs
        → streaming_takethis daemon t.conn ≡ returns c e
        → t' ≡ record {
          conn = c;
          questions =
              t.questions
              ++ takethis_question ev.msgid (daemon.store.open_message t.conn.world ev.msgid);
        }
        → Progress t t'
    answered :
        (q : Question) (qs : List Question) (c : NntpConnection W) (e : Option Error)
        → t.questions ≡ q ∷ qs
        → stream_answer daemon (peer t) (id_of q) t.conn panics ≡ returns c e
        → t' ≡ record { conn = c; questions = qs }
        → Progress t t'

  pub data Progresses (t : Talk W) : ℕ → Talk W → Type 0 where
    finished : Progresses t 0 t
    and_then : {n : ℕ} {u v : Talk W} → Progresses t n u → Progress u v → Progresses t (n + 1) v

  -- A step of any kind: the daemon may offer a further article.
  pub data TalkStep (t t' : Talk W) : Type 0 where
    offered :
        (msgid : Bytes) (sz : ℕ) (c : NntpConnection W) (e : Option Error)
        → message_id_line msgid ≡ true
        → offer_stream t.conn msgid sz ≡ returns c e
        → t' ≡ record { conn = c; questions = t.questions }
        → TalkStep t t'
    progressed : Progress t t' → TalkStep t t'

  pub data Talked (t : Talk W) : Talk W → Type 0 where
    start : Talked t t
    next : {u v : Talk W} → Talked t u → TalkStep u v → Talked t v

-- The id is that of an event, or of a CHECK without an answer.
abbrev pub Waits : Bytes → List SyncEvent → Type 0
Waits k [] = ⊥
Waits k (ev ∷ evs) = (ev.msgid ≡ k) ⊎ Waits k evs

abbrev pub Checked : Bytes → List Question → Type 0
Checked k [] = ⊥
Checked k (check_of msgid ∷ qs) = (msgid ≡ k) ⊎ Checked k qs
Checked k (takethis_of msgid ∷ qs) = Checked k qs

pub Waits-push :
    (k : Bytes) (ev : SyncEvent) (evs : List SyncEvent)
    → Waits k evs ⊎ (ev.msgid ≡ k)
    → Waits k (evs ++ ev ∷ [])
Waits-push k ev [] (inl w) = absurd w
Waits-push k ev [] (inr e) = inl e
Waits-push k ev (x ∷ evs) (inl (inl e)) = inl e
Waits-push k ev (x ∷ evs) (inl (inr w)) = inr (Waits-push k ev evs (inl w))
Waits-push k ev (x ∷ evs) (inr e) = inr (Waits-push k ev evs (inr e))

pub Checked-append :
    (k : Bytes) (qs more : List Question) → Checked k qs ⊎ Checked k more → Checked k (qs ++ more)
Checked-append k [] more (inl w) = absurd w
Checked-append k [] more (inr w) = w
Checked-append k (check_of m ∷ qs) more (inl (inl e)) = inl e
Checked-append k (check_of m ∷ qs) more (inl (inr w)) = inr (Checked-append k qs more (inl w))
Checked-append k (check_of m ∷ qs) more (inr w) = inr (Checked-append k qs more (inr w))
Checked-append k (takethis_of m ∷ qs) more w = Checked-append k qs more w

pub weight-append : (qs more : List Question) → weight (qs ++ more) ≡ weight qs + weight more
weight-append [] more = omega arith
weight-append (check_of m ∷ qs) more = omega (arith, weight-append qs more)
weight-append (takethis_of m ∷ qs) more = omega (arith, weight-append qs more)

-- The predicate holds of every key.
abbrev pub Keys : (Bytes → Type 0) → Pending → Type 0
Keys P = All (λ (e : Bytes × SyncEvent). P e.0)

pub Keys-weaken :
    (P Q : Bytes → Type 0) (m : Pending) → ((k : Bytes) → P k → Q k) → Keys P m → Keys Q m
Keys-weaken P Q [] f h = tt
Keys-weaken P Q ((k, ev) ∷ m) f h = (f k h.0, Keys-weaken P Q m f h.1)

pub Keys-assign :
    (P : Bytes → Type 0) (msgid : Bytes) (ev : SyncEvent) (m : Pending)
    → P msgid
    → Keys P m
    → Keys P (assign msgid ev m)
unfolding assign
Keys-assign P msgid ev [] p h = (p, tt)
Keys-assign P msgid ev ((k, old) ∷ m) p h = elim (Bool-cases (same k msgid)) [
  | inl e ↦ rw e h
  | inr e ↦ rw e (h.0, Keys-assign P msgid ev m p h.1)
]

true_not_false : true ≡ false → ⊥
true_not_false e = cc e

pub Keys-delete :
    (P Q : Bytes → Type 0) (msgid : Bytes) (m : Pending)
    → ((k : Bytes) → P k → (msgid ≡ k) ⊎ Q k)
    → Keys P m
    → Keys Q (delete msgid m)
unfolding delete
Keys-delete P Q msgid [] f h = tt
Keys-delete P Q msgid ((k, old) ∷ m) f h = elim (Bool-cases (same k msgid)) [
  | inl e ↦ rw e (Keys-delete P Q msgid m f h.1)
  | inr e ↦ rw e (
    elim (f k h.0) [
      | inl s ↦ absurd (true_not_false (sym ((same_iff k msgid).1 (sym s)) ∙ e))
      | inr q ↦ q
    ],
    Keys-delete P Q msgid m f h.1,
  )
]

delete_missing : (msgid : Bytes) (m : Pending) → find msgid m ≡ none → delete msgid m ≡ m
unfolding find delete
delete_missing msgid [] h = refl
delete_missing msgid ((k, old) ∷ m) h = elim (Bool-cases (same k msgid)) [
  | inl e ↦ ground arith
  | inr e ↦ ground (arith, delete_missing msgid m)
]

-- messageSetProcessed takes the key out of the map, and changes nothing else but the backlog.
pub processed_lem :
    {W : Type 0} (c : NntpConnection W) (msgid : Bytes)
    → (b : ℕ) × (message_set_processed c msgid
        ≡ record c { backlog = b; pending = delete msgid c.pending })
unfolding message_set_processed
processed_lem c msgid = elim (Option-cases (find msgid c.pending)) [
  | inl e ↦ (c.backlog, rw (e, delete_missing msgid c.pending e, message_set_processed) refl)
  | inr (ev, e) ↦ (sub64 c.backlog ev.sz, rw (e, message_set_processed) refl)
]
