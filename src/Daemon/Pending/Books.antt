-- ===== src/Daemon/Pending/Books.antt =====
-- The map `pending` of src/srnd/nntp.go: its sizes added up, and its keys.
use srndv.Base.{
  ℕ, ◌+◌, ◌≡◌, false, Option, none, some, [], ◌∷◌, inl, inr, Bytes, same, same_iff, arith, All,
  if◌then◌else◌, Bool-cases, refl, ap, subst, ◌∙◌,
}
use srndv.Daemon.{SyncEvent}
use srndv.Daemon.Pending.{Pending, find, assign, delete, with_state}

-- the bytes of all entries
abbrev pub total : Pending → ℕ
total [] = 0
total ((k, ev) ∷ m) = ev.sz + total m

abbrev pub IsAbsent : Bytes → Pending → Type 0
IsAbsent msgid = All (λ (e : Bytes × SyncEvent). same e.0 msgid ≡ false)

-- No two entries have one key.
abbrev pub IsMap : Pending → Type 0
IsMap [] = Unit
IsMap ((k, ev) ∷ m) = IsAbsent k m × IsMap m

IsAbsent-assign :
    (k msgid : Bytes) (ev : SyncEvent) (m : Pending)
    → same msgid k ≡ false
    → IsAbsent k m
    → IsAbsent k (assign msgid ev m)
unfolding assign
IsAbsent-assign k msgid ev [] h a = (h, tt)
IsAbsent-assign k msgid ev ((k', old) ∷ m) h a = elim (Bool-cases (same k' msgid)) [
  | inl e ↦ rw e (a.0, a.1)
  | inr e ↦ rw e (a.0, IsAbsent-assign k msgid ev m h a.1)
]

same_sym : (a b : Bytes) → same a b ≡ same b a
unfolding same
same_sym [] [] = refl
same_sym [] (y ∷ b) = refl
same_sym (x ∷ a) [] = refl
same_sym (x ∷ a) (y ∷ b) = ground (arith, same_sym a b)

pub IsMap-assign :
    (msgid : Bytes) (ev : SyncEvent) (m : Pending) → IsMap m → IsMap (assign msgid ev m)
unfolding assign
IsMap-assign msgid ev [] h = (tt, tt)
IsMap-assign msgid ev ((k, old) ∷ m) h = elim (Bool-cases (same k msgid)) [
  | inl e ↦ rw e h
  | inr e ↦
      rw e (IsAbsent-assign k msgid ev m (same_sym msgid k ∙ e) h.0, IsMap-assign msgid ev m h.1)
]

IsAbsent-delete : (k msgid : Bytes) (m : Pending) → IsAbsent k m → IsAbsent k (delete msgid m)
unfolding delete
IsAbsent-delete k msgid [] a = tt
IsAbsent-delete k msgid ((k', old) ∷ m) a = elim (Bool-cases (same k' msgid)) [
  | inl e ↦ rw e (IsAbsent-delete k msgid m a.1)
  | inr e ↦ rw e (a.0, IsAbsent-delete k msgid m a.1)
]

pub IsMap-delete : (msgid : Bytes) (m : Pending) → IsMap m → IsMap (delete msgid m)
unfolding delete
IsMap-delete msgid [] h = tt
IsMap-delete msgid ((k, old) ∷ m) h = elim (Bool-cases (same k msgid)) [
  | inl e ↦ rw e (IsMap-delete msgid m h.1)
  | inr e ↦ rw e (IsAbsent-delete k msgid m h.0, IsMap-delete msgid m h.1)
]

delete_absent : (msgid : Bytes) (m : Pending) → IsAbsent msgid m → delete msgid m ≡ m
unfolding delete
delete_absent msgid [] a = refl
delete_absent msgid ((k, old) ∷ m) a = rw a.0 (ap (◌∷◌ (k, old)) (delete_absent msgid m a.1))

abbrev sz_of : Option SyncEvent → ℕ
sz_of none = 0
sz_of (some ev) = ev.sz

-- An entry that is taken out takes its bytes with it.
pub total-delete :
    (msgid : Bytes) (ev : SyncEvent) (m : Pending)
    → IsMap m
    → find msgid m ≡ some ev
    → total (delete msgid m) + ev.sz ≡ total m
unfolding find delete
total-delete msgid ev [] h f = cc
total-delete msgid ev ((k, old) ∷ m) h f = elim (Bool-cases (same k msgid)) [
  | inl e ↦
      let ek = (same_iff k msgid).0 e in
      let gone = delete_absent msgid m (subst (λ x. IsAbsent x m) ek h.0) in
      let eo = ap sz_of (subst (λ b. (if b then some old else find msgid m) ≡ some ev) e f) in
      rw (e, gone) (omega (arith, eo))
  | inr e ↦
      let f' = subst (λ b. (if b then some old else find msgid m) ≡ some ev) e f in
      rw e (omega (arith, total-delete msgid ev m h.1 f'))
]

abbrev pub added : Option SyncEvent → ℕ → ℕ
added none sz = sz
added (some _) sz = 0

total-assign_any :
    (msgid : Bytes) (ev : SyncEvent) (m : Pending)
    → total (assign msgid ev m) + sz_of (find msgid m) ≡ total m + ev.sz
unfolding find assign
total-assign_any msgid ev [] = omega arith
total-assign_any msgid ev ((k, old) ∷ m) = elim (Bool-cases (same k msgid)) [
  | inl e ↦ rw e (omega arith)
  | inr e ↦ rw e (omega (arith, total-assign_any msgid ev m))
]

added_lem :
    (o : Option SyncEvent) (msgid state : Bytes) (sz : ℕ)
    → (with_state o msgid state sz).sz ≡ sz_of o + added o sz
added_lem none msgid state sz = omega arith
added_lem (some ev) msgid state sz = omega arith

-- A new state leaves the bytes of an entry as they are; a new entry adds its own.
pub total-assign :
    (msgid state : Bytes) (sz : ℕ) (m : Pending)
    → total (assign msgid (with_state (find msgid m) msgid state sz) m)
      ≡ total m + added (find msgid m) sz
total-assign msgid state sz m = omega (
  arith,
  total-assign_any msgid (with_state (find msgid m) msgid state sz) m,
  added_lem (find msgid m) msgid state sz,
)
