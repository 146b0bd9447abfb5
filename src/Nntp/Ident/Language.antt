-- ===== src/Nntp/Ident/Language.antt =====
-- The language that the two patterns of lib/nntp/common.go describe, without a matcher.
use srndv.Base.{
  ℕ, ◌≤◌, ◌≡◌, ◌↔◌, ◌⊎◌, inl, inr, refl, sym, ap, ◌∙◌, Bool, true, false, Option, none, some, [],
  ◌∷◌, ◌++◌, length, all, ◌>>=◌, >>=-eq-some, Bytes, arith, append-nil, List, split, split_free,
  count_byte, count_byte-append, Bool-cases, ◌==◌, subst,
}
use srndv.Nntp.Ident.{
  is_local, is_host, is_group, span, match_class, match_byte, match_end, message_id_line,
  newsgroup_line, some_line, message_id_valid, newsgroup_valid,
}

-- a run of a class within its bounds
pub record IsRun (p : ℕ → Bool) (lo hi : ℕ) (s : Bytes) : Type 0 where
  pub of_class : all p s ≡ true
  pub long_enough : lo ≤ length s
  pub short_enough : length s ≤ hi

-- "<" local "@" host ">"
pub record IsMessageId (s : Bytes) : Type 0 where
  pub local : Bytes
  pub host : Bytes
  pub splits : s ≡ b'<' ∷ (local ++ (b'@' ∷ (host ++ b'>' ∷ [])))
  pub local_run : IsRun is_local 2 128 local
  pub host_run : IsRun is_host 2 63 host

span-splits : (p : ℕ → Bool) (s : Bytes) → s ≡ (span p s).0 ++ (span p s).1
unfolding span
span-splits p [] = refl
span-splits p (c ∷ cs) = ground (arith, span-splits p cs)

all-span : (p : ℕ → Bool) (s : Bytes) → all p (span p s).0 ≡ true
unfolding span
all-span p [] = refl
all-span p (c ∷ cs) = ground (arith, all-span p cs)

span-append :
    (p : ℕ → Bool) (run : Bytes) (c : ℕ) (rest : Bytes)
    → all p run ≡ true
    → p c ≡ false
    → span p (run ++ (c ∷ rest)) ≡ (run, c ∷ rest)
unfolding span
span-append p [] c rest h n = ground arith
span-append p (d ∷ ds) c rest h n = ground (arith, span-append p ds c rest)

span-all : (p : ℕ → Bool) (run : Bytes) → all p run ≡ true → span p run ≡ (run, [])
unfolding span
span-all p [] h = refl
span-all p (c ∷ cs) h = ground (arith, span-all p cs)

match_class-some :
    (p : ℕ → Bool) (lo hi : ℕ) (s : Bytes) {rest : Bytes}
    → match_class p lo hi s ≡ some rest
    → (run : Bytes) × (s ≡ run ++ rest) × IsRun p lo hi run
unfolding match_class
match_class-some p lo hi s e = (
  (span p s).0,
  ground (arith, span-splits p s),
  record { of_class = all-span p s; long_enough = ground arith; short_enough = ground arith },
)

match_class-run :
    (p : ℕ → Bool) (lo hi : ℕ) (run : Bytes) (c : ℕ) (rest : Bytes)
    → IsRun p lo hi run
    → p c ≡ false
    → match_class p lo hi (run ++ (c ∷ rest)) ≡ some (c ∷ rest)
unfolding match_class
match_class-run p lo hi run c rest h n = rw (span-append p run c rest h.of_class n) (ground arith)

match_byte-some : (b : ℕ) (s : Bytes) {rest : Bytes} → match_byte b s ≡ some rest → s ≡ b ∷ rest
unfolding match_byte
match_byte-some b [] e = cc
match_byte-some b (c ∷ cs) e = ground arith

match_end-true : (o : Option Bytes) → match_end o ≡ true → o ≡ some []
unfolding match_end
match_end-true (some []) h = refl
match_end-true (some (c ∷ cs)) h = cc
match_end-true none h = cc

message_id_parts : Bytes → Option Bytes
message_id_parts msgid = do
  a ← match_byte b'<' msgid
  b ← match_class is_local 2 128 a
  c ← match_byte b'@' b
  d ← match_class is_host 2 63 c
  match_byte b'>' d

message_id_parts_sound : (s : Bytes) → message_id_parts s ≡ some [] → IsMessageId s
unfolding message_id_parts
message_id_parts_sound s e =
    let (a, ea, e1) = >>=-eq-some (match_byte b'<' s) _ e in
    let (b, eb, e2) = >>=-eq-some (match_class is_local 2 128 a) _ e1 in
    let (c, ec, e3) = >>=-eq-some (match_byte b'@' b) _ e2 in
    let (d, ed, e4) = >>=-eq-some (match_class is_host 2 63 c) _ e3 in
    let (local, sa, la) = match_class-some is_local 2 128 a eb in
    let (host, sc, lc) = match_class-some is_host 2 63 c ed in
    let fd = match_byte-some b'>' d e4 in
    let fb = match_byte-some b'@' b ec in
    let fs = match_byte-some b'<' s ea in
    record {
      local = local;
      host = host;
      splits =
          fs
          ∙ ap (◌∷◌ b'<')
              (sa ∙ ap (λ x. local ++ x) (fb ∙ ap (◌∷◌ b'@') (sc ∙ ap (λ x. host ++ x) fd)));
      local_run = la;
      host_run = lc;
    }

message_id_parts_complete : (s : Bytes) → IsMessageId s → message_id_parts s ≡ some []
unfolding message_id_parts match_byte
message_id_parts_complete s m =
    let at : is_local b'@' ≡ false = unfold is_local in refl in
    let gt : is_host b'>' ≡ false = unfold is_host in refl in
    rw (
      m.splits,
      match_class-run is_local 2 128 m.local b'@' (m.host ++ b'>' ∷ []) m.local_run at,
      match_class-run is_host 2 63 m.host b'>' [] m.host_run gt,
    )

pub message_id_line_iff : (s : Bytes) → (message_id_line s ≡ true) ↔ IsMessageId s
unfolding message_id_line message_id_parts
message_id_line_iff s = (
  λ h. message_id_parts_sound s (match_end-true (message_id_parts s) h),
  λ m. ap match_end (message_id_parts_complete s m),
)

pub newsgroup_line_iff : (s : Bytes) → (newsgroup_line s ≡ true) ↔ IsRun is_group 1 128 s
unfolding newsgroup_line
newsgroup_line_iff s = (
  λ h.
      let (run, e, r) =
        match_class-some is_group 1 128 s (match_end-true (match_class is_group 1 128 s) h) in
      rw (e, append-nil) r,
  λ r. unfold match_class in rw (span-all is_group s r.of_class) (ground (arith, r)),
)

-- One of the lines satisfies the predicate.
abbrev pub SomeLine : (Bytes → Type 0) → List Bytes → Type 0
SomeLine P [] = ⊥
SomeLine P (line ∷ lines) = P line ⊎ SomeLine P lines

some_line_iff :
    (P : Bytes → Type 0) (matches : Bytes → Bool)
    → ((s : Bytes) → (matches s ≡ true) ↔ P s)
    → (lines : List Bytes) → (some_line matches lines ≡ true) ↔ SomeLine P lines
unfolding some_line
some_line_iff P matches m [] = (λ e. cc e, λ h. absurd h)
some_line_iff P matches m (line ∷ lines) = elim (Bool-cases (matches line)) [
  | inl e ↦ (λ h. inl ((m line).0 e), λ h. rw e refl)
  | inr e ↦ rw e (
    λ h. inr ((some_line_iff P matches m lines).0 h),
    λ h. elim h [ inl p ↦ cc (e, (m line).1 p) | inr r ↦ (some_line_iff P matches m lines).1 r ],
  )
]

-- MessageID.Valid accepts exactly the texts of which a line has the form "<local@host>", with a
-- local part of 2 to 128 letters, digits, dollars and dots, and a host of 2 to 63 letters, digits,
-- dashes and dots. The text of a single line is valid only if it has that form itself.
pub message_id_valid_iff :
    (s : Bytes)
    → ((message_id_valid s ≡ true) ↔ SomeLine IsMessageId (split 10 s))
      × (count_byte 10 s ≡ 0 → (message_id_valid s ≡ true) ↔ IsMessageId s)
unfolding message_id_valid some_line
message_id_valid_iff s =
    let whole = some_line_iff IsMessageId message_id_line message_id_line_iff (split 10 s) in
    (
      whole,
      λ one.
          let parts = split_free 10 s one in
          (
            λ h. elim (subst (SomeLine IsMessageId) parts (whole.0 h)) [
              | inl m ↦ m
              | inr n ↦ absurd n
            ],
            λ m. whole.1 (subst (SomeLine IsMessageId) (sym parts) (inl m)),
          ),
    )

-- Newsgroup.Valid accepts exactly the texts of which a line is 1 to 128 letters, digits and dots.
pub newsgroup_valid_iff :
    (s : Bytes) → (newsgroup_valid s ≡ true) ↔ SomeLine (IsRun is_group 1 128) (split 10 s)
unfolding newsgroup_valid
newsgroup_valid_iff s =
    some_line_iff (IsRun is_group 1 128) newsgroup_line newsgroup_line_iff (split 10 s)

class_no_newline : (p : ℕ → Bool) (s : Bytes) → p 10 ≡ false → all p s ≡ true → count_byte 10 s ≡ 0
unfolding count_byte
class_no_newline p [] h a = refl
class_no_newline p (c ∷ cs) h a = elim (Bool-cases (c == 10)) [
  | inl e ↦ ground arith
  | inr n ↦ ground (arith, class_no_newline p cs h)
]

pub IsMessageId-one_line : (s : Bytes) → IsMessageId s → count_byte 10 s ≡ 0
unfolding count_byte
IsMessageId-one_line s m =
    let sp : is_local 10 ≡ false = unfold is_local in refl in
    let sh : is_host 10 ≡ false = unfold is_host in refl in
    rw m.splits (
      omega (
        arith,
        count_byte-append 10 m.local (b'@' ∷ (m.host ++ b'>' ∷ [])),
        count_byte-append 10 m.host (b'>' ∷ []),
        class_no_newline is_local m.local sp m.local_run.of_class,
        class_no_newline is_host m.host sh m.host_run.of_class,
      ))

pub IsMessageId-valid : (s : Bytes) → IsMessageId s → message_id_valid s ≡ true
IsMessageId-valid s m = ((message_id_valid_iff s).1 (IsMessageId-one_line s m)).1 m

-- An id that is one line of the pattern is valid.
pub message_id_line-valid : (s : Bytes) → message_id_line s ≡ true → message_id_valid s ≡ true
message_id_line-valid s h = IsMessageId-valid s ((message_id_line_iff s).0 h)
