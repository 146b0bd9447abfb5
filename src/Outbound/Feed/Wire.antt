-- ===== src/Outbound/Feed/Wire.antt =====
-- What a peer reads of an article that StreamAndQuit sends.
use srndv.Base.{
  ℕ, ◌≡◌, inl, inr, refl, sym, ap, ◌∙◌, Bool, false, List, [], ◌∷◌, ◌++◌, ◌==◌, map, All, Bytes,
  same, count_byte, arith, append_assoc, append-nil, Bool-cases,
}
use srndv.Nntp.Stream.{stream_takethis}
use srndv.Inbound.{Env, Conn, dot, dot_read, unstuff, prepend_line}
use srndv.Inbound.Commands.{reply}
use srndv.Inbound.Commands.Transfer.{IsWritable, after, printf_line-after}
use srndv.Outbound.{readline, take_line}
use srndv.Outbound.Feed.{
  trim, trim_front, trim_end, or_cut, read_strings, prepend_byte, bare_line, send_article, takethis,
  transfer_sent, transfer_reply,
}

-- the bytes of lines, each ended by a newline
abbrev pub unlines : List Bytes → Bytes
unlines [] = []
unlines (l ∷ ls) = l ++ (10 ∷ unlines ls)

abbrev starts_with : ℕ → Bytes → Bool
starts_with b [] = false
starts_with b (c ∷ cs) = c == b

-- a line of an article: no newline or carriage return, no percent sign
pub record IsText (l : Bytes) : Type 0 where
  pub no_newline : count_byte 10 l ≡ 0
  pub no_return : count_byte 13 l ≡ 0
  pub no_percent : count_byte b'%' l ≡ 0

-- and no dot in front
pub record IsPlain (l : Bytes) : Type 0 where
  pub is_text : IsText l
  pub no_dot : starts_with b'.' l ≡ false

read_strings-line :
    (l rest : Bytes)
    → count_byte 10 l ≡ 0
    → read_strings (l ++ (10 ∷ rest)) ≡ (l ++ 10 ∷ []) ∷ read_strings rest
unfolding read_strings count_byte
read_strings-line [] rest h = refl
read_strings-line (c ∷ cs) rest h = elim (Bool-cases (c == 10)) [
  | inl e ↦ absurd (ground arith)
  | inr e ↦ rw e (ap (prepend_byte c) (read_strings-line cs rest (ground arith)))
]

read_strings-unlines :
    (ls : List Bytes) → All IsText ls → read_strings (unlines ls) ≡ map (λ l. l ++ 10 ∷ []) ls
unfolding read_strings
read_strings-unlines [] h = refl
read_strings-unlines (l ∷ ls) h =
    read_strings-line l (unlines ls) h.0.no_newline
    ∙ ap (◌∷◌ (l ++ 10 ∷ [])) (read_strings-unlines ls h.1)

trim_front_free : (b : ℕ) (l : Bytes) → starts_with b l ≡ false → trim_front b l ≡ l
unfolding trim_front
trim_front_free b [] h = refl
trim_front_free b (c ∷ cs) h = rw h

or_cut-snoc : (b c d : ℕ) (l : Bytes) → or_cut b c (l ++ d ∷ []) ≡ c ∷ (l ++ d ∷ [])
or_cut-snoc b c d [] = refl
or_cut-snoc b c d (x ∷ l) = refl

trim_end_snoc : (b d : ℕ) (l : Bytes) → (d == b) ≡ false → trim_end b (l ++ d ∷ []) ≡ l ++ d ∷ []
unfolding trim_end
trim_end_snoc b d [] h = rw h
trim_end_snoc b d (c ∷ cs) h = ap (or_cut b c) (trim_end_snoc b d cs h) ∙ or_cut-snoc b c d cs

trim_end_newline : (l : Bytes) → count_byte 10 l ≡ 0 → trim_end 10 (l ++ 10 ∷ []) ≡ l
unfolding trim_end count_byte
trim_end_newline [] h = refl
trim_end_newline (c ∷ []) h = ground arith
trim_end_newline (c ∷ (d ∷ ds)) h = ap (or_cut 10 c) (trim_end_newline (d ∷ ds) (ground arith))

starts_free :
    (b d : ℕ) (l : Bytes)
    → count_byte b l ≡ 0
    → (d == b) ≡ false
    → starts_with b (l ++ d ∷ []) ≡ false
unfolding count_byte
starts_free b d [] h e = e
starts_free b d (c ∷ cs) h e = ground arith

trim_newline : (l : Bytes) → count_byte 10 l ≡ 0 → trim 10 (l ++ 10 ∷ []) ≡ l
unfolding trim trim_front trim_end count_byte
trim_newline [] h = refl
trim_newline (c ∷ cs) h =
    ap (trim_end 10) (trim_front_free 10 (c ∷ (cs ++ 10 ∷ [])) (ground arith))
    ∙ trim_end_newline (c ∷ cs) h

bare_line-text : (l : Bytes) → IsText l → bare_line (l ++ 10 ∷ []) ≡ l
unfolding bare_line trim
bare_line-text l h =
    ap (trim 10) (
      ap (trim_end 13) (trim_front_free 13 (l ++ 10 ∷ []) (starts_free 13 10 l h.no_return refl))
      ∙ trim_end_snoc 13 10 l refl)
    ∙ trim_newline l h.no_newline

-- the connection after lines that the socket took
abbrev pub after_all : {S : Type 0} → Conn S → List Bytes → Conn S
after_all c [] = c
after_all c (l ∷ ls) = after_all (after c l) ls

sent-after_all : {S : Type 0} (c : Conn S) (ls : List Bytes) → (after_all c ls).sent ≡ c.sent ++ ls
sent-after_all c [] = sym (append-nil c.sent)
sent-after_all c (l ∷ ls) = sent-after_all (after c l) ls ∙ append_assoc c.sent (l ∷ []) ls

dot_read-plain :
    (ls rest : List Bytes) → All IsPlain ls → dot_read (ls ++ dot ∷ rest) ≡ (unlines ls, rest)
unfolding dot_read unstuff same
dot_read-plain [] rest h = refl
dot_read-plain ([] ∷ ls) rest h = ap (prepend_line []) (dot_read-plain ls rest h.1)
dot_read-plain ((c ∷ l) ∷ ls) rest h = rw h.0.no_dot (rw (dot_read-plain ls rest h.1) refl)

IsText-of_plain : (ls : List Bytes) → All IsPlain ls → All IsText ls
IsText-of_plain [] h = tt
IsText-of_plain (l ∷ ls) h = (h.0.is_text, IsText-of_plain ls h.1)

pub All-append {ℓ} :
    {A : Type ℓ} (P : A → Type 0) (xs ys : List A) → All P xs → All P ys → All P (xs ++ ys)
All-append P [] ys p q = q
All-append P (x ∷ xs) ys p q = (p.0, All-append P xs ys p.1 q)

dot-IsText : IsText dot
unfolding count_byte
dot-IsText = record { no_newline = refl; no_return = refl; no_percent = refl }

module _ {S : Type 0} (env : Env S) (format : Bytes → Bytes)
    (formats : (l : Bytes) → count_byte b'%' l ≡ 0 → format l ≡ l) where
  send_article-after :
      (ls : List Bytes) (c : Conn S)
      → IsWritable env c
      → All IsText ls
      → send_article env format (map (λ l. l ++ 10 ∷ []) ls) c ≡ after_all c ls
  unfolding send_article
  send_article-after [] c w h = refl
  send_article-after (l ∷ ls) c w h = rw (bare_line-text l h.0) (
      rw (formats l h.0.no_percent) (
        rw (printf_line-after env c l w)
          (send_article-after ls (after c l) (record { opened = w.opened; takes = w.takes }) h.1)))

  sent-transfer_reply :
      (msgid : Bytes) (delivered : List Bytes) (c : Conn S) (lines : List Bytes)
      → (transfer_reply env format msgid delivered (take_line c lines)).conn.sent ≡ c.sent
  unfolding transfer_reply
  sent-transfer_reply msgid delivered c [] = refl
  sent-transfer_reply msgid delivered c (l ∷ ls) = refl

  after_all-IsWritable :
      (c : Conn S) (ls : List Bytes) → IsWritable env c → IsWritable env (after_all c ls)
  after_all-IsWritable c [] w = w
  after_all-IsWritable c (l ∷ ls) w =
      after_all-IsWritable (after c l) ls (record { opened = w.opened; takes = w.takes })

  sent-takethis :
      (c : Conn S) (msgid : Bytes) (delivered ls : List Bytes)
      → IsWritable env c
      → All IsText ls
      → (takethis env format msgid delivered (unlines ls) c).conn.sent
        ≡ c.sent ++ (reply stream_takethis msgid ∷ (ls ++ dot ∷ []))
  unfolding takethis transfer_sent readline
  sent-takethis c msgid delivered ls w h =
      let first : Conn S = after c (reply stream_takethis msgid) in
      let w' : IsWritable env first = record { opened = w.opened; takes = w.takes } in
      rw (printf_line-after env c (reply stream_takethis msgid) w) (
        rw (read_strings-unlines ls h) (
          rw (send_article-after ls first w' h) (
            rw (printf_line-after env (after_all first ls) dot (after_all-IsWritable first ls w')) (
              sent-transfer_reply msgid delivered (after (after_all first ls) dot)
                (after_all first ls).input
              ∙ ap (λ s. s ++ dot ∷ []) (sent-after_all first ls)
              ∙ simp append_assoc))))

  -- An article that is sent by TAKETHIS over a socket that takes every line, all of whose lines
  -- end in a newline, hold no carriage return or percent sign, and do not begin with a dot: behind
  -- the TAKETHIS line the peer reads the bytes of the article and no more, whatever is sent next.
  pub article_survives :
      (c : Conn S) (msgid : Bytes) (delivered ls : List Bytes)
      → IsWritable env c
      → All IsPlain ls
      → (more : List Bytes) × ((takethis env format msgid delivered (unlines ls) c).conn.sent
          ≡ c.sent ++ (reply stream_takethis msgid ∷ more))
        × ((rest : List Bytes) → dot_read (more ++ rest) ≡ (unlines ls, rest))
  article_survives c msgid delivered ls w h = (
    ls ++ dot ∷ [],
    sent-takethis c msgid delivered ls w (IsText-of_plain ls h),
    λ rest. ap dot_read (append_assoc ls (dot ∷ []) rest) ∙ dot_read-plain ls rest h,
  )

  -- Dots are not stuffed: of an article that has a line of one dot, sent by TAKETHIS over a socket
  -- that takes every line, the peer reads the lines before that dot as the article, and the lines
  -- behind it as commands. (The lines hold no carriage return or percent sign; those before the
  -- dot do not begin with a dot.)
  pub dot_line_ends_article :
      (c : Conn S) (msgid : Bytes) (delivered pre post : List Bytes)
      → IsWritable env c
      → All IsPlain pre
      → All IsText post
      → (more : List Bytes) × ((takethis env format msgid delivered
            (unlines (pre ++ dot ∷ post))
            c).conn.sent
          ≡ c.sent ++ (reply stream_takethis msgid ∷ more))
        × ((rest : List Bytes) → dot_read (more ++ rest) ≡ (unlines pre, post ++ dot ∷ rest))
  dot_line_ends_article c msgid delivered pre post w h k = (
    (pre ++ dot ∷ post) ++ dot ∷ [],
    sent-takethis c msgid delivered (pre ++ dot ∷ post) w
        (All-append IsText pre (dot ∷ post) (IsText-of_plain pre h) (dot-IsText, k)),
    λ rest.
        ap dot_read (
          append_assoc (pre ++ dot ∷ post) (dot ∷ []) rest
          ∙ append_assoc pre (dot ∷ post) (dot ∷ rest))
        ∙ dot_read-plain pre (post ++ dot ∷ rest) h,
  )
