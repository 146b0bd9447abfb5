-- ===== src/Markup/Escaped.antt =====
-- What a post turns into by the markup of src/srnd/markup.go.
use srndv.Base.{
  ℕ, ◌≡◌, ◌⊎◌, inl, inr, Bool, true, false, not, ◌&&◌, ◌||◌, Option, none, some, List, [], ◌∷◌,
  ◌++◌, ◌==◌, length, drop, Bytes, codes, same, has_prefix, split, split_head, arith, All,
  Bool-cases, Holds,
}
use srndv.Outbound.Feed.{trim, trim_front, trim_end, or_cut}
use srndv.Markup.{
  escape_byte, escapeline, is_board, is_hex, run_of, skip_space, some_run, closed_run,
  boardlink_here, nntpboardlink_here, spaced, backlink_here, or_later, leftmost, lower_byte,
  to_lower, memearrows, redtext, psytext, longhash_of,
}

-- the bytes that can end a text or an attribute of HTML
abbrev pub is_special : ℕ → Bool
is_special c = c == b'<' || c == b'>' || c == 34 || c == 39

abbrev pub IsSafe : Bytes → Type 0
IsSafe = All (λ c. is_special c ≡ false)

abbrev pub IsSpan : Bytes → Type 0
IsSpan tag = (tag ≡ memearrows) ⊎ ((tag ≡ redtext) ⊎ (tag ≡ psytext))

-- HTML of safe text, of the three spans, and of anchors whose attributes and texts are safe
pub data IsMarkup : Bytes → Type 0 where
  text : (s : Bytes) → IsSafe s → IsMarkup s
  joined : (s t : Bytes) → IsMarkup s → IsMarkup t → IsMarkup (s ++ t)
  span : (tag s : Bytes) → IsSpan tag → IsSafe s → IsMarkup (tag ++ (s ++ codes "</span>"))
  board_link :
      (href s : Bytes)
      → IsSafe href
      → IsSafe s
      → IsMarkup
          (codes "<a class=\"boardlink\" href=\"" ++ (href ++ (codes "\">" ++ (s ++ codes "</a>"))))
  post_link :
      (hash href s : Bytes)
      → IsSafe hash
      → IsSafe href
      → IsSafe s
      → IsMarkup (
          codes "<a class='backlink' backlinkhash=\""
          ++ (hash ++ (codes "\" href=\"" ++ (href ++ (codes "\">" ++ (s ++ codes "</a>"))))))
  outer_link :
      (href : Bytes)
      → IsSafe href
      → IsMarkup (codes "<a href=\"" ++ (href ++ (codes "\">" ++ (href ++ codes "</a>"))))

All-append : (P : ℕ → Type 0) (s t : Bytes) → All P s → All P t → All P (s ++ t)
All-append P [] t hs ht = ht
All-append P (c ∷ s) t hs ht = (hs.0, All-append P s t hs.1 ht)

pub IsSafe-append : (s t : Bytes) → IsSafe s → IsSafe t → IsSafe (s ++ t)
IsSafe-append = All-append (λ c. is_special c ≡ false)

escape_byte-IsSafe : (c : ℕ) → IsSafe (escape_byte c)
escape_byte-IsSafe c = ground arith

pub escapeline-IsSafe : (s : Bytes) → IsSafe (escapeline s)
unfolding escapeline
escapeline-IsSafe [] = tt
escapeline-IsSafe (c ∷ cs) =
    IsSafe-append (escape_byte c) (escapeline cs) (escape_byte-IsSafe c) (escapeline-IsSafe cs)

run_of-All : (p : ℕ → Bool) (s : Bytes) → All (λ c. p c ≡ true) (run_of p s)
unfolding run_of
run_of-All p [] = tt
run_of-All p (c ∷ cs) = elim (Bool-cases (p c)) [
  | inl h ↦ rw h (h, run_of-All p cs)
  | inr h ↦ rw h tt
]

All-map : (P Q : ℕ → Type 0) (s : Bytes) → ((c : ℕ) → P c → Q c) → All P s → All Q s
All-map P Q [] f h = tt
All-map P Q (c ∷ cs) f h = (f c h.0, All-map P Q cs f h.1)

hex_byte-IsSafe : (c : ℕ) → is_hex c ≡ true → is_special c ≡ false
hex_byte-IsSafe c h = ground arith

board_byte-IsSafe : (c : ℕ) → is_board c ≡ true → is_special (lower_byte c) ≡ false
board_byte-IsSafe c h = ground arith

abbrev pub IsBoard : Bytes → Type 0
IsBoard = All (λ c. is_board c ≡ true)

pub to_lower-IsSafe : (s : Bytes) → IsBoard s → IsSafe (to_lower s)
unfolding to_lower
to_lower-IsSafe [] h = tt
to_lower-IsSafe (c ∷ cs) h = (board_byte-IsSafe c h.0, to_lower-IsSafe cs h.1)

hex_run-IsSafe : (s : Bytes) → IsSafe (run_of is_hex s)
hex_run-IsSafe s =
    All-map (λ c. is_hex c ≡ true) (λ c. is_special c ≡ false) (run_of is_hex s) hex_byte-IsSafe
      (run_of-All is_hex s)

some_run-Holds : (s : Bytes) → IsBoard s → Holds IsBoard (some_run s)
some_run-Holds [] h = tt
some_run-Holds (c ∷ cs) h = h

closed_run-Holds : (s : Bytes) → Holds IsBoard (closed_run s)
closed_run-Holds [] = tt
closed_run-Holds (c ∷ cs) =
    let run = run_of is_board cs in
    elim (Bool-cases (c == b'/' && has_prefix (codes "/") (drop (length run) cs))) [
      | inl h ↦ rw h (some_run-Holds run (run_of-All is_board cs))
      | inr h ↦ rw h tt
    ]

pub boardlink_here-Holds : (s : Bytes) → Holds IsBoard (boardlink_here s)
unfolding boardlink_here
boardlink_here-Holds s = elim (Bool-cases (has_prefix (codes ">>>") s)) [
  | inl h ↦ rw h (closed_run-Holds (skip_space (drop 3 s)))
  | inr h ↦ rw h tt
]

pub nntpboardlink_here-Holds : (s : Bytes) → Holds IsBoard (nntpboardlink_here s)
unfolding nntpboardlink_here
nntpboardlink_here-Holds s = elim (Bool-cases (has_prefix (codes "news:") s)) [
  | inl h ↦ rw h (some_run-Holds (run_of is_board (drop 5 s)) (run_of-All is_board (drop 5 s)))
  | inr h ↦ rw h tt
]

spaced-IsSafe : (s : Bytes) → IsSafe (spaced s)
spaced-IsSafe [] = tt
spaced-IsSafe (c ∷ cs) = elim (Bool-cases (c == 32)) [
  | inl h ↦ rw h (space c h, hex_run-IsSafe cs)
  | inr h ↦ rw h (hex_run-IsSafe (c ∷ cs))
]
  where
    space : (c : ℕ) → (c == 32) ≡ true → is_special c ≡ false
    space c h = ground arith

-- what the pattern of a link to a post finds, without its two arrows
abbrev pub HasSafeLink : Bytes → Type 0
HasSafeLink m = IsSafe (drop 2 m)

pub backlink_here-Holds : (s : Bytes) → Holds HasSafeLink (backlink_here s)
unfolding backlink_here
backlink_here-Holds s =
    elim (Bool-cases
      (has_prefix (codes ">>") s && not (same (run_of is_hex (skip_space (drop 2 s))) []))) [
        | inl h ↦ rw h (spaced-IsSafe (drop 2 s))
        | inr h ↦ rw h tt
      ]

or_later-Holds :
    (P : Bytes → Type 0) (o later : Option Bytes)
    → Holds P o
    → Holds P later
    → Holds P (or_later o later)
or_later-Holds P none later h k = k
or_later-Holds P (some m) later h k = h

pub leftmost-Holds :
    (P : Bytes → Type 0) (here : Bytes → Option Bytes) (s : Bytes)
    → ((s : Bytes) → Holds P (here s))
    → Holds P (leftmost here s)
unfolding leftmost
leftmost-Holds P here [] h = h []
leftmost-Holds P here (c ∷ cs) h =
    or_later-Holds P (here (c ∷ cs)) (leftmost here cs) (h (c ∷ cs)) (leftmost-Holds P here cs h)

trim_front-IsSafe : (b : ℕ) (s : Bytes) → IsSafe s → IsSafe (trim_front b s)
unfolding trim_front
trim_front-IsSafe b [] h = tt
trim_front-IsSafe b (c ∷ cs) h = elim (Bool-cases (c == b)) [
  | inl e ↦ rw e (trim_front-IsSafe b cs h.1)
  | inr e ↦ rw e h
]

or_cut-IsSafe : (b c : ℕ) (s : Bytes) → is_special c ≡ false → IsSafe s → IsSafe (or_cut b c s)
or_cut-IsSafe b c [] hc h = elim (Bool-cases (c == b)) [ inl e ↦ rw e tt | inr e ↦ rw e (hc, tt) ]
or_cut-IsSafe b c (d ∷ ds) hc h = (hc, h)

trim_end-IsSafe : (b : ℕ) (s : Bytes) → IsSafe s → IsSafe (trim_end b s)
unfolding trim_end
trim_end-IsSafe b [] h = tt
trim_end-IsSafe b (c ∷ cs) h = or_cut-IsSafe b c (trim_end b cs) h.0 (trim_end-IsSafe b cs h.1)

pub trim-IsSafe : (b : ℕ) (s : Bytes) → IsSafe s → IsSafe (trim b s)
unfolding trim
trim-IsSafe b s h = trim_end-IsSafe b (trim_front b s) (trim_front-IsSafe b s h)

split_head-IsSafe :
    (c : ℕ) (ws : List Bytes) → is_special c ≡ false → All IsSafe ws → All IsSafe (split_head c ws)
unfolding split_head
split_head-IsSafe c [] hc h = ((hc, tt), tt)
split_head-IsSafe c (w ∷ ws) hc h = ((hc, h.0), h.1)

pub split-IsSafe : (sep : ℕ) (s : Bytes) → IsSafe s → All IsSafe (split sep s)
unfolding split
split-IsSafe sep [] h = (tt, tt)
split-IsSafe sep (c ∷ cs) h = elim (Bool-cases (c == sep)) [
  | inl e ↦ rw e (tt, split-IsSafe sep cs h.1)
  | inr e ↦ rw e (split_head-IsSafe c (split sep cs) h.0 (split-IsSafe sep cs h.1))
]

pub longhash_of-IsSafe : (ws : List Bytes) → All IsSafe ws → IsSafe (longhash_of ws)
longhash_of-IsSafe [] h = tt
longhash_of-IsSafe (w ∷ []) h = tt
longhash_of-IsSafe (w ∷ (v ∷ ws)) h = h.1.0
