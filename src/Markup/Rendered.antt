-- ===== src/Markup/Rendered.antt =====
-- memeposting of src/srnd/markup.go: the HTML of a whole post, and the lines that it fails on.
use srndv.Base.{
  ◌≡◌, inl, inr, refl, Bool, false, not, ◌&&◌, ◌||◌, Option, none, some, List, [], ◌∷◌, ◌++◌, ◌>>=◌,
  Holds, Holds-bind, Holds-bind-Holds, ltb, length, drop, is_none, Bytes, codes, same, split, arith,
  ap₂, ◌∙◌, Bool-cases,
}
use srndv.Outbound.Feed.{trim}
use srndv.Markup.{
  escapeline, boardlink_here, nntpboardlink_here, backlink_here, leftmost, to_lower, memearrows,
  redtext, psytext, arrows, longhash_of, inner, board_anchor, boardlink, found_link, backlink,
  format_word, format_words, tagged, is_fenced, is_arrows, formatline, format_lines, memeposting,
}
use srndv.Markup.Escaped.{
  IsSafe, IsSpan, IsMarkup, text, joined, span, board_link, post_link, IsSafe-append,
  escapeline-IsSafe, IsBoard, to_lower-IsSafe, HasSafeLink, boardlink_here-Holds,
  nntpboardlink_here-Holds, backlink_here-Holds, leftmost-Holds, trim-IsSafe, split-IsSafe,
  longhash_of-IsSafe,
}

escaped : (s : Bytes) → IsMarkup (escapeline s)
escaped s = text (escapeline s) (escapeline-IsSafe s)

arrows-IsSafe : IsSafe arrows
arrows-IsSafe = ground arith

space-IsSafe : IsSafe (codes " ")
space-IsSafe = ground arith

newline-IsSafe : IsSafe (10 ∷ [])
newline-IsSafe = ground arith

page-IsSafe : IsSafe (codes "-0.html")
page-IsSafe = ground arith

board_text-IsSafe : IsSafe (codes "&gt;&gt;&gt;/")
board_text-IsSafe = ground arith

slash-IsSafe : IsSafe (codes "/")
slash-IsSafe = ground arith

-- a line that is only a fence, or a fence whose ends overlap
abbrev pub is_short_fence : Bytes → Bool
is_short_fence line =
    not (same line [])
    && (not (is_arrows line)
        && ((is_fenced (codes "==") line || is_fenced (codes "@@") line) && ltb (length line) 4))

abbrev pub has_short_fence : List Bytes → Bool
has_short_fence [] = false
has_short_fence (line ∷ lines) =
    let rest = has_short_fence lines in is_short_fence (trim 13 line) || rest

tagged-IsMarkup : (tag line : Bytes) → IsSpan tag → IsMarkup (tagged tag line)
tagged-IsMarkup tag line t = span tag (escapeline line) t (escapeline-IsSafe line)

inner-Holds :
    (tag line : Bytes) → IsSpan tag → Holds IsMarkup (inner line >>= (λ s. some (tagged tag s)))
inner-Holds tag line t =
    Holds-bind IsMarkup (inner line) (λ s. some (tagged tag s)) (λ s. tagged-IsMarkup tag s t)

module _ (linkify find_link : Bytes → Bytes) (prefix : Bytes) where
  -- The replacement of outer links gives markup for text without special bytes, links to posts have
  -- none, and neither has the prefix of the site.
  pub record IsTame : Type 0 where
    pub linked : (s : Bytes) → IsSafe s → IsMarkup (linkify s)
    pub found : (s : Bytes) → IsSafe (find_link s)
    pub safe_prefix : IsSafe prefix

  board_anchor-IsMarkup :
      (link : Bytes) → IsSafe prefix → IsSafe link → IsMarkup (board_anchor prefix link)
  board_anchor-IsMarkup link p l =
      board_link (prefix ++ (link ++ codes "-0.html"))
        (codes "&gt;&gt;&gt;/" ++ (link ++ codes "/"))
        (IsSafe-append prefix _ p (IsSafe-append link _ l page-IsSafe))
        (IsSafe-append (codes "&gt;&gt;&gt;/") _ board_text-IsSafe
          (IsSafe-append link _ l slash-IsSafe))

  boardlink-IsMarkup :
      (word l : Bytes) → IsSafe prefix → IsBoard l → IsMarkup (boardlink word prefix l)
  unfolding boardlink
  boardlink-IsMarkup word l p h = elim (Bool-cases (ltb 2 (length l))) [
    | inl e ↦ rw e (board_anchor-IsMarkup (to_lower l) p (to_lower-IsSafe l h))
    | inr e ↦ rw e (escaped word)
  ]

  found_link-IsMarkup :
      (link url : Bytes)
      → IsSafe link
      → IsSafe url
      → IsMarkup (found_link linkify find_link link url)
  found_link-IsMarkup link url l u =
      let shown = IsSafe-append arrows link arrows-IsSafe l in
      elim (Bool-cases (same url [])) [
        | inl e ↦ rw e (span memearrows (arrows ++ link) (inl refl) shown)
        | inr e ↦ rw e (
            post_link (longhash_of (split b'#' url)) url (arrows ++ link)
              (longhash_of-IsSafe (split b'#' url) (split-IsSafe b'#' url u)) u shown)
      ]

  backlink-IsMarkup :
      (word m : Bytes)
      → ((s : Bytes) → IsSafe (find_link s))
      → HasSafeLink m
      → IsMarkup (backlink linkify find_link word m)
  unfolding backlink
  backlink-IsMarkup word m f h =
      let link = trim 32 (drop 2 m) in
      elim (Bool-cases (ltb 2 (length link))) [
        | inl e ↦
            rw e (found_link-IsMarkup link (find_link link) (trim-IsSafe 32 (drop 2 m) h) (f link))
        | inr e ↦ rw e (escaped word)
      ]

  format_word-IsMarkup :
      (word : Bytes) → IsTame → IsMarkup (format_word linkify find_link prefix word)
  unfolding format_word
  format_word-IsMarkup word t =
      board (leftmost boardlink_here word)
        (leftmost-Holds IsBoard boardlink_here word boardlink_here-Holds)
    where
      post :
          (o : Option Bytes)
          → Holds HasSafeLink o
          → IsMarkup (elim o [
            | some m ↦ backlink linkify find_link word m
            | none ↦ linkify (escapeline word)
          ])
      post none h = t.linked (escapeline word) (escapeline-IsSafe word)
      post (some m) h = backlink-IsMarkup word m t.found h

      news :
          (o : Option Bytes)
          → Holds IsBoard o
          → IsMarkup (elim o [
            | some l ↦ boardlink word prefix l
            | none ↦ elim (leftmost backlink_here word) [
              | some m ↦ backlink linkify find_link word m
              | none ↦ linkify (escapeline word)
            ]
          ])
      news none h =
          post (leftmost backlink_here word)
            (leftmost-Holds HasSafeLink backlink_here word backlink_here-Holds)
      news (some l) h = boardlink-IsMarkup word l t.safe_prefix h

      board :
          (o : Option Bytes)
          → Holds IsBoard o
          → IsMarkup (elim o [
            | some l ↦ boardlink word prefix l
            | none ↦ elim (leftmost nntpboardlink_here word) [
              | some l ↦ boardlink word prefix l
              | none ↦ elim (leftmost backlink_here word) [
                | some m ↦ backlink linkify find_link word m
                | none ↦ linkify (escapeline word)
              ]
            ]
          ])
      board none h =
          news (leftmost nntpboardlink_here word)
            (leftmost-Holds IsBoard nntpboardlink_here word nntpboardlink_here-Holds)
      board (some l) h = boardlink-IsMarkup word l t.safe_prefix h

  format_words-IsMarkup :
      (words : List Bytes) → IsTame → IsMarkup (format_words linkify find_link prefix words)
  unfolding format_words
  format_words-IsMarkup [] t = text [] tt
  format_words-IsMarkup (word ∷ words) t =
      joined (format_word linkify find_link prefix word) _ (format_word-IsMarkup word t)
        (joined (codes " ") _ (text (codes " ") space-IsSafe) (format_words-IsMarkup words t))

  formatline-Holds :
      (line : Bytes) → IsTame → Holds IsMarkup (formatline linkify find_link line prefix)
  unfolding formatline
  formatline-Holds line t = elim (Bool-cases (same line [])) [
    | inl e ↦ rw e (text [] tt)
    | inr e ↦ rw e (elim (Bool-cases (is_arrows line)) [
      | inl a ↦ rw a (tagged-IsMarkup memearrows line (inl refl))
      | inr a ↦ rw a (elim (Bool-cases (is_fenced (codes "==") line)) [
        | inl r ↦ rw r (inner-Holds redtext line (inr (inl refl)))
        | inr r ↦ rw r (elim (Bool-cases (is_fenced (codes "@@") line)) [
          | inl y ↦ rw y (inner-Holds psytext line (inr (inr refl)))
          | inr y ↦ rw y (format_words-IsMarkup (split 32 line) t)
        ])
      ])
    ])
  ]

  inner_fails :
      (tag line : Bytes) → is_none (inner line >>= (λ s. some (tagged tag s))) ≡ ltb (length line) 4
  inner_fails tag line = elim (Bool-cases (ltb (length line) 4)) [
    | inl e ↦ rw e refl
    | inr e ↦ rw e refl
  ]

  formatline_fails :
      (line : Bytes) → is_none (formatline linkify find_link line prefix) ≡ is_short_fence line
  unfolding formatline
  formatline_fails line = elim (Bool-cases (same line [])) [
    | inl e ↦ rw e refl
    | inr e ↦ rw e (elim (Bool-cases (is_arrows line)) [
      | inl a ↦ rw a refl
      | inr a ↦ rw a (elim (Bool-cases (is_fenced (codes "==") line)) [
        | inl r ↦ rw r (inner_fails redtext line)
        | inr r ↦ rw r (elim (Bool-cases (is_fenced (codes "@@") line)) [
          | inl y ↦ rw y (inner_fails psytext line)
          | inr y ↦ rw y refl
        ])
      ])
    ])
  ]

  format_lines-Holds :
      (lines : List Bytes) → IsTame → Holds IsMarkup (format_lines linkify find_link prefix lines)
  unfolding format_lines
  format_lines-Holds [] t = text [] tt
  format_lines-Holds (line ∷ lines) t =
      Holds-bind-Holds IsMarkup IsMarkup (formatline linkify find_link (trim 13 line) prefix) _
        (formatline-Holds (trim 13 line) t)
        (λ first f.
          Holds-bind-Holds IsMarkup IsMarkup (format_lines linkify find_link prefix lines) _
            (format_lines-Holds lines t)
            (λ rest r. joined first _ f (joined (10 ∷ []) rest (text (10 ∷ []) newline-IsSafe) r)))

  bind_fails :
      (o p : Option Bytes)
      → is_none (o >>= (λ first. p >>= (λ rest. some (first ++ (10 ∷ rest)))))
        ≡ (is_none o || is_none p)
  bind_fails none p = refl
  bind_fails (some first) none = refl
  bind_fails (some first) (some rest) = refl

  format_lines_fail :
      (lines : List Bytes)
      → is_none (format_lines linkify find_link prefix lines) ≡ has_short_fence lines
  unfolding format_lines
  format_lines_fail [] = refl
  format_lines_fail (line ∷ lines) =
      bind_fails (formatline linkify find_link (trim 13 line) prefix)
        (format_lines linkify find_link prefix lines)
      ∙ ap₂ ◌||◌ (formatline_fails (trim 13 line)) (format_lines_fail lines)

  -- Whatever a user posts, memeposting gives well-formed HTML: escaped text in spans and links,
  -- into which no byte of the post gets that could close a tag or an attribute, if the links that
  -- are put in are such text and xurls' replacement gives such HTML. It gives nothing, and panics,
  -- exactly if a line is fenced by == or @@ whose two ends do not have four bytes to themselves.
  pub memeposting_lem :
      (src : Bytes)
      → IsTame
      → Holds IsMarkup (memeposting linkify find_link src prefix)
        × (is_none (memeposting linkify find_link src prefix) ≡ has_short_fence (split 10 src))
  unfolding memeposting
  memeposting_lem src t = (format_lines-Holds (split 10 src) t, format_lines_fail (split 10 src))
