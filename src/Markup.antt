-- ===== src/Markup.antt =====
-- The markup of posts (src/srnd/markup.go). The patterns of the file are written out as functions;
-- `linkify` is the replacement by xurls.Strict, and `find_link` that of the template engine.
pub mod Escaped
pub mod Rendered
use srndv.Base.{
  ℕ, ◌+◌, ◌-◌, Bool, true, false, not, ◌&&◌, ◌||◌, Option, none, some, List, [], ◌∷◌, ◌++◌, ◌>>=◌,
  ltb, ◌==◌, within, length, take, drop, if◌then◌else◌, Bytes, codes, same, has_prefix, split,
}
use srndv.Outbound.Feed.{trim}
use srndv.Daemon.Feeds.{has_suffix}

abbrev pub escape_byte : ℕ → Bytes
escape_byte c =
    if c == b'<'
    then codes "&lt;"
    else if c == b'>'
    then codes "&gt;"
    else if c == 38
    then codes "&amp;"
    else if c == 39
    then codes "&#39;"
    else if c == 34
    then codes "&#34;"
    else c ∷ []

-- escapeline: html.EscapeString
unfoldable pub escapeline : Bytes → Bytes
escapeline [] = []
escapeline (c ∷ cs) = escape_byte c ++ escapeline cs

-- [0-9a-zA-Z\.]
abbrev pub is_board : ℕ → Bool
is_board c = within b'0' b'9' c || within b'a' b'z' c || within b'A' b'Z' c || c == b'.'

-- [0-9a-f]
abbrev pub is_hex : ℕ → Bool
is_hex c = within b'0' b'9' c || within b'a' b'f' c

-- the longest run of bytes of a class
unfoldable pub run_of : (ℕ → Bool) → Bytes → Bytes
run_of p [] = []
run_of p (c ∷ cs) = let rest = run_of p cs in if p c then c ∷ rest else []

abbrev pub skip_space : Bytes → Bytes
skip_space [] = []
skip_space (c ∷ cs) = if c == 32 then cs else c ∷ cs

-- a run that is not empty
abbrev pub some_run : Bytes → Option Bytes
some_run [] = none
some_run (c ∷ cs) = some (c ∷ cs)

abbrev pub closed_run : Bytes → Option Bytes
closed_run [] = none
closed_run (c ∷ cs) =
    let run = run_of is_board cs in
    if c == b'/' && has_prefix (codes "/") (drop (length run) cs) then some_run run else none

-- The patterns at the start of a text, with their group; that of a link to a post is matched whole.
unfoldable pub boardlink_here : Bytes → Option Bytes
unfolding has_prefix run_of
boardlink_here s = if has_prefix (codes ">>>") s then closed_run (skip_space (drop 3 s)) else none

unfoldable pub nntpboardlink_here : Bytes → Option Bytes
unfolding has_prefix run_of
nntpboardlink_here s =
    if has_prefix (codes "news:") s then some_run (run_of is_board (drop 5 s)) else none

abbrev pub spaced : Bytes → Bytes
spaced [] = []
spaced (c ∷ cs) = if c == 32 then c ∷ run_of is_hex cs else run_of is_hex (c ∷ cs)

unfoldable pub backlink_here : Bytes → Option Bytes
unfolding has_prefix run_of
backlink_here s =
    if has_prefix (codes ">>") s && not (same (run_of is_hex (skip_space (drop 2 s))) [])
    then some (codes ">>" ++ spaced (drop 2 s))
    else none

abbrev pub or_later : Option Bytes → Option Bytes → Option Bytes
or_later none later = later
or_later (some m) later = some m

-- the leftmost match
unfoldable pub leftmost : (Bytes → Option Bytes) → Bytes → Option Bytes
leftmost here [] = here []
leftmost here (c ∷ cs) = or_later (here (c ∷ cs)) (leftmost here cs)

-- strings.ToLower
abbrev pub lower_byte : ℕ → ℕ
lower_byte c = if within b'A' b'Z' c then c + 32 else c

unfoldable pub to_lower : Bytes → Bytes
to_lower [] = []
to_lower (c ∷ cs) = lower_byte c ∷ to_lower cs

abbrev pub memearrows : Bytes
memearrows = codes "<span class='memearrows'>"

abbrev pub redtext : Bytes
redtext = codes "<span class='redtext'>"

abbrev pub psytext : Bytes
psytext = codes "<span class='psy'>"

abbrev pub arrows : Bytes
arrows = codes "&gt;&gt;"

abbrev pub longhash_of : List Bytes → Bytes
longhash_of (_ ∷ (h ∷ _)) = h
longhash_of _ = []

-- line[2 : len(line)-2], which panics below four bytes
abbrev pub inner : Bytes → Option Bytes
inner line = if ltb (length line) 4 then none else some (take (length line - 4) (drop 2 line))

abbrev pub board_anchor : Bytes → Bytes → Bytes
board_anchor prefix link =
    codes "<a class=\"boardlink\" href=\""
    ++ ((prefix ++ (link ++ codes "-0.html"))
        ++ (codes "\">" ++ ((codes "&gt;&gt;&gt;/" ++ (link ++ codes "/")) ++ codes "</a>")))

unfoldable pub boardlink : Bytes → Bytes → Bytes → Bytes
unfolding to_lower escapeline
boardlink word prefix l =
    if ltb 2 (length l) then board_anchor prefix (to_lower l) else escapeline word

abbrev pub tagged : Bytes → Bytes → Bytes
tagged tag line = tag ++ (escapeline line ++ codes "</span>")

abbrev pub is_fenced : Bytes → Bytes → Bool
is_fenced fence line = has_prefix fence (trim 32 line) && has_suffix fence (trim 32 line)

abbrev pub is_arrows : Bytes → Bool
is_arrows line =
    has_prefix (codes ">") (trim 32 line) && not (has_prefix (codes ">>") (trim 32 line))

module _ (linkify find_link : Bytes → Bytes) where
  abbrev pub found_link : Bytes → Bytes → Bytes
  found_link link url =
      if same url []
      then memearrows ++ ((arrows ++ link) ++ codes "</span>")
      else codes "<a class='backlink' backlinkhash=\""
        ++ (longhash_of (split b'#' url)
            ++ (codes "\" href=\"" ++ (url ++ (codes "\">" ++ ((arrows ++ link) ++ codes "</a>")))))

  -- backlink, with the text that its pattern finds
  unfoldable pub backlink : Bytes → Bytes → Bytes
  unfolding trim escapeline split
  backlink word m =
      let link = trim 32 (drop 2 m) in
      if ltb 2 (length link) then found_link link (find_link link) else escapeline word

  unfoldable pub format_word : Bytes → Bytes → Bytes
  unfolding leftmost boardlink_here nntpboardlink_here backlink_here boardlink backlink escapeline
  format_word prefix word = elim (leftmost boardlink_here word) [
    | some l ↦ boardlink word prefix l
    | none ↦ elim (leftmost nntpboardlink_here word) [
      | some l ↦ boardlink word prefix l
      | none ↦ elim (leftmost backlink_here word) [
        | some m ↦ backlink word m
        | none ↦ linkify (escapeline word)
      ]
    ]
  ]

  unfoldable pub format_words : Bytes → List Bytes → Bytes
  unfolding format_word
  format_words prefix [] = []
  format_words prefix (word ∷ words) =
      format_word prefix word ++ (codes " " ++ format_words prefix words)

  -- formatline
  unfoldable pub formatline : Bytes → Bytes → Option Bytes
  unfolding trim has_prefix has_suffix escapeline format_words split
  formatline line prefix =
      if same line []
      then some []
      else if is_arrows line
      then some (tagged memearrows line)
      else if is_fenced (codes "==") line
      then (inner line >>= (λ text. some (tagged redtext text)))
      else if is_fenced (codes "@@") line
      then (inner line >>= (λ text. some (tagged psytext text)))
      else some (format_words prefix (split 32 line))

  unfoldable pub format_lines : Bytes → List Bytes → Option Bytes
  unfolding formatline trim
  format_lines prefix [] = some []
  format_lines prefix (line ∷ lines) = do
    first ← formatline (trim 13 line) prefix
    rest ← format_lines prefix lines
    some (first ++ (10 ∷ rest))

  -- memeposting
  unfoldable pub memeposting : Bytes → Bytes → Option Bytes
  unfolding format_lines split
  memeposting src prefix = format_lines prefix (split 10 src)
