-- ===== src/Nntp/Ident.antt =====
-- lib/nntp/common.go: message ids and newsgroups. In either pattern the byte behind a run of a
-- class lies outside the class, so a run is the longest one, and no other is to be tried. The
-- patterns of MustCompilePOSIX match ^ and $ at the ends of every line, and their classes hold no
-- newline: a text is valid if one of its lines is matched whole.
pub mod Language
pub mod Generated
use srndv.Base.{
  ℕ, ◌+◌, Bool, true, false, ◌&&◌, ◌||◌, Option, none, some, List, [], ◌∷◌, ◌++◌, ◌==◌, within,
  if◌then◌else◌, length, ◌>>=◌, Bytes, hex, decimal, split,
}

abbrev pub is_alnum : ℕ → Bool
is_alnum c = within b'a' b'z' c || within b'A' b'Z' c || within b'0' b'9' c

-- [a-zA-Z0-9$.]
unfoldable pub is_local : ℕ → Bool
is_local c = is_alnum c || c == b'$' || c == b'.'

-- [a-zA-Z0-9\-.]
unfoldable pub is_host : ℕ → Bool
is_host c = is_alnum c || c == b'-' || c == b'.'

-- [a-zA-Z0-9.]
unfoldable pub is_group : ℕ → Bool
is_group c = is_alnum c || c == b'.'

abbrev pub prepend : ℕ → Bytes × Bytes → Bytes × Bytes
prepend c (run, rest) = (c ∷ run, rest)

-- the longest run of a class at the front, and what follows it
unfoldable pub span : (ℕ → Bool) → Bytes → Bytes × Bytes
span p [] = ([], [])
span p (c ∷ cs) = let more = span p cs in if p c then prepend c more else ([], c ∷ cs)

unfoldable pub match_class : (ℕ → Bool) → ℕ → ℕ → Bytes → Option Bytes
unfolding span
match_class p lo hi s =
    let (run, rest) = span p s in if within lo hi (length run) then some rest else none

unfoldable pub match_byte : ℕ → Bytes → Option Bytes
match_byte b [] = none
match_byte b (c ∷ cs) = if b == c then some cs else none

unfoldable pub match_end : Option Bytes → Bool
match_end (some []) = true
match_end _ = false

unfoldable pub some_line : (Bytes → Bool) → List Bytes → Bool
some_line matches [] = false
some_line matches (line ∷ lines) = matches line || some_line matches lines

-- <[a-zA-Z0-9$.]{2,128}@[a-zA-Z0-9\-.]{2,63}>, a whole line
unfoldable pub message_id_line : Bytes → Bool
unfolding match_byte match_class match_end is_local is_host
message_id_line msgid = match_end (do
  a ← match_byte b'<' msgid
  b ← match_class is_local 2 128 a
  c ← match_byte b'@' b
  d ← match_class is_host 2 63 c
  match_byte b'>' d)

-- MessageID.Valid
unfoldable pub message_id_valid : Bytes → Bool
unfolding some_line message_id_line split
message_id_valid msgid = some_line message_id_line (split 10 msgid)

-- [a-zA-Z0-9.]{1,128}, a whole line
unfoldable pub newsgroup_line : Bytes → Bool
unfolding match_class match_end is_group
newsgroup_line g = match_end (match_class is_group 1 128 g)

-- Newsgroup.Valid
unfoldable pub newsgroup_valid : Bytes → Bool
unfolding some_line newsgroup_line split
newsgroup_valid g = some_line newsgroup_line (split 10 g)

-- "<%x$%d@%s>" of four random bytes, the Unix time and the name of the server
unfoldable pub gen_message_id : Bytes → ℕ → Bytes → Bytes
unfolding hex decimal
gen_message_id r t name = b'<' ∷ (hex r ++ (b'$' ∷ (decimal t ++ (b'@' ∷ (name ++ b'>' ∷ [])))))

-- ArticleEntry, a pair of a message id and a newsgroup
pub record ArticleEntry : Type 0 where
  pub message_id : Bytes
  pub newsgroup : Bytes
