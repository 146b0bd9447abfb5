-- ===== src/Daemon/Mime.antt =====
-- What src/srnd/nntp.go does with an article's header: textproto.MIMEHeader, readMIMEHeader and
-- writeMIMEHeader of src/srnd/util.go, and the two message id functions beside them.
use srndv.Base.{
  ℕ, ◌+◌, Bool, true, false, ◌&&◌, ◌||◌, Option, none, some, List, [], ◌∷◌, ◌++◌, ◌==◌, within, all,
  if◌then◌else◌, Bytes, codes, same, upper_byte,
}
use srndv.Header.{Header, lookup, set, add, values_or_nil}
use srndv.Header.Io.{write_header}
use srndv.Inbound.{unstuff, dot}
use srndv.Outbound.Feed.{trim}

-- the bytes of a token, which are those of a header's name
abbrev pub is_token : ℕ → Bool
is_token c =
    within b'a' b'z' c
    || within b'A' b'Z' c
    || within b'0' b'9' c
    || within b'#' b'\'' c
    || within b'^' b'`' c
    || c == b'!'
    || c == b'*'
    || c == b'+'
    || c == b'-'
    || c == b'.'
    || c == b'|'
    || c == b'~'

-- the first letter, and the first one behind a dash, in upper case, the others in lower case
unfoldable pub capitalise : Bool → Bytes → Bytes
unfolding upper_byte
capitalise upper [] = []
capitalise upper (c ∷ cs) =
    (if upper then upper_byte c else if within b'A' b'Z' c then c + 32 else c)
    ∷ capitalise (c == b'-') cs

-- textproto.CanonicalMIMEHeaderKey
unfoldable pub canonical : Bytes → Bytes
unfolding capitalise
canonical key = if all is_token key then capitalise true key else key

abbrev pub first_of : List Bytes → Bytes
first_of [] = []
first_of (v ∷ vs) = v

-- Get, Set and Add of textproto.MIMEHeader
unfoldable pub mime_get : Header → Bytes → Bytes
unfolding lookup
mime_get hdr key = first_of (values_or_nil (lookup (canonical key) hdr))

unfoldable pub mime_set : Header → Bytes → Bytes → Header
mime_set hdr key val = set hdr (canonical key) val

unfoldable pub mime_add : Header → Bytes → Bytes → Header
mime_add hdr key val = add hdr (canonical key) val

-- getMessageID; the four spellings of the name are one to Get
unfoldable pub get_message_id : Header → Bytes
unfolding mime_get
get_message_id hdr =
    let a = mime_get hdr (codes "Message-Id") in
    let b = if same a [] then mime_get hdr (codes "Message-ID") else a in
    let c = if same b [] then mime_get hdr (codes "message-id") else b in
    if same c [] then mime_get hdr (codes "MESSAGE-ID") else c

-- strings.Trim(s, "\r\n")
abbrev pub is_line_end : ℕ → Bool
is_line_end c = c == 13 || c == 10

unfoldable pub skip_line_ends : Bytes → Bytes
skip_line_ends [] = []
skip_line_ends (c ∷ cs) = let rest = skip_line_ends cs in if is_line_end c then rest else c ∷ cs

abbrev pub keep_unless_end : ℕ → Bytes → Bytes
keep_unless_end c [] = if is_line_end c then [] else c ∷ []
keep_unless_end c (d ∷ rest) = c ∷ d ∷ rest

unfoldable pub cut_line_ends : Bytes → Bytes
cut_line_ends [] = []
cut_line_ends (c ∷ cs) = keep_unless_end c (cut_line_ends cs)

unfoldable pub trim_line_ends : Bytes → Bytes
trim_line_ends s = cut_line_ends (skip_line_ends s)

abbrev pub longer_name : ℕ → Option (Bytes × Bytes) → Option (Bytes × Bytes)
longer_name c none = none
longer_name c (some (name, val)) = some (c ∷ name, val)

-- what stands in front of the first ": ", and behind it
unfoldable pub cut_colon : Bytes → Option (Bytes × Bytes)
cut_colon [] = none
cut_colon (_ ∷ []) = none
cut_colon (c ∷ (d ∷ cs)) =
    let more = cut_colon (d ∷ cs) in
    if c == b':' && d == b' ' then some ([], cs) else longer_name c more

-- one line of the header; a line without a name is passed over
abbrev pub add_cut : Header → Option (Bytes × Bytes) → Header
add_cut hdr none = hdr
add_cut hdr (some ([], val)) = hdr
add_cut hdr (some (c ∷ name, val)) = mime_add hdr (trim b' ' (c ∷ name)) (trim_line_ends val)

unfoldable pub add_line : Header → Bytes → Header
unfolding mime_add trim cut_colon
add_line hdr str = add_cut hdr (cut_colon str)

-- readMIMEHeader over the lines of its reader: the header and the lines behind it, or `none` for
-- the error where the lines end in front of an empty one
unfoldable pub read_mime_from : Header → List Bytes → Option (Header × List Bytes)
unfolding trim add_line
read_mime_from hdr [] = none
read_mime_from hdr (line ∷ lines) =
    let str = trim 10 (trim 13 (line ++ 10 ∷ [])) in
    let rest = read_mime_from (add_line hdr str) lines in
    if same str [] then some (hdr, lines) else rest

unfoldable pub read_mime_header : List Bytes → Option (Header × List Bytes)
unfolding read_mime_from
read_mime_header = read_mime_from []

-- writeMIMEHeader writes what WriteHeader of lib/nntp/message writes with its delimiter
unfoldable pub write_mime_header : Header → Bytes
unfolding write_header
write_mime_header hdr = write_header hdr

-- the writes that it makes of the entries, up to the empty line at its end
unfoldable pub value_pieces : Bytes → List Bytes → List Bytes
value_pieces k [] = []
value_pieces k (v ∷ vals) = k ∷ (codes ": " ∷ (v ∷ ((10 ∷ []) ∷ value_pieces k vals)))

unfoldable pub header_pieces : Header → List Bytes
unfolding value_pieces
header_pieces [] = []
header_pieces ((k, vals) ∷ hdr) = value_pieces k vals ++ header_pieces hdr

-- textproto's DotReader: the lines of the body, a leading dot taken off each, whether the line of
-- one dot came, and the lines behind it
pub record Dotted : Type 0 where
  pub lines : List Bytes
  pub ended : Bool
  pub rest : List Bytes

abbrev pub dotted_line : Bytes → Dotted → Dotted
dotted_line line d = record d { lines = unstuff line ∷ d.lines }

unfoldable pub dot_reader : List Bytes → Dotted
unfolding unstuff
dot_reader [] = record { lines = []; ended = false; rest = [] }
dot_reader (line ∷ lines) =
    let more = dot_reader lines in
    if same line dot
    then record { lines = []; ended = true; rest = lines }
    else dotted_line line more

unfoldable pub text_of : List Bytes → Bytes
text_of [] = []
text_of (l ∷ ls) = l ++ (10 ∷ text_of ls)
