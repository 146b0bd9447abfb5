-- ===== src/Daemon/Dial.antt =====
-- The connections that the daemon opens, in src/srnd/nntp.go: the handshake and the change of the
-- mode. A write to the peer is taken to succeed: a peer that is gone is noticed at the read that
-- follows.
use srndv.Base.{
  ℕ, Bool, true, false, not, ◌&&◌, ◌||◌, Option, none, some, List, [], ◌∷◌, ◌++◌, ltb, ◌==◌, within,
  length, take, drop, if◌then◌else◌, is_none, Bytes, codes, same, to_upper, read_number,
}
use srndv.Inbound.{Error}
use srndv.Daemon.{NntpConnection, print_line}
use srndv.Daemon.Mime.{Dotted, dot_reader}
use srndv.Daemon.Deliver.{unexpected_eof}

-- a line with a code: the code, which is 0 for a line without one, and the error
pub record Reply (W : Type 0) : Type 0 where
  pub code : ℕ
  pub err : Option Error
  pub conn : NntpConnection W

abbrev pub byte_at : ℕ → Bytes → ℕ
byte_at n s = head_or (drop n s)
  where
    head_or : Bytes → ℕ
    head_or [] = 0
    head_or (c ∷ cs) = c

-- textproto's parseCodeLine: `expected` is 0 where any code will do
abbrev pub code_error : ℕ → ℕ → Bytes → Option Error
code_error expected code line = if expected == 0 || code == expected then none else some line

abbrev pub parsed_code : ℕ → Bytes → Option ℕ → ℕ × Option Error
parsed_code expected line none = (0, some (codes "invalid response code: " ++ line))
parsed_code expected line (some code) =
    if ltb code 100
    then (0, some (codes "invalid response code: " ++ line))
    else if byte_at 3 line == b'-'
    then (code, some (codes "unexpected multi-line response: " ++ line))
    else (code, code_error expected code line)

unfoldable pub parse_code_line : ℕ → Bytes → ℕ × Option Error
unfolding read_number
parse_code_line expected line =
    if ltb (length line) 4 || not (byte_at 3 line == b' ' || byte_at 3 line == b'-')
    then (0, some (codes "short response: " ++ line))
    else parsed_code expected line (read_number (take 3 line))

-- what the peer supports
pub record Supports : Type 0 where
  pub stream : Bool
  pub reader : Bool
  pub tls : Bool

-- the lines of CAPABILITIES
unfoldable pub capability : Supports → Bytes → Supports
capability s line =
    if same line (codes "STARTTLS")
    then record s { tls = true }
    else if same line (codes "MODE-READER") || same line (codes "READER")
    then record s { reader = true }
    else if same line (codes "STREAMING")
    then record s { stream = true }
    else if same line (codes "POSTIHAVESTREAMING")
    then record s { stream = true; reader = false }
    else s

unfoldable pub capabilities_read : Supports → List Bytes → Supports
unfolding capability
capabilities_read s [] = s
capabilities_read s (line ∷ lines) = capabilities_read (capability s line) lines

abbrev pub supports_nothing : Supports
supports_nothing = record { stream = false; reader = false; tls = false }

-- what a handshake comes to
pub record Greeting (W : Type 0) : Type 0 where
  pub supports : Supports
  pub err : Option Error
  pub conn : NntpConnection W

module _ {W : Type 0} where
  -- ReadCodeLine
  abbrev pub code_line_of : ℕ → NntpConnection W → List Bytes → Reply W
  code_line_of expected c [] = record { code = 0; err = some (codes "EOF"); conn = c }
  code_line_of expected c (line ∷ lines) =
      let r = parse_code_line expected line in
      record { code = r.0; err = r.1; conn = record c { input = lines } }

  unfoldable pub read_code_line : ℕ → NntpConnection W → Reply W
  unfolding parse_code_line
  read_code_line expected c = code_line_of expected c c.input

  -- modeSwitch: whether the mode was changed, and the error
  unfoldable pub mode_switch : Bytes → NntpConnection W → Bool × (Option Error × NntpConnection W)
  unfolding to_upper read_code_line
  mode_switch mode c =
      let r = read_code_line 0 (print_line c (codes "MODE " ++ to_upper mode)) in
      if within 200 299 r.code
      then (not (same (to_upper mode) []), (r.err, record r.conn { mode = to_upper mode }))
      else (false, (r.err, r.conn))

  -- Quit
  unfoldable pub quit : NntpConnection W → Option Error × NntpConnection W
  unfolding read_code_line
  quit c = let r = read_code_line 0 (print_line c (codes "QUIT")) in (r.err, r.conn)

  unfoldable pub inbound_handshake : NntpConnection W → NntpConnection W
  inbound_handshake c = print_line c (codes "200 Posting Allowed")

  abbrev pub capabilities_of : Dotted → NntpConnection W → Greeting W
  capabilities_of d c = record {
    supports = capabilities_read supports_nothing d.lines;
    err = if d.ended then none else some unexpected_eof;
    conn = record c { input = d.rest };
  }

  -- the lines up to the first code 200 or 201, or an error
  unfoldable pub greeted : List Bytes → NntpConnection W → Greeting W
  unfolding parse_code_line capabilities_read dot_reader
  greeted [] c = record {
    supports = supports_nothing;
    err = some (codes "EOF");
    conn = record c { input = [] };
  }
  greeted (line ∷ lines) c =
      let rest = greeted lines c in
      let r = parse_code_line 0 line in
      let stop : Greeting W = record {
        supports = supports_nothing;
        err = r.1;
        conn = record c { input = lines };
      } in
      if not (is_none r.1)
      then stop
      else if r.0 == 200
      then capabilities_of (dot_reader lines) (print_line c (codes "CAPABILITIES"))
      else if r.0 == 201
      then stop
      else rest

  abbrev pub pass_answered : Supports → Reply W → Greeting W
  pass_answered s r =
      if r.code == 281
      then record { supports = s; err = r.err; conn = record r.conn { authenticated = true } }
      else record {
        supports = supports_nothing;
        err = some (codes "EOF");
        conn = record (print_line r.conn (codes "QUIT")) { is_open = false };
      }

  abbrev pub user_answered : Supports → Bytes → Reply W → Greeting W
  user_answered s passwd r =
      if r.code == 381
      then pass_answered s
          (read_code_line 281 (print_line r.conn (codes "AUTHINFO PASS " ++ passwd)))
      else record { supports = s; err = r.err; conn = r.conn }

  -- outboundHandshake with the login of the feed's configuration, empty where there is none
  unfoldable pub outbound_handshake : Bytes → Bytes → NntpConnection W → Greeting W
  unfolding greeted read_code_line
  outbound_handshake username passwd c =
      let g = greeted c.input c in
      if not (same username []) && not (same passwd [])
      then user_answered g.supports passwd
          (read_code_line 381 (print_line g.conn (codes "AUTHINFO USER " ++ username)))
      else g
