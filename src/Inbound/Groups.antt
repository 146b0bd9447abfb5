-- ===== src/Inbound/Groups.antt =====
-- The handlers of lib/nntp/conn_v1.go for newsgroups and for TLS.
pub mod Listing
pub mod Selection
use srndv.Base.{
  ℕ, ◌+◌, ◌-◌, Bool, true, false, not, ◌&&◌, Option, none, some, List, [], ◌∷◌, ◌++◌, ◌==◌, leb,
  if◌then◌else◌, is_none, ◌>>=◌, Bytes, codes, same, split, decimal,
}
use srndv.Nntp.Codes.{
  rpl_group, rpl_list, rpl_tls_continue, rpl_generic_error, rpl_no_such_group, rpl_tls_rejected,
}
use srndv.Nntp.Ident.{newsgroup_valid}
use srndv.Inbound.{
  Error, Answer, answer, failed, Database, Env, ConnState, Handshake, Conn, Outcome, write_result,
  printf_line, put_line, dot,
}
use srndv.Inbound.Commands.{reply}

-- textproto's DotWriter over a text, up to Close: the lines that it puts on the wire, a dot put in
-- front of a leading dot, the last line ended if it is not, and a line of one dot
unfoldable pub stuff : Bytes → Bytes
stuff [] = []
stuff (c ∷ cs) = if c == b'.' then b'.' ∷ c ∷ cs else c ∷ cs

unfoldable pub dot_lines : List Bytes → List Bytes
dot_lines [] = dot ∷ []
dot_lines ([] ∷ []) = dot ∷ []
dot_lines (w ∷ ws) = stuff w ∷ dot_lines ws

unfoldable pub dot_write : Bytes → List Bytes
dot_write text = dot_lines (split 10 text)

-- %d of hi - lo as an int64
unfoldable pub difference : ℕ → ℕ → Bytes
difference hi lo = if leb lo hi then decimal (hi - lo) else b'-' ∷ decimal (lo - hi)

-- "%s %d %d y" of one group, with no end of line
unfoldable pub group_line : Bytes → ℕ → ℕ → Bytes
group_line g hi lo = g ++ (32 ∷ (decimal hi ++ (32 ∷ (decimal lo ++ codes " y"))))

unfoldable pub list_entry : Bytes → Answer (ℕ × ℕ) → Bytes
list_entry g (answer (hi, lo)) = group_line g hi lo
list_entry g (failed e) = []

-- the marks of a group, 1 and 0 without a database
unfoldable pub marks : Option Database → Bytes → Answer (ℕ × ℕ)
marks none g = answer (1, 0)
marks (some db) g = db.get_last_and_first g

-- what the loop of newsgroupList writes; a group whose marks fail is left out
unfoldable pub list_entries : Option Database → List Bytes → Bytes
list_entries db [] = []
list_entries db (g ∷ gs) = list_entry g (marks db g) ++ list_entries db gs

unfoldable pub list_text : Option Database → List Bytes → Bytes
list_text db groups =
    rpl_list ++ (codes " list of newsgroups follows" ++ (10 ∷ list_entries db groups))

unfoldable pub all_newsgroups : Option Database → Answer (List Bytes)
all_newsgroups none = answer (codes "overchan.test" ∷ [])
all_newsgroups (some db) = db.get_all_newsgroups

abbrev pub group_reply : Bytes → ℕ → ℕ → Bytes
group_reply group hi lo =
    reply rpl_group (difference hi lo ++ (32 ∷ (decimal lo ++ (32 ∷ (decimal hi ++ (32 ∷ group))))))

abbrev pub set_group : {S : Type 0} → Bytes → Conn S × Option Error → Conn S × Option Error
set_group group (c, none) = (record c { state = record c.state { group = group } }, none)
set_group group (c, some e) = (c, some e)

abbrev pub group_error : Error → Bytes
group_error e = reply rpl_generic_error (codes "error checking for newsgroup " ++ e)

module _ {S : Type 0} (env : Env S) where
  -- the lines of a closed DotWriter, which are flushed at once
  unfoldable pub flush_lines : Conn S → List Bytes → Option Error → Conn S × Option Error
  flush_lines c lines none = (record c { writes = c.writes + 1; sent = c.sent ++ lines }, none)
  flush_lines c lines (some e) = (record c { writes = c.writes + 1 }, some e)

  unfoldable pub list_groups : Conn S → Answer (List Bytes) → Conn S × Option Error
  list_groups c (answer groups) =
      flush_lines c (dot_write (list_text env.db groups)) (write_result env c)
  list_groups c (failed e) =
      printf_line env c (reply rpl_generic_error (codes "cannot list newsgroups " ++ e))

  -- newsgroupList, the handler of LIST
  unfoldable pub newsgroup_list : Conn S → Bytes → Outcome S
  newsgroup_list c line = some (list_groups c (all_newsgroups env.db))

  -- the TLS handshake is done by the package crypto/tls; where it fails the connection goes on in
  -- plain text
  unfoldable pub handshaken : Conn S → Handshake → List Handshake → Option Error → Conn S
  handshaken c h hs (some e) = record c { handshakes = hs }
  handshaken c h hs none = record c { handshakes = hs; tls_on = true; input = h.lines }

  unfoldable pub handshake : Conn S → List Handshake → Conn S
  handshake c [] = c
  handshake c (h ∷ hs) = handshaken c h hs h.err

  unfoldable pub start_tls : Conn S × Option Error → Outcome S
  start_tls (c, none) = some (handshake c c.handshakes, none)
  start_tls (c, some e) = some (c, some e)

  -- upgradeTLS, the handler of STARTTLS
  unfoldable pub upgrade_tls : Conn S → Bytes → Outcome S
  upgrade_tls c line =
      if not env.tls_config
      then some (printf_line env c (reply rpl_tls_rejected (codes "TLS not supported")))
      else start_tls
          (printf_line env c (reply rpl_tls_continue (codes "Continue with TLS Negotiation")))

  -- is there such a group?
  unfoldable pub has_group : Bytes → Answer Bool
  has_group group =
      if newsgroup_valid group
      then elim env.db [ none ↦ answer true | some db ↦ db.has_newsgroup group ]
      else answer false

  unfoldable pub enter_group : Conn S → Bytes → Answer (ℕ × ℕ) → Conn S × Option Error
  enter_group c group (answer (hi, lo)) =
      set_group group (printf_line env c (group_reply group hi lo))
  enter_group c group (failed e) = printf_line env c (group_error e)

  unfoldable pub switch_to : Conn S → Bytes → Answer Bool → Conn S × Option Error
  switch_to c group (answer true) = enter_group c group (marks env.db group)
  switch_to c group (answer false) =
      printf_line env c (reply rpl_no_such_group (codes "no such newsgroup"))
  switch_to c group (failed e) = printf_line env c (group_error e)

  unfoldable pub switch_parts : Conn S → List Bytes → Conn S × Option Error
  switch_parts c (_ ∷ (group ∷ [])) = switch_to c group (has_group group)
  switch_parts c _ = switch_to c [] (answer false)

  -- switchNewsgroup, the handler of GROUP
  unfoldable pub switch_newsgroup : Conn S → Bytes → Outcome S
  switch_newsgroup c line = some (switch_parts c (split 32 line))
