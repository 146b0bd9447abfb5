-- ===== src/Daemon/Lines.antt =====
-- handleLine of src/srnd/nntp.go, and the loop of runConnection for a connection that a peer
-- opened.
pub mod Kept
pub mod Strangers
pub mod Returned
pub mod Crashes
use srndv.Base.{
  ℕ, ◌+◌, Bool, true, false, not, ◌&&◌, ◌||◌, Option, none, some, List, [], ◌∷◌, ◌++◌, ltb, ◌==◌,
  length, drop, if◌then◌else◌, Bytes, codes, lift_codes, same, split, has_prefix, to_upper, ℤ,
  half32, parse_int, join,
}
use srndv.Inbound.{Error, Answer, answer, failed}
use srndv.Daemon.{
  NntpDaemon, NntpConnection, Run, panics, blocks, returns, print_line, print_lines, replied,
  dot_writer,
}
use srndv.Daemon.Pending.{stream_answer}
use srndv.Daemon.Account.{mode_command, quit_command, authinfo_command, check_command}
use srndv.Daemon.Transfer.{takethis_command, ihave_command, post_command}
use srndv.Daemon.Reader.{article_command, head_command, stat_command, xover_command}
use srndv.Daemon.Groups.{listgroup_command, newsgroups_command, group_command, list_command}

-- A negative code has no meaning, like 1.
abbrev pub code_number : ℤ → ℕ
code_number (ℤ.pos n) = n
code_number (ℤ.negsuc n) = 1

abbrev pub first_word : List Bytes → Bytes
first_word [] = []
first_word (w ∷ ws) = w

-- the variable `msgid` of handleLine
unfoldable pub line_msgid : ℕ → List Bytes → Bytes
line_msgid code [] = []
line_msgid code (w ∷ []) = w
line_msgid code (w ∷ (v ∷ vs)) = if code == 0 then v else w

module _ {W : Type 0} (daemon : NntpDaemon W) where
  -- a command of two or more words: `cmd` is the first in capitals, `v` the second
  unfoldable pub word_command :
      Bytes → Bytes → Bytes → Bytes → List Bytes → NntpConnection W → Run W
  unfolding has_prefix mode_command quit_command authinfo_command check_command takethis_command
      article_command ihave_command listgroup_command newsgroups_command xover_command head_command
      group_command list_command stat_command
  word_command line msgid cmd v rest c =
      if same cmd (codes "MODE")
      then mode_command daemon v c
      else if has_prefix (codes "QUIT") line
      then quit_command daemon c
      else if same cmd (codes "AUTHINFO")
      then authinfo_command daemon line v rest c
      else if same cmd (codes "CHECK")
      then check_command daemon v c
      else if same cmd (codes "TAKETHIS")
      then takethis_command daemon msgid c
      else if same cmd (codes "ARTICLE")
      then article_command daemon msgid c
      else if same cmd (codes "IHAVE")
      then ihave_command daemon v c
      else if same cmd (codes "LISTGROUP")
      then listgroup_command daemon v c
      else if same cmd (codes "NEWSGROUPS")
      then newsgroups_command daemon c
      else if same cmd (codes "XOVER")
      then xover_command daemon c
      else if same cmd (codes "HEAD")
      then head_command daemon v c
      else if same cmd (codes "GROUP")
      then group_command daemon v c
      else if same cmd (codes "LIST") && same v (codes "NEWSGROUPS")
      then list_command daemon c
      else if same cmd (codes "STAT")
      then stat_command daemon v rest c
      else replied c (codes "500 Invalid command: " ++ cmd)

  -- a line of one word
  unfoldable pub lone_command : Bytes → NntpConnection W → Run W
  unfolding list_command post_command
  lone_command line c =
      if same line (codes "LIST")
      then list_command daemon c
      else if same line (codes "POST")
      then post_command daemon c
      else replied c (codes "500 wut?")

  unfoldable pub command : Bytes → Bytes → List Bytes → NntpConnection W → Run W
  unfolding word_command lone_command to_upper
  command line msgid (w ∷ (v ∷ rest)) c = word_command line msgid (to_upper w) v rest c
  command line msgid _ c = lone_command line c

  -- handleLine
  unfoldable pub handle_line : ℕ → Bytes → NntpConnection W → Run W
  unfolding split line_msgid stream_answer command
  handle_line code line c =
      let parts = split 32 line in
      let msgid = line_msgid code parts in
      stream_answer daemon code msgid c (command line msgid parts c)

  -- a line with a number in front, or one that is handled whole; `line[4:]` panics below four bytes
  abbrev pub numbered_line : Bytes → NntpConnection W → Option ℤ → Run W
  numbered_line line c (some n) =
      if ltb (length line) 4 then panics else handle_line (code_number n) (drop 4 line) c
  numbered_line line c none = handle_line 0 line c

  unfoldable pub any_line : Bytes → NntpConnection W → Run W
  unfolding split parse_int handle_line
  any_line line c = numbered_line line c (parse_int half32 (first_word (split 32 line)))

  abbrev pub started_tls : NntpConnection W → Answer (List Bytes) → NntpConnection W
  started_tls c (answer lines) = record c { input = lines; authenticated = true }
  started_tls c (failed e) = c

  abbrev pub capabilities : List Bytes
  capabilities =
      lift_codes (
        "VERSION 2" ∷ "READER" ∷ "STREAMING" ∷ "IMPLEMENTATION srndv2" ∷ "POST" ∷ "IHAVE"
        ∷ "AUTHINFO" ∷ [])
      ++ (if daemon.can_tls then codes "STARTTLS" ∷ [] else [])

  -- MODE before a mode is set
  unfoldable pub first_mode : List Bytes → NntpConnection W → NntpConnection W
  unfolding to_upper
  first_mode (_ ∷ (m ∷ [])) c =
      if same (to_upper m) (codes "READER")
      then record (print_line c (codes "200 Posting is Permitted awee yeh")) {
        mode = codes "READER";
      }
      else if same (to_upper m) (codes "STREAM")
      then (if not c.authenticated
          then print_line c (codes "483 Streaming Denied")
          else record (print_line c (codes "203 Stream it brah")) { mode = codes "STREAM" })
      else c
  first_mode _ c = c

  -- a line of a connection whose mode is not set
  unfoldable pub unset_line : Bytes → NntpConnection W → Run W
  unfolding split first_mode any_line
  unset_line line c =
      let parts = split 32 line in
      let cmd = first_word parts in
      if same cmd (codes "STARTTLS")
      then returns (started_tls c (daemon.starttls c.input)) none
      else if same cmd (codes "CAPABILITIES")
      then returns
          (record c {
            sent =
                c.sent
                ++ codes "101 i support to the following:" ∷ (capabilities ++ codes "." ∷ []);
          })
          none
      else if same cmd (codes "MODE")
      then returns (first_mode parts c) none
      else any_line line c

  -- One round of the loop: it goes on, or runConnection returns, or the call does not come back.
  pub data Turn : Type 0 where
    goes_on : NntpConnection W → Turn
    ends : NntpConnection W → Turn
    crashes : Turn
    hangs : Turn

  abbrev pub turn_of : Run W → Turn
  turn_of panics = crashes
  turn_of blocks = hangs
  turn_of (returns c none) = goes_on c
  turn_of (returns c (some e)) = ends c

  abbrev pub turn_line : Bytes → NntpConnection W → Turn
  turn_line line c =
      if has_prefix (codes "QUIT") line
      then ends (record (print_line c (codes "205 bai")) { is_open = false })
      else if same c.mode []
      then (if same line []
          then ends (record c { is_open = false })
          else turn_of (unset_line line c))
      else turn_of (any_line line c)

  abbrev pub turn_input : NntpConnection W → List Bytes → Turn
  turn_input c [] = ends (record c { is_open = false })
  turn_input c (line ∷ lines) = turn_line line (record c { input = lines })

  -- the loop of runConnection for an inbound connection, once through
  unfoldable pub turn : NntpConnection W → Turn
  unfolding has_prefix unset_line any_line
  turn c = turn_input c c.input
