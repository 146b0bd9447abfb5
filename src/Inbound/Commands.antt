-- ===== src/Inbound/Commands.antt =====
-- The handlers of lib/nntp/conn_v1.go that take articles, switch modes and end a connection.
pub mod Transfer
pub mod Posting
pub mod Streaming
use srndv.Base.{
  ℕ, Bool, true, false, Option, none, some, List, [], ◌∷◌, ◌++◌, if◌then◌else◌, is_none, ◌>>=◌,
  Bytes, codes, same, split,
}
use srndv.Nntp.Codes.{
  rpl_capabilities, rpl_transfer_okay, rpl_streaming_accept, rpl_streaming_transfered,
  rpl_post_received, line_posting_allowed, line_posting_not_allowed, rpl_transfer_accepted,
  rpl_post_accepted, rpl_wrong_mode, rpl_streaming_defer, rpl_transfer_not_wanted,
  rpl_transfer_defer, rpl_transfer_reject, rpl_streaming_reject, rpl_posting_not_permitted,
  rpl_posting_failed, rpl_syntax_error, line_invalid_mode, line_streaming_allowed, line_rpl_quit,
}
use srndv.Nntp.Ident.{message_id_valid}
use srndv.Nntp.Mode.{mode_reader, mode_stream, is_mode, command_mode_reader, command_mode_stream}
use srndv.Nntp.Policy.{policy_accept, policy_reject, is_accept, is_defer, is_reject}
use srndv.Nntp.Stream.{event_valid, event_command, event_message_id, stream_check, stream_takethis}
use srndv.Store.{Storage, StoreError}
use srndv.Inbound.{
  Error, Acceptor, Env, ConnState, Conn, Outcome, posting_allowed, close, printf_line,
}
use srndv.Inbound.Article.{read_article}

-- "%s %s"
abbrev pub reply : Bytes → Bytes → Bytes
reply code text = code ++ (32 ∷ text)

module _ {S : Type 0} where
  abbrev pub set_mode : Bytes → Conn S × Option Error → Conn S × Option Error
  set_mode mode (c, none) = (record c { state = record c.state { mode = mode } }, none)
  set_mode mode (c, some e) = (c, some e)

  abbrev pub posting_line : Conn S → Bytes
  posting_line c = if posting_allowed c then line_posting_allowed else line_posting_not_allowed

  -- a call of readArticle that waits for ever has nothing come after it
  abbrev pub unless_hung : Conn S → Conn S × Option Error → Conn S × Option Error
  unless_hung c r = if c.hung then (c, none) else r

module _ {S : Type 0} (env : Env S) where
  -- switchModeInbound
  unfoldable pub switch_mode_inbound : Conn S → Bytes → Outcome S
  switch_mode_inbound c line =
      if is_mode line command_mode_reader
      then some (set_mode mode_reader (printf_line env c (posting_line c)))
      else if is_mode line command_mode_stream
      then some (set_mode mode_stream (printf_line env c line_streaming_allowed))
      else some (printf_line env c line_invalid_mode)

  -- quitConnection
  unfoldable pub quit_connection : Conn S → Bytes → Outcome S
  quit_connection c line = let (c', err) = printf_line env c line_rpl_quit in some (close c', err)

  abbrev pub capabilities : List Bytes
  capabilities =
      codes "MODE-READER"
      ∷ codes "IMPLEMENTATION nntpchand"
      ∷ codes "STREAMING"
      ∷ (if env.tls_config then codes "STARTTLS" ∷ [] else [])

  -- the loop of sendCapabilities, which logs an error and goes on
  unfoldable pub send_lines : Conn S → List Bytes → Conn S
  send_lines c [] = c
  send_lines c (l ∷ ls) = send_lines (printf_line env c l).0 ls

  unfoldable pub send_rest : Conn S × Option Error → Outcome S
  send_rest (c, none) = some (printf_line env (send_lines c capabilities) (codes "."))
  send_rest (c, some e) = some (c, some e)

  unfoldable pub send_capabilities : Conn S → Bytes → Outcome S
  send_capabilities c line =
      send_rest (printf_line env c (reply rpl_capabilities (codes "We can do things")))

  -- the answer to a transfer by IHAVE; no status but the four named ones is answered at all
  unfoldable pub answer_transfer : Conn S → ℕ → Conn S × Option Error
  answer_transfer c status =
      if is_accept status
      then printf_line env c (reply rpl_transfer_okay (codes "transfer wuz gud"))
      else if is_defer status
      then printf_line env c (reply rpl_transfer_defer (codes "transfer defer"))
      else if is_reject status
      then printf_line env c
          (reply rpl_transfer_reject (codes "transfer rejected, don't send it again brah"))
      else (c, none)

  unfoldable pub answer_read : Conn S → ℕ → Option Error → Conn S × Option Error
  answer_read c status none = answer_transfer c status
  answer_read c status (some e) =
      printf_line env c (reply rpl_transfer_defer (codes "transfer failed; try again later"))

  unfoldable pub recv_article : Conn S × Option Error → Outcome S
  recv_article (c, some e) = some (c, some e)
  recv_article (c, none) = do
    (c', status, err) ← read_article env false c
    some (unless_hung c' (answer_read c' status err))

  unfoldable pub recv_known_id : Conn S → Outcome S
  recv_known_id c =
      recv_article
        (printf_line env c (reply rpl_transfer_accepted (codes "send article to be transfered")))

  unfoldable pub recv_parts : Conn S → List Bytes → Outcome S
  recv_parts c (_ ∷ (msgid ∷ [])) =
      if message_id_valid msgid
      then recv_known_id c
      else some (printf_line env c (reply rpl_transfer_not_wanted (codes "article not wanted")))
  recv_parts c _ = some (printf_line env c (reply rpl_syntax_error (codes "invalid syntax")))

  -- nntpRecvArticle, the handler of IHAVE
  unfoldable pub nntp_recv_article : Conn S → Bytes → Outcome S
  nntp_recv_article c line = recv_parts c (split 32 line)

  unfoldable pub answer_post : Conn S → ℕ → Option Error → Conn S × Option Error
  answer_post c status (some e) =
      printf_line env c (reply rpl_posting_failed (codes "post failed: " ++ e))
  answer_post c status none =
      if is_accept status
      then printf_line env c (reply rpl_post_received (codes "post was recieved"))
      else printf_line env c (reply rpl_posting_failed (codes "posting failed"))

  -- nntpPostArticle, the handler of POST; the error of its first line is not looked at
  unfoldable pub nntp_post_article : Conn S → Bytes → Outcome S
  nntp_post_article c line =
      if posting_allowed c
      then (if is_mode c.state.mode mode_reader
          then (do
            (c', status, err) ←
                read_article env true
                  (printf_line env c (reply rpl_post_accepted (codes "go ahead yo"))).0
            some (unless_hung c' (answer_post c' status err)))
          else some (printf_line env c (reply rpl_wrong_mode (codes "not in reader mode"))))
      else some
          (printf_line env c (reply rpl_posting_not_permitted (codes "posting is disallowed")))

  -- the status of CHECK under an acceptor, from what the storage answers
  unfoldable pub check_status : Acceptor → Option StoreError → Bytes → ℕ
  check_status acceptor none msgid = policy_reject
  check_status acceptor (some e) msgid = acceptor.check_message_id msgid

  unfoldable pub answer_check : Conn S → Bytes → ℕ → Conn S × Option Error
  answer_check c msgid status =
      if is_accept status
      then printf_line env c (reply rpl_streaming_accept msgid)
      else if is_defer status
      then printf_line env c (reply rpl_streaming_defer msgid)
      else printf_line env c (reply rpl_streaming_reject msgid)

  unfoldable pub check_under : Option Acceptor → Conn S → Bytes → Conn S × Option Error
  check_under none c msgid = printf_line env c (reply rpl_streaming_accept msgid)
  check_under (some acceptor) c msgid =
      answer_check c msgid (check_status acceptor (env.storage.has_article c.store msgid) msgid)

  unfoldable pub stream_check_line : Conn S → Bytes → Conn S × Option Error
  stream_check_line c msgid = check_under env.acceptor c msgid

  unfoldable pub answer_takethis : Conn S → Bytes → ℕ → Conn S × Option Error
  answer_takethis c msgid status =
      if is_accept status
      then printf_line env c (reply rpl_streaming_transfered msgid)
      else printf_line env c (reply rpl_streaming_reject msgid)

  unfoldable pub stream_takethis_line : Conn S → Bytes → Outcome S
  stream_takethis_line c msgid = do
    (c', status, err) ← read_article env false c
    some (unless_hung c' (answer_takethis c' msgid status))

  -- streamingLine, the handler of CHECK and TAKETHIS
  unfoldable pub streaming_line : Conn S → Bytes → Outcome S
  streaming_line c line =
      let msgid = event_message_id line in
      if is_mode c.state.mode mode_stream
      then (if event_valid line
          then (if same (event_command line) stream_check
              then some (stream_check_line c msgid)
              else if same (event_command line) stream_takethis
              then stream_takethis_line c msgid
              else some (c, none))
          else some (printf_line env c (reply rpl_syntax_error (codes "Invalid syntax"))))
      else if message_id_valid msgid
      then some (printf_line env c (reply rpl_streaming_defer msgid))
      else some (printf_line env c (reply rpl_syntax_error (codes "Invalid Syntax")))
