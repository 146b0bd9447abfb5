-- ===== src/Inbound/Process/Dispatch.antt =====
-- The lines that reach the handlers of lib/nntp/conn_v1.go.
use mathlib.Core.List.{map-append}
use srndv.Base.{
  ℕ, suc, ◌≡◌, refl, ap, ◌∙◌, true, false, none, some, List, ◌∷◌, ◌++◌, Bytes, codes, same, split,
  split-append, count_byte, to_upper, upper_byte,
}
use srndv.Header.Io.{read_header}
use srndv.Nntp.Codes.{rpl_unknown_command, rpl_streaming_defer}
use srndv.Nntp.Ident.{message_id_valid, message_id_line}
use srndv.Nntp.Mode.{is_mode, mode_stream}
use srndv.Nntp.Ident.Language.{message_id_line-valid}
use srndv.Nntp.Stream.{stream_check, stream_takethis, first_or_nil}
use srndv.Nntp.Stream.Laws.{event_read, split-event}
use srndv.Inbound.{Env, Conn, dot_read, next_line}
use srndv.Inbound.Commands.{reply}
use srndv.Inbound.Commands.Transfer.{IsWritable, if-false, after, printf_line-after, ihave_panics}
use srndv.Inbound.Commands.Streaming.{other_word_unanswered, outside_streaming_defers}
use srndv.Inbound.Process.{
  Command, ihave, check, takethis, panicked, waiting, find_command, command_word, table, handler,
  dispatch, handle_line, resume, process,
}

-- The first word, in upper case, of a line with a space.
pub command_word_lem :
    (w rest upper : Bytes)
    → to_upper w ≡ upper
    → count_byte 32 upper ≡ 0
    → command_word (w ++ (32 ∷ rest)) ≡ upper
unfolding command_word to_upper upper_byte
command_word_lem w rest upper e free =
    ap (λ s. first_or_nil (split 32 s))
      (map-append upper_byte w (32 ∷ rest) ∙ ap (λ u. u ++ (32 ∷ to_upper rest)) e)
    ∙ ap first_or_nil (split-append 32 upper (to_upper rest) free)

find_check : find_command stream_check table ≡ some check
unfolding find_command same
find_check = refl

find_takethis : find_command stream_takethis table ≡ some takethis
unfolding find_command same
find_takethis = refl

find_ihave : find_command (codes "IHAVE") table ≡ some ihave
unfolding find_command same
find_ihave = refl

module _ {S : Type 0} (env : Env S) where
  handle_line-command :
      (c : Conn S) (w rest upper : Bytes) {cmd : Command}
      → to_upper w ≡ upper
      → count_byte 32 upper ≡ 0
      → find_command upper table ≡ some cmd
      → handle_line env c (w ++ (32 ∷ rest)) ≡ handler env cmd c (w ++ (32 ∷ rest))
  unfolding handle_line dispatch
  handle_line-command c w rest upper e free found =
      rw (command_word_lem w rest upper e free) (rw found)

  -- A line whose first word is no command in any case is answered by 500 and the line, on a socket
  -- that takes every line, and changes nothing else.
  pub unknown_command_answered :
      (c : Conn S) (line : Bytes)
      → IsWritable env c
      → find_command (command_word line) table ≡ none
      → handle_line env c line
        ≡ some (after c (reply rpl_unknown_command (codes "Unknown Command: " ++ line)), none)
  unfolding handle_line dispatch
  unknown_command_answered c line w missing = rw missing (ap some (printf_line-after env c _ w))

  -- Commands are found in any case, but streaming commands are compared in capitals: in streaming
  -- mode CHECK of a valid id, written in any other case, is taken and never answered.
  pub lower_case_check_unanswered :
      (c : Conn S) (w msgid : Bytes)
      → is_mode c.state.mode mode_stream ≡ true
      → message_id_line msgid ≡ true
      → to_upper w ≡ stream_check
      → count_byte 32 w ≡ 0
      → same w stream_check ≡ false
      → same w stream_takethis ≡ false
      → handle_line env c (w ++ (32 ∷ msgid)) ≡ some (c, none)
  unfolding handler
  lower_case_check_unanswered c w msgid streaming valid upper free other other' =
      let (good, command, id) = event_read w msgid free valid in
      handle_line-command c w msgid stream_check upper (unfold count_byte in refl) find_check
      ∙ other_word_unanswered env c (w ++ (32 ∷ msgid)) streaming good
          (ap (λ x. same x stream_check) command ∙ other)
          (ap (λ x. same x stream_takethis) command ∙ other')

  -- Outside streaming mode TAKETHIS of a valid id is answered by 431 on a socket that takes every
  -- line, and the article that its peer sends with it is not read: Process takes the first line of
  -- the article for the next command.
  pub takethis_article_read_as_commands :
      (fuel : ℕ) (c : Conn S) (msgid : Bytes) (article : List Bytes)
      → IsWritable env c
      → c.hung ≡ false
      → is_mode c.state.mode mode_stream ≡ false
      → message_id_line msgid ≡ true
      → c.input ≡ (stream_takethis ++ (32 ∷ msgid)) ∷ article
      → process env (suc fuel) c
        ≡ process env fuel (after (record c { input = article }) (reply rpl_streaming_defer msgid))
  unfolding process next_line resume handler
  takethis_article_read_as_commands fuel c msgid article w goes_on other valid lines =
      let c' : Conn S = record c { input = article } in
      let (good, command, id) =
        event_read stream_takethis msgid (unfold count_byte in refl) valid in
      rw lines (
        ap (resume (process env fuel)) (
          handle_line-command c' stream_takethis msgid stream_takethis
            (unfold to_upper upper_byte in refl) (unfold count_byte in refl) find_takethis
          ∙ outside_streaming_defers env c' (stream_takethis ++ (32 ∷ msgid))
              (record { opened = w.opened; takes = w.takes }) other
              (ap message_id_valid id ∙ message_id_line-valid msgid valid)
          ∙ ap (λ x. some (after c' (reply rpl_streaming_defer x), none)) id)
        ∙ if-false c.hung (waiting (after c' (reply rpl_streaming_defer msgid)))
            (process env fuel (after c' (reply rpl_streaming_defer msgid))) goes_on)

  -- Two lines end the process: IHAVE of a valid id of one line and then an article that ends
  -- before its header does, a line of one dot say, on a socket that takes every line.
  pub process_panics :
      (fuel : ℕ) (c : Conn S) (msgid : Bytes) (article : List Bytes)
      → IsWritable env c
      → message_id_line msgid ≡ true
      → c.input ≡ (codes "IHAVE" ++ (32 ∷ msgid)) ∷ article
      → (read_header (dot_read article).0).complete ≡ false
      → process env (suc fuel) c ≡ panicked
  unfolding process next_line resume handler
  process_panics fuel c msgid article w valid lines cut =
      let c' : Conn S = record c { input = article } in
      rw lines (
        ap (resume (process env fuel)) (
          handle_line-command c' (codes "IHAVE") msgid (codes "IHAVE")
            (unfold to_upper upper_byte in refl) (unfold count_byte in refl) find_ihave
          ∙ ihave_panics env c' (codes "IHAVE" ++ (32 ∷ msgid)) (codes "IHAVE") msgid
              (record { opened = w.opened; takes = w.takes })
              (split-event (codes "IHAVE") msgid (unfold count_byte in refl) valid)
              (message_id_line-valid msgid valid) cut))
