-- ===== src/Inbound/Commands/Streaming.antt =====
-- CHECK and TAKETHIS of lib/nntp/conn_v1.go.
use srndv.Base.{
  ℕ, ◌≡◌, inl, inr, refl, ap, Bool, true, false, Option, none, some, if◌then◌else◌, is_none,
  Option-cases, count_byte, same_refl, Bytes, same, arith,
}
use srndv.Nntp.Codes.{rpl_streaming_accept, rpl_streaming_defer, rpl_streaming_reject}
use srndv.Nntp.Ident.{message_id_valid, message_id_line}
use srndv.Nntp.Mode.{is_mode, mode_stream}
use srndv.Nntp.Policy.{policy_reject, is_accept, is_defer}
use srndv.Nntp.Stream.{
  event_valid, event_command, event_message_id, stream_check, stream_takethis, create_stream_event,
}
use srndv.Nntp.Stream.Laws.{create_stream_event_read}
use srndv.Inbound.{Acceptor, Env, Conn}
use srndv.Inbound.Commands.{
  reply, check_status, answer_check, check_under, stream_check_line, streaming_line,
}
use srndv.Inbound.Commands.Transfer.{IsWritable, after, printf_line-after}

-- the code for a CHECK: everything is wanted where there is no acceptor, nothing that is in the
-- storage, and of the rest what the acceptor says
abbrev pub check_code : Option Acceptor → Bool → Bytes → Bytes
check_code none stored msgid = rpl_streaming_accept
check_code (some acceptor) true msgid = rpl_streaming_reject
check_code (some acceptor) false msgid =
    if is_accept (acceptor.check_message_id msgid)
    then rpl_streaming_accept
    else if is_defer (acceptor.check_message_id msgid)
    then rpl_streaming_defer
    else rpl_streaming_reject

check_free : count_byte 32 stream_check ≡ 0
unfolding count_byte
check_free = refl

module _ {S : Type 0} (env : Env S) where
  answer_check-after :
      (c : Conn S) (msgid : Bytes) (status : ℕ)
      → IsWritable env c
      → answer_check env c msgid status ≡ (
        after c (
            reply
              (if is_accept status
                then rpl_streaming_accept
                else if is_defer status
                then rpl_streaming_defer
                else rpl_streaming_reject)
              msgid),
        none,
      )
  unfolding answer_check
  answer_check-after c msgid status w = ground (
    arith,
    printf_line-after env c (reply rpl_streaming_accept msgid) w,
    printf_line-after env c (reply rpl_streaming_defer msgid) w,
    printf_line-after env c (reply rpl_streaming_reject msgid) w,
  )

  check_under-after :
      (o : Option Acceptor) (c : Conn S) (msgid : Bytes)
      → IsWritable env c
      → check_under env o c msgid ≡ (
        after c
            (reply (check_code o (is_none (env.storage.has_article c.store msgid)) msgid) msgid),
        none,
      )
  unfolding check_under check_status is_accept is_defer
  check_under-after none c msgid w = printf_line-after env c (reply rpl_streaming_accept msgid) w
  check_under-after (some a) c msgid w =
      elim (Option-cases (env.storage.has_article c.store msgid)) [
        | inl there ↦ rw there (answer_check-after c msgid policy_reject w)
        | inr (e, missing) ↦ rw missing (answer_check-after c msgid (a.check_message_id msgid) w)
      ]

  -- CHECK of a valid id of one line in streaming mode, on a socket that takes every line: one line
  -- is sent, the id behind 238 where there is no acceptor; otherwise behind 438 if the storage
  -- holds the id, and if not behind 238, 431 or 438 as the acceptor accepts it, defers it or does
  -- neither.
  pub check_replies :
      (c : Conn S) (msgid : Bytes)
      → IsWritable env c
      → is_mode c.state.mode mode_stream ≡ true
      → message_id_line msgid ≡ true
      → streaming_line env c (create_stream_event stream_check msgid)
        ≡ some (
          after c (
              reply
                (check_code env.acceptor (is_none (env.storage.has_article c.store msgid)) msgid)
                msgid),
          none,
        )
  unfolding streaming_line stream_check_line
  check_replies c msgid w streaming valid =
      let (good, command, id) = create_stream_event_read stream_check msgid check_free valid in
      rw streaming (
        rw good
          (rw command (rw id (rw same_refl (ap some (check_under-after env.acceptor c msgid w))))))

  -- In streaming mode a well-formed line whose first word is neither CHECK nor TAKETHIS in capitals
  -- is not answered at all.
  pub other_word_unanswered :
      (c : Conn S) (line : Bytes)
      → is_mode c.state.mode mode_stream ≡ true
      → event_valid line ≡ true
      → same (event_command line) stream_check ≡ false
      → same (event_command line) stream_takethis ≡ false
      → streaming_line env c line ≡ some (c, none)
  unfolding streaming_line
  other_word_unanswered c line streaming good a b = rw streaming (rw good (rw a (rw b)))

  -- Outside streaming mode a line with a valid id is answered by 431, and nothing of an article
  -- that follows it is read.
  pub outside_streaming_defers :
      (c : Conn S) (line : Bytes)
      → IsWritable env c
      → is_mode c.state.mode mode_stream ≡ false
      → message_id_valid (event_message_id line) ≡ true
      → streaming_line env c line
        ≡ some (after c (reply rpl_streaming_defer (event_message_id line)), none)
  unfolding streaming_line
  outside_streaming_defers c line w other valid =
      rw other (rw valid (ap some (printf_line-after env c _ w)))
