-- ===== src/Inbound/Evolution/Panics.antt =====
-- When the handlers of lib/nntp/conn_v1.go panic: only where an article is cut off in its header.
use srndv.Base.{
  ◌≡◌, refl, Bool, true, false, Option, none, some, List, [], ◌∷◌, if◌then◌else◌, ◌>>=◌, Bytes,
  same, split,
}
use srndv.Header.Io.{read_header}
use srndv.Header.Io.Sound.{Returns}
use srndv.Nntp.Ident.{message_id_valid}
use srndv.Nntp.Mode.{is_mode, mode_reader, mode_stream, command_mode_reader, command_mode_stream}
use srndv.Nntp.Stream.{event_valid, event_command, event_message_id, stream_check, stream_takethis}
use srndv.Inbound.{Error, Env, Conn, dot_read, posting_allowed, put_line, printf_line, write_result}
use srndv.Inbound.Article.{read_article}
use srndv.Inbound.Article.Parsed.{Article_of_complete, read_article-deliver}
use srndv.Inbound.Commands.{
  switch_mode_inbound, quit_connection, send_rest, send_capabilities, recv_article, recv_known_id,
  recv_parts, nntp_recv_article, nntp_post_article, stream_takethis_line, streaming_line,
}
use srndv.Inbound.Groups.{newsgroup_list, start_tls, upgrade_tls, switch_newsgroup}
use srndv.Inbound.Process.{
  Command, starttls, ihave, post, mode, quit, capabilities, check, takethis, list, group, handler,
  dispatch, handle_line, find_command, command_word, table,
}

-- the article that the peer sends next has the end of its header
abbrev pub IsWhole : {S : Type 0} → Conn S → Type 0
IsWhole c = (read_header (dot_read c.input).0).complete ≡ true

Returns-if :
    {A : Type 0} (b : Bool) (x y : Option A) → Returns x → Returns y → Returns (if b then x else y)
Returns-if true x y p q = p
Returns-if false x y p q = q

Returns-bind :
    {A B : Type 0} (o : Option A) (f : A → B) → Returns o → Returns (o >>= (λ a. some (f a)))
Returns-bind o f (a, e) = (f a, rw e refl)

module _ {S : Type 0} (env : Env S) where
  read_article-Returns :
      (newpost : Bool) (c : Conn S) → IsWhole c → Returns (read_article env newpost c)
  read_article-Returns newpost c h = (_, read_article-deliver (Article_of_complete env newpost c h))

  put_line-IsWhole :
      (c : Conn S) (e : Option Error) (line : Bytes) → IsWhole c → IsWhole (put_line c e line).0
  put_line-IsWhole c none line h = h
  put_line-IsWhole c (some e) line h = h

  printf_line-IsWhole : (c : Conn S) (line : Bytes) → IsWhole c → IsWhole (printf_line env c line).0
  unfolding printf_line
  printf_line-IsWhole c line h = put_line-IsWhole c (write_result env c) line h

  recv_article-Returns : (r : Conn S × Option Error) → IsWhole r.0 → Returns (recv_article env r)
  unfolding recv_article
  recv_article-Returns (c, some e) h = (_, refl)
  recv_article-Returns (c, none) h = Returns-bind _ _ (read_article-Returns false c h)

  recv_parts-Returns : (c : Conn S) (ws : List Bytes) → IsWhole c → Returns (recv_parts env c ws)
  unfolding recv_parts recv_known_id
  recv_parts-Returns c [] h = (_, refl)
  recv_parts-Returns c (a ∷ []) h = (_, refl)
  recv_parts-Returns c (a ∷ (msgid ∷ [])) h =
      Returns-if (message_id_valid msgid) _ _ (recv_article-Returns _ (printf_line-IsWhole c _ h))
        (_, refl)
  recv_parts-Returns c (a ∷ (b ∷ (d ∷ ws))) h = (_, refl)

  nntp_post_article-Returns :
      (c : Conn S) (line : Bytes) → IsWhole c → Returns (nntp_post_article env c line)
  unfolding nntp_post_article
  nntp_post_article-Returns c line h =
      Returns-if (posting_allowed c) _ _
        (Returns-if (is_mode c.state.mode mode_reader) _ _
          (Returns-bind _ _ (read_article-Returns true _ (printf_line-IsWhole c _ h))) (_, refl))
        (_, refl)

  streaming_line-Returns :
      (c : Conn S) (line : Bytes) → IsWhole c → Returns (streaming_line env c line)
  unfolding streaming_line stream_takethis_line
  streaming_line-Returns c line h =
      Returns-if (is_mode c.state.mode mode_stream) _ _
        (Returns-if (event_valid line) _ _
          (Returns-if (same (event_command line) stream_check) _ _ (_, refl)
            (Returns-if (same (event_command line) stream_takethis) _ _
              (Returns-bind _ _ (read_article-Returns false c h)) (_, refl)))
          (_, refl))
        (Returns-if (message_id_valid (event_message_id line)) _ _ (_, refl) (_, refl))

  switch_mode_inbound-Returns :
      (c : Conn S) (line : Bytes) → Returns (switch_mode_inbound env c line)
  unfolding switch_mode_inbound
  switch_mode_inbound-Returns c line =
      Returns-if (is_mode line command_mode_reader) _ _ (_, refl)
        (Returns-if (is_mode line command_mode_stream) _ _ (_, refl) (_, refl))

  send_rest-Returns : (r : Conn S × Option Error) → Returns (send_rest env r)
  unfolding send_rest
  send_rest-Returns (c, none) = (_, refl)
  send_rest-Returns (c, some e) = (_, refl)

  start_tls-Returns : (r : Conn S × Option Error) → Returns (start_tls env r)
  unfolding start_tls
  start_tls-Returns (c, none) = (_, refl)
  start_tls-Returns (c, some e) = (_, refl)

  handler-Returns :
      (cmd : Command) (c : Conn S) (line : Bytes) → IsWhole c → Returns (handler env cmd c line)
  unfolding handler upgrade_tls nntp_recv_article quit_connection send_capabilities newsgroup_list
      switch_newsgroup
  handler-Returns starttls c line h = Returns-if _ _ _ (_, refl) (start_tls-Returns _)
  handler-Returns ihave c line h = recv_parts-Returns c (split 32 line) h
  handler-Returns post c line h = nntp_post_article-Returns c line h
  handler-Returns mode c line h = switch_mode_inbound-Returns c line
  handler-Returns quit c line h = (_, refl)
  handler-Returns capabilities c line h = send_rest-Returns _
  handler-Returns check c line h = streaming_line-Returns c line h
  handler-Returns takethis c line h = streaming_line-Returns c line h
  handler-Returns list c line h = (_, refl)
  handler-Returns group c line h = (_, refl)

  dispatch-Returns :
      (o : Option Command) (c : Conn S) (line : Bytes) → IsWhole c → Returns (dispatch env o c line)
  unfolding dispatch
  dispatch-Returns (some cmd) c line h = handler-Returns cmd c line h
  dispatch-Returns none c line h = (_, refl)

  -- No line makes the process panic, whatever the command, the network, the storage, the database
  -- and the acceptor, as long as the lines that follow, read as an article, hold the end of a
  -- header: an article that is cut off before that is the only cause of a panic in a handler.
  pub handle_line-Returns :
      (c : Conn S) (line : Bytes) → IsWhole c → Returns (handle_line env c line)
  unfolding handle_line
  handle_line-Returns c line h = dispatch-Returns (find_command (command_word line) table) c line h
