-- ===== src/Inbound/Evolution/Handlers.antt =====
-- The handlers of lib/nntp/conn_v1.go for articles and modes, on every branch.
use srndv.Base.{
  ℕ, inl, inr, refl, Bool, true, false, Option, none, some, List, [], ◌∷◌, if◌then◌else◌, Bytes,
  same, split, Holds-bind-Holds,
}
use srndv.Nntp.Ident.{message_id_valid}
use srndv.Nntp.Mode.{mode_reader, mode_stream, is_mode, command_mode_reader, command_mode_stream}
use srndv.Nntp.Policy.{is_accept, is_defer, is_reject}
use srndv.Nntp.Stream.{event_valid, event_command, stream_check, stream_takethis, event_message_id}
use srndv.Inbound.{Error, Acceptor, Env, Conn, Outcome, printf_line, posting_allowed}
use srndv.Inbound.Article.{read_article}
use srndv.Inbound.Commands.{
  unless_hung, set_mode, posting_line, switch_mode_inbound, quit_connection, capabilities,
  send_lines, send_rest, send_capabilities, answer_transfer, answer_read, recv_article,
  recv_known_id, recv_parts, nntp_recv_article, answer_post, nntp_post_article, answer_check,
  stream_check_line, answer_takethis, stream_takethis_line, streaming_line, check_under,
}
use srndv.Inbound.Evolution.{
  IsMode, Evolves, Ensures, Evolves-refl, Evolves-trans, printf_line-Evolves, close-Evolves,
  read_article-Evolves,
}

pub if-Ensures :
    {S : Type 0} (env : Env S) (c : Conn S) (b : Bool) (x y : Outcome S)
    → Ensures (Evolves env c) x
    → Ensures (Evolves env c) y
    → Ensures (Evolves env c) (if b then x else y)
if-Ensures env c true x y p q = p
if-Ensures env c false x y p q = q

module _ {S : Type 0} {env : Env S} where
  -- if both branches evolve, so does the conditional
  pub if-Evolves :
      (c : Conn S) (b : Bool) (x y : Conn S × Option Error)
      → Evolves env c x.0
      → Evolves env c y.0
      → Evolves env c (if b then x else y).0
  if-Evolves c true x y p q = p
  if-Evolves c false x y p q = q

  set_mode-Evolves :
      (c : Conn S) (mode : Bytes) (r : Conn S × Option Error)
      → IsMode mode
      → Evolves env c r.0
      → Evolves env c (set_mode mode r).0
  set_mode-Evolves c mode (c', none) m h = record {
    stays_sane = λ s. record { proper_mode = m; proper_group = (h.stays_sane s).proper_group };
    reads_on = h.reads_on;
    sends_on = h.sends_on;
    gets_stuck = h.gets_stuck;
  }
  set_mode-Evolves c mode (c', some e) m h = h

module _ {S : Type 0} (env : Env S) where
  pub switch_mode_inbound-Evolves :
      (c : Conn S) (line : Bytes) → Ensures (Evolves env c) (switch_mode_inbound env c line)
  unfolding switch_mode_inbound
  switch_mode_inbound-Evolves c line =
      if-Ensures env c (is_mode line command_mode_reader) _ _
        (set_mode-Evolves c mode_reader _ (inr (inl refl))
          (printf_line-Evolves env c (posting_line c)))
        (if-Ensures env c (is_mode line command_mode_stream) _ _
          (set_mode-Evolves c mode_stream _ (inr (inr refl)) (printf_line-Evolves env c _))
          (printf_line-Evolves env c _))

  pub quit_connection-Evolves :
      (c : Conn S) (line : Bytes) → Ensures (Evolves env c) (quit_connection env c line)
  unfolding quit_connection
  quit_connection-Evolves c line = Evolves-trans (printf_line-Evolves env c _) (close-Evolves _)

  send_lines-Evolves : (ls : List Bytes) (c : Conn S) → Evolves env c (send_lines env c ls)
  unfolding send_lines
  send_lines-Evolves [] c = Evolves-refl c
  send_lines-Evolves (l ∷ ls) c =
      Evolves-trans (printf_line-Evolves env c l) (send_lines-Evolves ls (printf_line env c l).0)

  send_rest-Evolves :
      (c : Conn S) (r : Conn S × Option Error)
      → Evolves env c r.0
      → Ensures (Evolves env c) (send_rest env r)
  unfolding send_rest
  send_rest-Evolves c (c', none) h =
      Evolves-trans h
        (Evolves-trans (send_lines-Evolves (capabilities env) c') (printf_line-Evolves env _ _))
  send_rest-Evolves c (c', some e) h = h

  pub send_capabilities-Evolves :
      (c : Conn S) (line : Bytes) → Ensures (Evolves env c) (send_capabilities env c line)
  unfolding send_capabilities
  send_capabilities-Evolves c line = send_rest-Evolves c _ (printf_line-Evolves env c _)

  unless_hung-Evolves :
      (c : Conn S) (r : Conn S × Option Error)
      → Evolves env c r.0
      → Evolves env c (unless_hung c r).0
  unless_hung-Evolves c r h = if-Evolves c c.hung (c, none) r (Evolves-refl c) h

  answer_transfer-Evolves :
      (c : Conn S) (status : ℕ) → Evolves env c (answer_transfer env c status).0
  unfolding answer_transfer
  answer_transfer-Evolves c status =
      if-Evolves c (is_accept status) _ _ (printf_line-Evolves env c _) (
        if-Evolves c (is_defer status) _ _ (printf_line-Evolves env c _)
          (if-Evolves c (is_reject status) _ _ (printf_line-Evolves env c _) (Evolves-refl c)))

  answer_read-Evolves :
      (c : Conn S) (status : ℕ) (err : Option Error)
      → Evolves env c (answer_read env c status err).0
  unfolding answer_read
  answer_read-Evolves c status none = answer_transfer-Evolves c status
  answer_read-Evolves c status (some e) = printf_line-Evolves env c _

  recv_article-Evolves :
      (c : Conn S) (r : Conn S × Option Error)
      → Evolves env c r.0
      → Ensures (Evolves env c) (recv_article env r)
  unfolding recv_article
  recv_article-Evolves c (c', some e) h = h
  recv_article-Evolves c (c', none) h =
      Holds-bind-Holds _ _ (read_article env false c') _ (read_article-Evolves env false c') λ r k.
        Evolves-trans h
          (Evolves-trans k (unless_hung-Evolves r.0 _ (answer_read-Evolves r.0 r.1 r.2)))

  recv_parts-Evolves :
      (c : Conn S) (parts : List Bytes) → Ensures (Evolves env c) (recv_parts env c parts)
  unfolding recv_parts recv_known_id
  recv_parts-Evolves c (_ ∷ (msgid ∷ [])) =
      if-Ensures env c (message_id_valid msgid) _ _
        (recv_article-Evolves c _ (printf_line-Evolves env c _)) (printf_line-Evolves env c _)
  recv_parts-Evolves c _ = printf_line-Evolves env c _

  pub nntp_recv_article-Evolves :
      (c : Conn S) (line : Bytes) → Ensures (Evolves env c) (nntp_recv_article env c line)
  unfolding nntp_recv_article
  nntp_recv_article-Evolves c line = recv_parts-Evolves c (split 32 line)

  answer_post-Evolves :
      (c : Conn S) (status : ℕ) (err : Option Error)
      → Evolves env c (answer_post env c status err).0
  unfolding answer_post
  answer_post-Evolves c status (some e) = printf_line-Evolves env c _
  answer_post-Evolves c status none =
      if-Evolves c (is_accept status) _ _ (printf_line-Evolves env c _)
        (printf_line-Evolves env c _)

  pub nntp_post_article-Evolves :
      (c : Conn S) (line : Bytes) → Ensures (Evolves env c) (nntp_post_article env c line)
  unfolding nntp_post_article
  nntp_post_article-Evolves c line =
      if-Ensures env c (posting_allowed c) _ _
        (if-Ensures env c (is_mode c.state.mode mode_reader) _ _
          (Holds-bind-Holds _ _ (read_article env true _) _ (read_article-Evolves env true _) λ r k.
            Evolves-trans (printf_line-Evolves env c _)
              (Evolves-trans k (unless_hung-Evolves r.0 _ (answer_post-Evolves r.0 r.1 r.2))))
          (printf_line-Evolves env c _))
        (printf_line-Evolves env c _)

  answer_check-Evolves :
      (c : Conn S) (msgid : Bytes) (status : ℕ) → Evolves env c (answer_check env c msgid status).0
  unfolding answer_check
  answer_check-Evolves c msgid status =
      if-Evolves c (is_accept status) _ _ (printf_line-Evolves env c _) (
        if-Evolves c (is_defer status) _ _ (printf_line-Evolves env c _)
          (printf_line-Evolves env c _))

  check_under-Evolves :
      (o : Option Acceptor) (c : Conn S) (msgid : Bytes)
      → Evolves env c (check_under env o c msgid).0
  unfolding check_under
  check_under-Evolves none c msgid = printf_line-Evolves env c _
  check_under-Evolves (some acceptor) c msgid = answer_check-Evolves c msgid _

  answer_takethis-Evolves :
      (c : Conn S) (msgid : Bytes) (status : ℕ)
      → Evolves env c (answer_takethis env c msgid status).0
  unfolding answer_takethis
  answer_takethis-Evolves c msgid status =
      if-Evolves c (is_accept status) _ _ (printf_line-Evolves env c _)
        (printf_line-Evolves env c _)

  stream_takethis_line-Evolves :
      (c : Conn S) (msgid : Bytes) → Ensures (Evolves env c) (stream_takethis_line env c msgid)
  unfolding stream_takethis_line
  stream_takethis_line-Evolves c msgid =
      Holds-bind-Holds _ _ (read_article env false c) _ (read_article-Evolves env false c)
        λ r k. Evolves-trans k (unless_hung-Evolves r.0 _ (answer_takethis-Evolves r.0 msgid r.1))

  pub streaming_line-Evolves :
      (c : Conn S) (line : Bytes) → Ensures (Evolves env c) (streaming_line env c line)
  unfolding streaming_line stream_check_line
  streaming_line-Evolves c line =
      if-Ensures env c (is_mode c.state.mode mode_stream) _ _
        (if-Ensures env c (event_valid line) _ _
          (if-Ensures env c (same (event_command line) stream_check) _ _
            (check_under-Evolves env.acceptor c (event_message_id line))
            (if-Ensures env c (same (event_command line) stream_takethis) _ _
              (stream_takethis_line-Evolves c (event_message_id line)) (Evolves-refl c)))
          (printf_line-Evolves env c _))
        (if-Ensures env c (message_id_valid (event_message_id line)) _ _
          (printf_line-Evolves env c _) (printf_line-Evolves env c _))
