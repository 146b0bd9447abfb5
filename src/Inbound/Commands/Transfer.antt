-- ===== src/Inbound/Commands/Transfer.antt =====
-- IHAVE of lib/nntp/conn_v1.go: the replies to a transfer, and the transfer that ends the process.
use srndv.Base.{
  ℕ, zero, suc, ◌+◌, ◌≡◌, ◌∙◌, if◌then◌else◌, Bool, refl, sym, ap, true, false, none, some, List,
  [], ◌∷◌, ◌++◌, Bytes, codes, split, arith, append-nil,
}
use srndv.Header.Io.{read_header}
use srndv.Nntp.Codes.{
  rpl_transfer_okay, rpl_transfer_accepted, rpl_transfer_defer, rpl_transfer_reject,
}
use srndv.Nntp.Ident.{message_id_valid}
use srndv.Nntp.Policy.{is_accept, is_defer, is_reject}
use srndv.Inbound.{Env, Conn, write_result, printf_line, dot_read}
use srndv.Inbound.Article.{read_article}
use srndv.Inbound.Article.Parsed.{read_article_panics}
use srndv.Inbound.Commands.{
  reply, answer_transfer, answer_read, recv_article, recv_known_id, recv_parts, nntp_recv_article,
}

-- the connection is open and the socket takes every line
pub record IsWritable {S : Type 0} (env : Env S) (c : Conn S) : Type 0 where
  pub opened : c.state.is_open ≡ true
  pub takes : (n : ℕ) → env.write_error n ≡ none

-- the connection after a line that the socket took
abbrev pub after : {S : Type 0} → Conn S → Bytes → Conn S
after c line = record c { writes = c.writes + 1; sent = c.sent ++ line ∷ [] }

pub if-false : {A : Type 0} (b : Bool) (x y : A) → b ≡ false → (if b then x else y) ≡ y
if-false b x y e = rw e refl

module _ {S : Type 0} (env : Env S) where
  pub write_result-none : (c : Conn S) → IsWritable env c → write_result env c ≡ none
  unfolding write_result
  write_result-none c w = rw w.opened (w.takes c.writes)

  pub printf_line-after :
      (c : Conn S) (line : Bytes) → IsWritable env c → printf_line env c line ≡ (after c line, none)
  unfolding printf_line
  printf_line-after c line w = rw (write_result-none c w)

  abbrev pub line_transfer_accepted : Bytes
  line_transfer_accepted = reply rpl_transfer_accepted (codes "send article to be transfered")

  -- what is sent for each status, by its number
  abbrev pub transfer_replies : ℕ → List Bytes
  transfer_replies zero = reply rpl_transfer_okay (codes "transfer wuz gud") ∷ []
  transfer_replies (suc zero) =
      reply rpl_transfer_reject (codes "transfer rejected, don't send it again brah") ∷ []
  transfer_replies (suc (suc zero)) = reply rpl_transfer_defer (codes "transfer defer") ∷ []
  transfer_replies (suc (suc (suc zero))) =
      reply rpl_transfer_reject (codes "transfer rejected, don't send it again brah") ∷ []
  transfer_replies (suc (suc (suc (suc n)))) = []

  answer_transfer-none :
      (c : Conn S) (n : ℕ) → answer_transfer env c (suc (suc (suc (suc n)))) ≡ (c, none)
  unfolding answer_transfer is_accept is_defer is_reject
  answer_transfer-none c n = ground arith

  answer_transfer-sent :
      (c : Conn S) (status : ℕ)
      → IsWritable env c
      → ((answer_transfer env c status).0.sent ≡ c.sent ++ transfer_replies status)
        × ((answer_transfer env c status).1 ≡ none)
  unfolding answer_transfer is_accept is_defer is_reject
  answer_transfer-sent c zero w = rw (printf_line-after c _ w) (refl, refl)
  answer_transfer-sent c (suc zero) w = rw (printf_line-after c _ w) (refl, refl)
  answer_transfer-sent c (suc (suc zero)) w = rw (printf_line-after c _ w) (refl, refl)
  answer_transfer-sent c (suc (suc (suc zero))) w = rw (printf_line-after c _ w) (refl, refl)
  answer_transfer-sent c (suc (suc (suc (suc n)))) w =
      rw (answer_transfer-none c n) (sym (append-nil c.sent), refl)

  recv_parts-eq :
      (c : Conn S) (word msgid : Bytes)
      → IsWritable env c
      → message_id_valid msgid ≡ true
      → recv_parts env c (word ∷ msgid ∷ [])
        ≡ recv_article env (after c line_transfer_accepted, none)
  unfolding recv_parts recv_known_id
  recv_parts-eq c word msgid w valid =
      rw valid (ap (recv_article env) (printf_line-after c line_transfer_accepted w))

  -- IHAVE of a valid id on a connection whose socket takes every line, when the peer then ends its
  -- article before the empty line that ends the header: the process panics.
  pub ihave_panics :
      (c : Conn S) (line word msgid : Bytes)
      → IsWritable env c
      → split 32 line ≡ word ∷ msgid ∷ []
      → message_id_valid msgid ≡ true
      → (read_header (dot_read c.input).0).complete ≡ false
      → nntp_recv_article env c line ≡ none
  unfolding nntp_recv_article recv_article
  ihave_panics c line word msgid w words valid cut = rw words (
      rw (recv_parts-eq c word msgid w valid)
        (rw ((read_article_panics env false (after c line_transfer_accepted)).1 cut)))

  -- IHAVE of a valid id on a connection whose socket takes every line, when the article that
  -- follows gets a status: 335 is sent, and then one line, 235 for ACCEPT, 436 for DEFER and 437
  -- for REJECT and BAN, and no line at all for a status that is none of the four.
  pub ihave_replies :
      (c d : Conn S) (line word msgid : Bytes) (status : ℕ)
      → IsWritable env c
      → split 32 line ≡ word ∷ msgid ∷ []
      → message_id_valid msgid ≡ true
      → read_article env false (after c line_transfer_accepted) ≡ some (d, status, none)
      → IsWritable env d
      → d.hung ≡ false
      → (d' : Conn S) × (nntp_recv_article env c line ≡ some (d', none))
        × (d'.sent ≡ d.sent ++ transfer_replies status)
  unfolding nntp_recv_article recv_article answer_read
  ihave_replies c d line word msgid status w words valid read w' goes_on = (
    (answer_transfer env d status).0,
    rw words (
        rw (recv_parts-eq c word msgid w valid) (
          rw read (
            ap some (if-false d.hung (d, none) (answer_transfer env d status) goes_on)
            ∙ ap (λ e. some ((answer_transfer env d status).0, e))
                (answer_transfer-sent d status w').1))),
    (answer_transfer-sent d status w').0,
  )
