-- ===== src/Outbound/Fetch/Bare.antt =====
-- DownloadGroup of lib/nntp/conn_v1.go from a peer that answers HEAD with the lines of the header
-- and a dot, as RFC 3977 has it: ReadHeader waits for an empty line.
use srndv.Base.{
  ◌≡◌, refl, sym, ap, ◌∙◌, true, false, none, some, List, [], ◌∷◌, ◌++◌, Bytes, has_prefix,
  append-nil, append_assoc,
}
use srndv.Header.{Header}
use srndv.Header.Io.{read_header, read_from, write_entries, start}
use srndv.Header.Io.Steps.{add_entries, read_from-entries}
use srndv.Header.Io.Steps
use srndv.Nntp.Codes.{rpl_no_such_group, rpl_overview, rpl_article_headers}
use srndv.Nntp.Ident.{message_id_valid}
use srndv.Inbound.{Error, Env, Conn, dot_read}
use srndv.Inbound.Commands.Transfer.{IsWritable, after, printf_line-after}
use srndv.Outbound.{readline, dot_error, cmd_group, cmd_xover, cmd_head}
use srndv.Outbound.Fetch.{
  overview, or_eof, head_read, head_reply, head_sent, fetch_head, fetch_heads, heads_read,
  overview_read, xover_reply, xover_sent, group_reply_read, group_sent, download_group,
}

-- a header without the empty line behind it is not complete
pub read_header-bare :
    (h : Header) → Steps.IsWritable h → (read_header (write_entries h)).complete ≡ false
unfolding read_header read_from
read_header-bare h w =
    ap (λ b. (read_from start b).complete) (sym (append-nil (write_entries h)))
    ∙ ap (λ r. r.complete) (read_from-entries h [] [] w)

module _ {S : Type 0} (env : Env S) where
  fetch_heads-bare :
      (c : Conn S) (m reply : Bytes) (ms lines : List Bytes)
      → IsWritable env c
      → message_id_valid m ≡ true
      → c.input ≡ reply ∷ lines
      → has_prefix rpl_article_headers reply ≡ true
      → (read_header (dot_read lines).0).complete ≡ false
      → fetch_heads env (m ∷ ms) c ≡ (
        after (record c { input = (dot_read lines).1 }) (cmd_head m),
        [],
        some (or_eof (dot_error lines)),
      )
  unfolding fetch_heads fetch_head head_sent head_reply head_read readline
  fetch_heads-bare c m reply ms lines w valid inp found cut =
      rw valid (rw (printf_line-after env c (cmd_head m) w) (rw inp (rw found (rw cut refl))))

  -- A peer that has the newsgroup, lists articles of which some are wanted, the first one under a
  -- valid id, and answers HEAD of that by the lines of its header and a dot, on a socket that
  -- takes every line: DownloadGroup ends with an error, and asks for no article.
  pub bare_header_ends_download :
      (format : Bytes → Bytes) (c : Conn S) (g m found head_found reply : Bytes)
      (ms listing lines : List Bytes) (h : Header)
      → IsWritable env c
      → c.input ≡ found ∷ head_found ∷ listing
      → has_prefix rpl_no_such_group found ≡ false
      → has_prefix rpl_overview head_found ≡ true
      → overview env c.store listing ≡ record { msgids = m ∷ ms; err = none; rest = reply ∷ lines }
      → message_id_valid m ≡ true
      → has_prefix rpl_article_headers reply ≡ true
      → (dot_read lines).0 ≡ write_entries h
      → Steps.IsWritable h
      → (d : Conn S) × (e : Error) × (download_group env format c g ≡ some (d, some e))
        × (d.sent ≡ c.sent ++ (format (cmd_group g) ∷ cmd_xover ∷ cmd_head m ∷ []))
  unfolding download_group group_sent group_reply_read xover_sent xover_reply overview_read readline
      heads_read
  bare_header_ends_download format c g m found head_found reply ms listing lines h w inp there over
        ids valid known bare p =
      let c1 : Conn S = record (after c (format (cmd_group g))) { input = head_found ∷ listing } in
      let w1 : IsWritable env c1 = record { opened = w.opened; takes = w.takes } in
      let c2 : Conn S = record (after c1 cmd_xover) { input = reply ∷ lines } in
      let w2 : IsWritable env c2 = record { opened = w.opened; takes = w.takes } in
      let cut = ap (λ b. (read_header b).complete) bare ∙ read_header-bare h p in
      (
        after (record c2 { input = (dot_read lines).1 }) (cmd_head m),
        or_eof (dot_error lines),
        rw (printf_line-after env c (format (cmd_group g)) w) (
            rw inp (
              rw there (
                rw (printf_line-after env c1 cmd_xover w1) (
                  rw over (
                    rw ids (
                      ap (heads_read env)
                        (fetch_heads-bare c2 m reply ms lines w2 valid refl known cut))))))),
        simp append_assoc,
      )
