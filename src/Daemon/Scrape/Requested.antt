-- ===== src/Daemon/Scrape/Requested.antt =====
-- What the daemon takes from a server that it scrapes, in src/srnd/nntp.go.
use srndv.Base.{
  ℕ, ◌≡◌, ◌⊎◌, inl, inr, refl, sym, ap, ◌∙◌, true, Option, none, some, List, [], ◌∷◌, ◌++◌,
  if◌then◌else◌, is_none, Bytes, codes, same, Bool-cases, ◌==◌, subst,
}
use srndv.Header.{Header}
use srndv.Inbound.{Error}
use srndv.Daemon.{NntpDaemon, NntpConnection, Body, print_line}
use srndv.Daemon.Mime.{dot_reader, text_of, read_mime_header, get_message_id}
use srndv.Daemon.Wanted.{facts, check_mime_header_no_auth, check_facts}
use srndv.Daemon.Wanted.Accepted.{is_acceptable, is_nil, check_facts_lem}
use srndv.Daemon.Deliver.{store_message, stored_header}
use srndv.Daemon.Deliver.Stored.{Written, stored, dropped, duplicate, removed, store_message_lem}
use srndv.Daemon.Dial.{Reply, code_line_of, read_code_line}
use srndv.Daemon.Scrape.{keep_requested, requested, request_read, request_article}

same_nil : (s : Bytes) → same s [] ≡ is_nil s
unfolding same
same_nil [] = refl
same_nil (c ∷ s) = refl

module _ {W : Type 0} (daemon : NntpDaemon W) where
  -- The daemon is told of nothing, or of one article that is acceptable and in the store.
  abbrev pub Took : W → NntpConnection W → NntpConnection W → Type 0
  Took w c c' =
      (c'.infeed ≡ c.infeed)
      ⊎ ((hdr : Header) × (body : Body) × (w' : W) × (is_acceptable daemon w (facts hdr) ≡ true)
          × Written daemon w w' (get_message_id hdr) (stored_header daemon hdr) body
          × (c'.infeed ≡ c.infeed ++ get_message_id hdr ∷ []))

  keep_requested-infeed :
      (msgid : Bytes) (r : NntpConnection W × Option Error)
      → (keep_requested daemon msgid r).infeed ≡ r.0.infeed
  keep_requested-infeed msgid (c, none) = refl
  keep_requested-infeed msgid (c, some e) = refl

  stored-Took :
      (msgid : Bytes) (hdr : Header) (body : Body) (c : NntpConnection W)
      → is_acceptable daemon c.world (facts hdr) ≡ true
      → Took c.world c (keep_requested daemon msgid (store_message daemon c hdr body))
  stored-Took msgid hdr body c a =
      let k = keep_requested-infeed msgid (store_message daemon c hdr body) in
      elim (store_message_lem daemon c hdr body) [
        | stored e w i ↦ inr (hdr, body, _, a, w, k ∙ i)
        | dropped ce e ↦ inl (k ∙ ap (λ (d : NntpConnection W). d.infeed) ce)
        | duplicate w cr ce e ↦ inl (k ∙ ap (λ (d : NntpConnection W). d.infeed) ce)
        | removed w x e ce ↦ inl (k ∙ ap (λ (d : NntpConnection W). d.infeed) ce)
      ]

  requested-Took :
      (msgid : Bytes) (hdr : Header) (body : Body) (c : NntpConnection W)
      → let v = check_mime_header_no_auth daemon c.world hdr in
        Took c.world c (requested daemon msgid hdr body v c)
  unfolding check_mime_header_no_auth
  requested-Took msgid hdr body c =
      let v = check_facts daemon c.world (facts hdr) in
      elim (Bool-cases (is_none v.err)) [
        | inr e ↦ rw e (inl refl)
        | inl e ↦ rw e (elim (Bool-cases (same v.reason [])) [
          | inl n ↦ rw n (
              stored-Took msgid hdr body c
                (sym (check_facts_lem daemon c.world (facts hdr)) ∙ (sym (same_nil v.reason) ∙ n)))
          | inr n ↦
              rw n (elim (Bool-cases v.ban) [ inl b ↦ rw b (inl refl) | inr b ↦ rw b (inl refl) ])
        ])
      ]

  request_read-Took :
      (msgid : Bytes) (c : NntpConnection W) (r : Option (Header × List Bytes))
      → Took c.world c (request_read daemon msgid c r).1
  request_read-Took msgid c none = inl refl
  request_read-Took msgid c (some (hdr, lines)) =
      let d = dot_reader lines in
      requested-Took msgid hdr (record { text = text_of d.lines; complete = d.ended })
        (record c { input = d.rest })

  code_line_of-keeps :
      (n : ℕ) (c : NntpConnection W) (lines : List Bytes)
      → ((code_line_of n c lines).conn.world ≡ c.world)
        × ((code_line_of n c lines).conn.infeed ≡ c.infeed)
  code_line_of-keeps n c [] = (refl, refl)
  code_line_of-keeps n c (line ∷ lines) = (refl, refl)

  answered-Took :
      (msgid : Bytes) (c : NntpConnection W) (r : Reply W)
      → r.conn.world ≡ c.world
      → r.conn.infeed ≡ c.infeed
      → Took c.world c
          (if r.code == 220
            then request_read daemon msgid r.conn (read_mime_header r.conn.input)
            else (r.err, r.conn)).1
  answered-Took msgid c r w i = elim (Bool-cases (r.code == 220)) [
    | inr e ↦ rw e (inl i)
    | inl e ↦ rw e (elim (request_read-Took msgid r.conn (read_mime_header r.conn.input)) [
      | inl k ↦ inl (k ∙ i)
      | inr (hdr, body, w', a, wr, k) ↦ inr (
        hdr,
        body,
        w',
        subst (λ x. is_acceptable daemon x (facts hdr) ≡ true) w a,
        subst (λ x. Written daemon x w' (get_message_id hdr) (stored_header daemon hdr) body) w wr,
        k ∙ ap (λ l. l ++ get_message_id hdr ∷ []) i,
      )
    ])
  ]

  -- Asking a server for an article, whatever it answers: the daemon is told of nothing, or of one
  -- article, which satisfies every rule that checkMIMEHeader knows and whose file storeMessage
  -- wrote without an error in the last write of its header or in its body. The article may be
  -- another one than was asked for.
  pub request_article-Took :
      (msgid : Bytes) (c : NntpConnection W) → Took c.world c (request_article daemon msgid c).1
  unfolding request_article read_code_line
  request_article-Took msgid c =
      let asked = print_line c (codes "ARTICLE " ++ msgid) in
      let k = code_line_of-keeps 0 asked asked.input in
      answered-Took msgid c (code_line_of 0 asked asked.input) k.0 k.1
