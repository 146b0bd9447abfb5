-- ===== src/Inbound/Evolution.antt =====
-- What every handler of lib/nntp/conn_v1.go keeps: the connection's mode and newsgroup stay among
-- the proper ones, the lines still to be read do not grow, nothing that was sent is unsent, and only
-- a body whose copy is stopped makes a call wait for ever.
pub mod Handlers
pub mod Newsgroups
pub mod Loop
pub mod Panics
use srndv.Base.{
  ℕ, ◌+◌, ◌≤◌, ◌≡◌, ◌⊎◌, inl, inr, refl, sym, ap, ◌∙◌, Bool, true, false, Option, none, some, List,
  [], ◌∷◌, ◌++◌, if◌then◌else◌, length, ◌>>=◌, Bytes, append-nil, append_assoc, arith, same,
  Bool-cases, Holds, Holds-bind, Holds-bind-Holds,
}
use srndv.Header.{Header, append_path, newsgroup, is_multipart}
use srndv.Header.Io.{Read, read_header}
use srndv.Nntp.Ident.{ArticleEntry, newsgroup_valid}
use srndv.Nntp.Mode.{mode_unset, mode_reader, mode_stream}
use srndv.Inbound.{
  Error, Env, ConnState, Handshake, Conn, Outcome, put_line, write_result, printf_line, dot_read,
  unstuff, dot, close,
}
use srndv.Inbound.Article.Whole.{IsThorough, hung-deliver}
use srndv.Inbound.Article.{read_article, read_parsed, read_body, deliver, article_id}

abbrev pub IsMode : Bytes → Type 0
IsMode m = (m ≡ mode_unset) ⊎ ((m ≡ mode_reader) ⊎ (m ≡ mode_stream))

abbrev pub IsGroup : Bytes → Type 0
IsGroup g = (g ≡ []) ⊎ (newsgroup_valid g ≡ true)

pub record IsSane {S : Type 0} (c : Conn S) : Type 0 where
  pub proper_mode : IsMode c.state.mode
  pub proper_group : IsGroup c.state.group

abbrev pub handshake_lines : List Handshake → ℕ
handshake_lines [] = 0
handshake_lines (h ∷ hs) = length h.lines + handshake_lines hs

-- the lines that a peer can still make the loop read
abbrev pub pending : {S : Type 0} → Conn S → ℕ
pending c = length c.input + handshake_lines c.handshakes

abbrev pub Extends : List Bytes → List Bytes → Type 0
Extends old new = (more : List Bytes) × (new ≡ old ++ more)

pub record Evolves {S : Type 0} (env : Env S) (c c' : Conn S) : Type 0 where
  pub stays_sane : IsSane c → IsSane c'
  pub reads_on : pending c' ≤ pending c
  pub sends_on : Extends c.sent c'.sent
  pub gets_stuck : IsThorough env → c'.hung ≡ true → c.hung ≡ true

abbrev pub Ensures : {S : Type 0} → (Conn S → Type 0) → Outcome S → Type 0
Ensures P = Holds (λ r. P r.0)

module _ {S : Type 0} {env : Env S} where
  pub Evolves-refl : (c : Conn S) → Evolves env c c
  Evolves-refl c = record {
    stays_sane = λ h. h;
    reads_on = omega arith;
    sends_on = ([], sym (append-nil c.sent));
    gets_stuck = λ t h. h;
  }

  pub Evolves-trans : {a b c : Conn S} → Evolves env a b → Evolves env b c → Evolves env a c
  Evolves-trans {a} {b} {c} p q = record {
    stays_sane = λ h. q.stays_sane (p.stays_sane h);
    reads_on = omega (arith, p.reads_on, q.reads_on);
    sends_on = (
      p.sends_on.0 ++ q.sends_on.0,
      q.sends_on.1
          ∙ ap (λ s. s ++ q.sends_on.0) p.sends_on.1
          ∙ append_assoc a.sent p.sends_on.0 q.sends_on.0,
    );
    gets_stuck = λ t h. p.gets_stuck t (q.gets_stuck t h);
  }

  -- only the lines to come, the storage and the hooks changed
  pub Evolves-read :
      (c : Conn S) (lines : List Bytes)
      → length lines ≤ length c.input
      → Evolves env c (record c { input = lines })
  Evolves-read c lines h = record {
    stays_sane = λ s. record { proper_mode = s.proper_mode; proper_group = s.proper_group };
    reads_on = omega (arith, h);
    sends_on = ([], sym (append-nil c.sent));
    gets_stuck = λ t h. h;
  }

  put_line-Evolves :
      (c : Conn S) (e : Option Error) (line : Bytes) → Evolves env c (put_line c e line).0
  put_line-Evolves c none line = record {
    stays_sane = λ s. record { proper_mode = s.proper_mode; proper_group = s.proper_group };
    reads_on = omega arith;
    sends_on = (line ∷ [], refl);
    gets_stuck = λ t h. h;
  }
  put_line-Evolves c (some e) line = record {
    stays_sane = λ s. record { proper_mode = s.proper_mode; proper_group = s.proper_group };
    reads_on = omega arith;
    sends_on = ([], sym (append-nil c.sent));
    gets_stuck = λ t h. h;
  }

  pub close-Evolves : (c : Conn S) → Evolves env c (close c)
  unfolding close
  close-Evolves c = record {
    stays_sane = λ s. record { proper_mode = s.proper_mode; proper_group = s.proper_group };
    reads_on = omega arith;
    sends_on = ([], sym (append-nil c.sent));
    gets_stuck = λ t h. h;
  }

pub length-dot_read : (lines : List Bytes) → length (dot_read lines).1 ≤ length lines
unfolding dot_read
length-dot_read [] = omega arith
length-dot_read (line ∷ lines) = ground (arith, length-dot_read lines)

module _ {S : Type 0} (env : Env S) where
  pub printf_line-Evolves : (c : Conn S) (line : Bytes) → Evolves env c (printf_line env c line).0
  unfolding printf_line
  printf_line-Evolves c line = put_line-Evolves c (write_result env c) line

  deliver-Evolves :
      (multipart : Bool) (c : Conn S) (offset : ℕ) (hdr : Header) (body : Bytes) (e : ArticleEntry)
      (status : ℕ)
      → Evolves env c (deliver env multipart c offset hdr body e status).0
  unfolding deliver
  deliver-Evolves multipart c offset hdr body e status = record {
    stays_sane = λ s. record { proper_mode = s.proper_mode; proper_group = s.proper_group };
    reads_on = omega arith;
    sends_on = ([], sym (append-nil c.sent));
    gets_stuck = λ t h. sym (hung-deliver env t multipart c offset hdr body e status) ∙ h;
  }

  read_body-Evolves :
      (newpost : Bool) (c : Conn S) (offset : ℕ) (hdr : Header) (body : Bytes)
      → Holds (λ r. Evolves env c r.0) (read_body env newpost c offset hdr body)
  unfolding read_body
  read_body-Evolves newpost c offset hdr body =
      Holds-bind _ (append_path hdr env.server_name) _ λ hdr'.
        Holds-bind _ (article_id env newpost hdr') _ λ msgid.
          Holds-bind _ (newsgroup hdr') _ λ group.
            Holds-bind _ (is_multipart hdr') _
              λ multipart. deliver-Evolves multipart c offset hdr' body _ _

  read_parsed-Evolves :
      (newpost : Bool) (c : Conn S) (size : ℕ) (r : Read)
      → Holds (λ r. Evolves env c r.0) (read_parsed env newpost c size r)
  unfolding read_parsed
  read_parsed-Evolves newpost c size r = elim (Bool-cases r.complete) [
    | inl yes' ↦ rw yes' (read_body-Evolves newpost c _ r.hdr r.rest)
    | inr no' ↦ rw no' tt
  ]

  -- Reading an article changes the storage and what the hooks were told, and takes its lines.
  pub read_article-Evolves :
      (newpost : Bool) (c : Conn S) → Holds (λ r. Evolves env c r.0) (read_article env newpost c)
  unfolding read_article
  read_article-Evolves newpost c =
      let c' : Conn S = record c { input = (dot_read c.input).1 } in
      let read = Evolves-read c (dot_read c.input).1 (length-dot_read c.input) in
      Holds-bind-Holds _ _
        (read_parsed env newpost c' (length (dot_read c.input).0)
          (read_header (dot_read c.input).0))
        _ (read_parsed-Evolves newpost c' _ (read_header (dot_read c.input).0))
        λ r h. Evolves-trans read h
