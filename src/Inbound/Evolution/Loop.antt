-- ===== src/Inbound/Evolution/Loop.antt =====
-- Process of lib/nntp/conn_v1.go ends, and ends in a proper state.
use srndv.Base.{
  ℕ, zero, suc, ◌<◌, ◌≤◌, ◌≡◌, refl, sym, ap, ◌∙◌, true, false, Option, none, some, List, [], ◌∷◌,
  ◌++◌, append_assoc, append-nil, length, Bytes, arith, Bool, if◌then◌else◌,
}
use srndv.Header.{is_empty}
use srndv.Inbound.{Env, Conn, Outcome, next_line, close}
use srndv.Inbound.Article.Whole.{IsThorough}
use srndv.Inbound.Process.{
  Command, starttls, ihave, post, mode, quit, capabilities, check, takethis, list, group, Ended,
  closed, stopped, panicked, waiting, out_of_fuel, handler, dispatch, handle_line, find_command,
  command_word, table, process, resume,
}
use srndv.Inbound.Evolution.{IsSane, Evolves, Ensures, Extends, pending, printf_line-Evolves}
use srndv.Inbound.Evolution.Newsgroups.{
  newsgroup_list-Evolves, upgrade_tls-Evolves, switch_newsgroup-Evolves,
}
use srndv.Inbound.Evolution.Handlers.{
  switch_mode_inbound-Evolves, quit_connection-Evolves, send_capabilities-Evolves,
  nntp_recv_article-Evolves, nntp_post_article-Evolves, streaming_line-Evolves,
}

-- how the loop may end that started in c: never for want of fuel
abbrev pub EndsWell : {S : Type 0} → Env S → Conn S → Ended S → Type 0
EndsWell env c (closed c') = IsSane c' × Extends c.sent c'.sent × (c'.state.is_open ≡ false)
EndsWell env c (stopped c' e) = IsSane c' × Extends c.sent c'.sent
EndsWell env c panicked = Unit
EndsWell env c (waiting c') =
    IsSane c' × Extends c.sent c'.sent × (c'.hung ≡ true) × (IsThorough env → c.hung ≡ true)
EndsWell env c out_of_fuel = ⊥

-- what a handler keeps of a connection
pub record Keeps {S : Type 0} (c c' : Conn S) : Type 0 where
  pub sane : IsSane c'
  pub reads_on : pending c' ≤ pending c
  pub sends_on : Extends c.sent c'.sent

evolved :
    {S : Type 0} (env : Env S) (c : Conn S) (o : Outcome S)
    → IsSane c
    → Ensures (Evolves env c) o
    → Ensures (Keeps c) o
evolved env c none s e = tt
evolved env c (some (c', x)) s e = record {
  sane = e.stays_sane s;
  reads_on = e.reads_on;
  sends_on = e.sends_on;
}

Extends-trans : (a b c : List Bytes) → Extends a b → Extends b c → Extends a c
Extends-trans a b c p q = (p.0 ++ q.0, q.1 ∙ ap (λ s. s ++ q.0) p.1 ∙ append_assoc a p.0 q.0)

next_line-shorter :
    (x : ℕ) (xs : Bytes) (lines input : List Bytes)
    → ◌≡◌ {A = Bytes × List Bytes} (x ∷ xs, lines) (next_line input)
    → suc (length lines) ≤ length input
unfolding next_line
next_line-shorter x xs lines [] q = cc
next_line-shorter x xs lines (l ∷ ls) q =
    omega (arith, ap (λ (r : Bytes × List Bytes). length r.1) q)

module _ {S : Type 0} (env : Env S) where
  handler-Evolves :
      (cmd : Command) (c : Conn S) (line : Bytes) → Ensures (Evolves env c) (handler env cmd c line)
  unfolding handler
  handler-Evolves starttls c line = upgrade_tls-Evolves env c line
  handler-Evolves ihave c line = nntp_recv_article-Evolves env c line
  handler-Evolves post c line = nntp_post_article-Evolves env c line
  handler-Evolves mode c line = switch_mode_inbound-Evolves env c line
  handler-Evolves quit c line = quit_connection-Evolves env c line
  handler-Evolves capabilities c line = send_capabilities-Evolves env c line
  handler-Evolves check c line = streaming_line-Evolves env c line
  handler-Evolves takethis c line = streaming_line-Evolves env c line
  handler-Evolves list c line = newsgroup_list-Evolves env c line
  handler-Evolves group c line = switch_newsgroup-Evolves env c line

  dispatch-Evolves :
      (o : Option Command) (c : Conn S) (line : Bytes)
      → Ensures (Evolves env c) (dispatch env o c line)
  unfolding dispatch
  dispatch-Evolves (some cmd) c line = handler-Evolves cmd c line
  dispatch-Evolves none c line = printf_line-Evolves env c _

  handle_line-Evolves :
      (c : Conn S) (line : Bytes) → Ensures (Evolves env c) (handle_line env c line)
  unfolding handle_line
  handle_line-Evolves c line = dispatch-Evolves (find_command (command_word line) table) c line

  -- Whatever the line, and whatever the network, the storage, the database and the acceptor answer,
  -- on a connection whose mode is unset, reader or stream and whose newsgroup is empty or well
  -- formed: a handler that does not panic leaves them so, does not add to the lines that are still
  -- to be read, and only adds to the lines that were sent.
  pub handle_line-Keeps :
      (c : Conn S) (line : Bytes) → IsSane c → Ensures (Keeps c) (handle_line env c line)
  handle_line-Keeps c line s = evolved env c (handle_line env c line) s (handle_line-Evolves c line)

  EndsWell-trans :
      (a b : Conn S) (r : Ended S)
      → Extends a.sent b.sent
      → (IsThorough env → b.hung ≡ true → a.hung ≡ true)
      → EndsWell env b r
      → EndsWell env a r
  EndsWell-trans a b (closed c) h g w = (w.0, Extends-trans a.sent b.sent c.sent h w.1, w.2)
  EndsWell-trans a b (stopped c e) h g w = (w.0, Extends-trans a.sent b.sent c.sent h w.1)
  EndsWell-trans a b panicked h g w = tt
  EndsWell-trans a b (waiting c) h g w =
      (w.0, Extends-trans a.sent b.sent c.sent h w.1, w.2, λ t. g t (w.3 t))
  EndsWell-trans a b out_of_fuel h g w = w

  if-EndsWell :
      (c : Conn S) (b : Bool) (r t : Ended S)
      → (b ≡ true → EndsWell env c r)
      → EndsWell env c t
      → EndsWell env c (if b then r else t)
  if-EndsWell c true r t p q = p refl
  if-EndsWell c false r t p q = q

  resume-EndsWell :
      (loop : Conn S → Ended S) (n : ℕ) (c : Conn S) (o : Outcome S)
      → ((c' : Conn S) → pending c' < n → IsSane c' → EndsWell env c' (loop c'))
      → pending c < n
      → IsSane c
      → Ensures (Evolves env c) o
      → EndsWell env c (resume loop o)
  unfolding resume
  resume-EndsWell loop n c none ih h s e = tt
  resume-EndsWell loop n c (some (c', none)) ih h s e =
      if-EndsWell c c'.hung (waiting c') (loop c')
        (λ stuck. (e.stays_sane s, e.sends_on, stuck, λ t. e.gets_stuck t stuck))
        (EndsWell-trans c c' (loop c') e.sends_on e.gets_stuck
          (ih c' (omega (arith, e.reads_on)) (e.stays_sane s)))
  resume-EndsWell loop n c (some (c', some x)) ih h s e = (e.stays_sane s, e.sends_on)

  -- one round of the loop, on what was read
  step_EndsWell :
      (loop : Conn S → Ended S) (n : ℕ) (c : Conn S) (read : Bytes × List Bytes)
      → read ≡ next_line c.input
      → ((c' : Conn S) → pending c' < n → IsSane c' → EndsWell env c' (loop c'))
      → pending c < suc n
      → IsSane c
      → EndsWell env c (elim (is_empty read.0) [
        | true ↦ closed (close (record c { input = read.1 }))
        | false ↦ resume loop (handle_line env (record c { input = read.1 }) read.0)
      ])
  unfolding close
  step_EndsWell loop n c ([], lines) q ih h s = (
    record { proper_mode = s.proper_mode; proper_group = s.proper_group },
    ([], sym (append-nil c.sent)),
    refl,
  )
  step_EndsWell loop n c (x ∷ xs, lines) q ih h s =
      let c' : Conn S = record c { input = lines } in
      EndsWell-trans c c' (resume loop (handle_line env c' (x ∷ xs))) ([], sym (append-nil c.sent))
        (λ t h'. h')
        (resume-EndsWell loop n c' (handle_line env c' (x ∷ xs)) ih
          (omega (arith, next_line-shorter x xs lines c.input q))
          (record { proper_mode = s.proper_mode; proper_group = s.proper_group })
          (handle_line-Evolves c' (x ∷ xs)))

  -- Process does not go on for ever from line to line: with more fuel than there are lines to be
  -- read, behind every handshake too, it is closed, stopped at an error, in a panic, or in a call
  -- of readArticle that waits for ever, never out of fuel. Started with a proper mode and newsgroup
  -- it ends so, what was sent before still stands in front of what was sent, and where it ends at
  -- the end of the input the connection is closed. It waits only on a connection that is hung, and
  -- not at all where the parser of parts reads to the end of every body, the storage takes all that
  -- is written to it, and the connection was not hung before.
  pub process-EndsWell :
      (fuel : ℕ) (c : Conn S) → pending c < fuel → IsSane c → EndsWell env c (process env fuel c)
  unfolding process
  process-EndsWell zero c h s = absurd (omega arith)
  process-EndsWell (suc fuel) c h s =
      step_EndsWell (process env fuel) fuel c (next_line c.input) refl (process-EndsWell fuel) h s
