-- ===== src/Inbound/Evolution/Newsgroups.antt =====
-- The handlers of lib/nntp/conn_v1.go for newsgroups and TLS, on every branch.
use srndv.Base.{
  ℕ, ◌≡◌, inl, inr, refl, sym, ap, Bool, true, false, not, Option, none, some, List, [], ◌∷◌, Bytes,
  append-nil, arith, split, Bool-cases,
}
use srndv.Nntp.Ident.{newsgroup_valid}
use srndv.Inbound.{Error, Answer, answer, failed, Env, Handshake, Conn}
use srndv.Inbound.Groups.{
  flush_lines, list_groups, newsgroup_list, handshaken, handshake, start_tls, upgrade_tls,
  has_group, set_group, enter_group, switch_to, switch_parts, switch_newsgroup, all_newsgroups,
  marks,
}
use srndv.Inbound.Evolution.{
  IsGroup, Evolves, Ensures, Evolves-refl, Evolves-trans, printf_line-Evolves, handshake_lines,
}
use srndv.Inbound.Evolution.Handlers.{if-Ensures}

module _ {S : Type 0} {env : Env S} where
  set_group-Evolves :
      (c : Conn S) (group : Bytes) (r : Conn S × Option Error)
      → IsGroup group
      → Evolves env c r.0
      → Evolves env c (set_group group r).0
  set_group-Evolves c group (c', none) g h = record {
    stays_sane = λ s. record { proper_mode = (h.stays_sane s).proper_mode; proper_group = g };
    reads_on = h.reads_on;
    sends_on = h.sends_on;
    gets_stuck = h.gets_stuck;
  }
  set_group-Evolves c group (c', some e) g h = h

module _ {S : Type 0} (env : Env S) where
  flush_lines-Evolves :
      (c : Conn S) (lines : List Bytes) (e : Option Error)
      → Evolves env c (flush_lines env c lines e).0
  unfolding flush_lines
  flush_lines-Evolves c lines none = record {
    stays_sane = λ s. record { proper_mode = s.proper_mode; proper_group = s.proper_group };
    reads_on = omega arith;
    sends_on = (lines, refl);
    gets_stuck = λ t h. h;
  }
  flush_lines-Evolves c lines (some e) = record {
    stays_sane = λ s. record { proper_mode = s.proper_mode; proper_group = s.proper_group };
    reads_on = omega arith;
    sends_on = ([], sym (append-nil c.sent));
    gets_stuck = λ t h. h;
  }

  list_groups-Evolves :
      (c : Conn S) (a : Answer (List Bytes)) → Evolves env c (list_groups env c a).0
  unfolding list_groups
  list_groups-Evolves c (answer groups) = flush_lines-Evolves c _ _
  list_groups-Evolves c (failed e) = printf_line-Evolves env c _

  pub newsgroup_list-Evolves :
      (c : Conn S) (line : Bytes) → Ensures (Evolves env c) (newsgroup_list env c line)
  unfolding newsgroup_list
  newsgroup_list-Evolves c line = list_groups-Evolves c (all_newsgroups env.db)

  handshake_with :
      (c : Conn S) (h : Handshake) (hs : List Handshake) (e : Option Error)
      → c.handshakes ≡ h ∷ hs
      → Evolves env c (handshaken env c h hs e)
  unfolding handshaken
  handshake_with c h hs (some e) q = record {
    stays_sane = λ s. record { proper_mode = s.proper_mode; proper_group = s.proper_group };
    reads_on = omega (arith, ap handshake_lines q);
    sends_on = ([], sym (append-nil c.sent));
    gets_stuck = λ t h. h;
  }
  handshake_with c h hs none q = record {
    stays_sane = λ s. record { proper_mode = s.proper_mode; proper_group = s.proper_group };
    reads_on = omega (arith, ap handshake_lines q);
    sends_on = ([], sym (append-nil c.sent));
    gets_stuck = λ t h. h;
  }

  handshake-Evolves :
      (c : Conn S) (hs : List Handshake) → c.handshakes ≡ hs → Evolves env c (handshake env c hs)
  unfolding handshake
  handshake-Evolves c [] q = Evolves-refl c
  handshake-Evolves c (h ∷ hs) q = handshake_with c h hs h.err q

  start_tls-Evolves :
      (c : Conn S) (r : Conn S × Option Error)
      → Evolves env c r.0
      → Ensures (Evolves env c) (start_tls env r)
  unfolding start_tls
  start_tls-Evolves c (c', none) h = Evolves-trans h (handshake-Evolves c' c'.handshakes refl)
  start_tls-Evolves c (c', some e) h = h

  pub upgrade_tls-Evolves :
      (c : Conn S) (line : Bytes) → Ensures (Evolves env c) (upgrade_tls env c line)
  unfolding upgrade_tls
  upgrade_tls-Evolves c line =
      if-Ensures env c (not env.tls_config) _ _ (printf_line-Evolves env c _)
        (start_tls-Evolves c _ (printf_line-Evolves env c _))

  enter_group-Evolves :
      (c : Conn S) (group : Bytes) (a : Answer (ℕ × ℕ))
      → IsGroup group
      → Evolves env c (enter_group env c group a).0
  unfolding enter_group
  enter_group-Evolves c group (answer (hi, lo)) g =
      set_group-Evolves c group _ g (printf_line-Evolves env c _)
  enter_group-Evolves c group (failed e) g = printf_line-Evolves env c _

  switch_to-Evolves :
      (c : Conn S) (group : Bytes) (a : Answer Bool)
      → (a ≡ answer true → IsGroup group)
      → Evolves env c (switch_to env c group a).0
  unfolding switch_to
  switch_to-Evolves c group (answer true) g =
      enter_group-Evolves c group (marks env.db group) (g refl)
  switch_to-Evolves c group (answer false) g = printf_line-Evolves env c _
  switch_to-Evolves c group (failed e) g = printf_line-Evolves env c _

  has_group-valid : (group : Bytes) → has_group env group ≡ answer true → IsGroup group
  unfolding has_group
  has_group-valid group h = elim (Bool-cases (newsgroup_valid group)) [
    | inl good ↦ inr good
    | inr bad ↦ cc (rw bad at h)
  ]

  switch_parts-Evolves :
      (c : Conn S) (parts : List Bytes) → Evolves env c (switch_parts env c parts).0
  unfolding switch_parts
  switch_parts-Evolves c (_ ∷ (group ∷ [])) =
      switch_to-Evolves c group (has_group env group) (has_group-valid group)
  switch_parts-Evolves c _ = switch_to-Evolves c [] (answer false) (λ e. inl refl)

  pub switch_newsgroup-Evolves :
      (c : Conn S) (line : Bytes) → Ensures (Evolves env c) (switch_newsgroup env c line)
  unfolding switch_newsgroup
  switch_newsgroup-Evolves c line = switch_parts-Evolves c (split 32 line)
