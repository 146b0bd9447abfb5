-- ===== src/Inbound/Groups/Selection.antt =====
-- GROUP and STARTTLS of lib/nntp/conn_v1.go.
use srndv.Base.{
  ℕ, ◌≡◌, refl, ap, Bool, true, false, none, some, List, [], ◌∷◌, if◌then◌else◌, Bytes, codes,
  split,
}
use srndv.Nntp.Codes.{rpl_no_such_group, rpl_tls_continue}
use srndv.Nntp.Ident.{newsgroup_valid}
use srndv.Inbound.{Answer, answer, failed, Env, Handshake, Conn, authed, posting_allowed}
use srndv.Inbound.Commands.{reply}
use srndv.Inbound.Commands.Transfer.{IsWritable, after, printf_line-after}
use srndv.Inbound.Groups.{
  marks, has_group, group_reply, group_error, enter_group, switch_to, switch_parts,
  switch_newsgroup, handshaken, handshake, start_tls, upgrade_tls,
}

-- what GROUP of one group sends, and the group that is selected then
abbrev pub selection : Answer Bool → Answer (ℕ × ℕ) → Bytes → Bytes → Bytes × Bytes
selection (answer true) (answer (hi, lo)) old group = (group_reply group hi lo, group)
selection (answer true) (failed e) old group = (group_error e, old)
selection (answer false) m old group = (reply rpl_no_such_group (codes "no such newsgroup"), old)
selection (failed e) m old group = (group_error e, old)

module _ {S : Type 0} (env : Env S) where
  enter_group-after :
      (c : Conn S) (group : Bytes) (m : Answer (ℕ × ℕ))
      → IsWritable env c
      → enter_group env c group m ≡ (
          let (said, now) = selection (answer true) m c.state.group group in
          (record (after c said) { state = record c.state { group = now } }, none))
  unfolding enter_group
  enter_group-after c group (answer (hi, lo)) w =
      rw (printf_line-after env c (group_reply group hi lo) w)
  enter_group-after c group (failed e) w = printf_line-after env c (group_error e) w

  switch_to-after :
      (c : Conn S) (group : Bytes) (a : Answer Bool)
      → IsWritable env c
      → switch_to env c group a ≡ (
          let (said, now) = selection a (marks env.db group) c.state.group group in
          (record (after c said) { state = record c.state { group = now } }, none))
  unfolding switch_to
  switch_to-after c group (answer true) w = enter_group-after c group (marks env.db group) w
  switch_to-after c group (answer false) w = printf_line-after env c _ w
  switch_to-after c group (failed e) w = printf_line-after env c (group_error e) w

  -- GROUP of one word, on a socket that takes every line: the group is selected exactly when its
  -- name is well formed, the database has it (or there is no database) and its marks can be got,
  -- and the reply then is 211 with the marks; otherwise the reply is 403 with the database's error,
  -- or 411, and the selected group stays. Nothing else changes.
  pub group_selects :
      (c : Conn S) (line word group : Bytes)
      → IsWritable env c
      → split 32 line ≡ word ∷ group ∷ []
      → switch_newsgroup env c line ≡ (
          let known =
            if newsgroup_valid group
            then elim env.db [ none ↦ answer true | some db ↦ db.has_newsgroup group ]
            else answer false in
          let (said, now) = selection known (marks env.db group) c.state.group group in
          some (record (after c said) { state = record c.state { group = now } }, none))
  unfolding switch_newsgroup switch_parts has_group
  group_selects c line word group w words =
      rw words (ap some (switch_to-after c group (has_group env group) w))

  -- STARTTLS with a TLS configuration, on a socket that takes every line, when the next handshake
  -- works out: what was read ahead in plain text is dropped for the lines under TLS, and from then
  -- on the peer counts as authenticated, so that posting is allowed.
  pub starttls_authenticates :
      (c : Conn S) (line : Bytes) (lines : List Bytes) (later : List Handshake)
      → IsWritable env c
      → env.tls_config ≡ true
      → c.handshakes ≡ record { err = none; lines = lines } ∷ later
      → (d : Conn S) × (upgrade_tls env c line ≡ some (d, none))
        × (d.input ≡ lines)
        × (posting_allowed d ≡ true)
  unfolding upgrade_tls start_tls handshake handshaken posting_allowed authed
  starttls_authenticates c line lines later w configured hands = (
    record (after c (reply rpl_tls_continue (codes "Continue with TLS Negotiation"))) {
      handshakes = later;
      tls_on = true;
      input = lines;
    },
    rw (printf_line-after env c (reply rpl_tls_continue (codes "Continue with TLS Negotiation")) w)
        (rw configured (rw hands)),
    refl,
    refl,
  )
