-- ===== src/Outbound/Session.antt =====
-- What a peer's answers make of ListNewsgroups and Negotiate of v1OBConn (lib/nntp/conn_v1.go).
use srndv.Base.{
  ℕ, zero, suc, ◌+◌, ◌/◌, ◌%◌, ◌≡◌, refl, ap, ◌∙◌, true, false, not, ◌&&◌, none, some, List, [],
  ◌∷◌, ◌++◌, All, Bytes, codes, same, split, split-append, split_free, count_byte, has_prefix,
  decimal, decimal_onto, arith, map, append_assoc, Bool, Option, if◌then◌else◌, Bool-cases, inl,
  inr,
}
use srndv.Header.{is_empty}
use srndv.Nntp.Codes.{rpl_newsgroup_list, rpl_more_auth, rpl_auth_accepted, rpl_posting_streaming}
use srndv.Nntp.Mode.{command_mode_stream}
use srndv.Inbound.{Error, Env, Conn, dot, dot_read}
use srndv.Inbound.Commands.Transfer.{IsWritable, after, printf_line-after}
use srndv.Inbound.Groups.{group_line}
use srndv.Outbound.{
  FeedConfig, readline, list_lines, list_reply, list_sent, list_newsgroups, prepend_groups,
  cmd_newsgroups, cmd_capabilities, password_reply, password_sent, user_reply, user_sent, login,
  stream_reply, stream_sent, ask_streaming, capabilities_read, ask_capabilities, greeted, negotiate,
  dot_error,
}

-- a newsgroup with its high and its low mark
abbrev pub Marked : Type 0
Marked = Bytes × ℕ × ℕ

abbrev pub line_of : Marked → Bytes
line_of (g, hi, lo) = group_line g hi lo

abbrev pub name_of : Marked → Bytes
name_of (g, hi, lo) = g

abbrev pub IsOneWord : Marked → Type 0
IsOneWord (g, hi, lo) = count_byte 32 g ≡ 0

decimal_onto-no_space :
    (fuel n : ℕ) (acc : Bytes) → count_byte 32 acc ≡ 0 → count_byte 32 (decimal_onto fuel n acc) ≡ 0
unfolding decimal_onto count_byte
decimal_onto-no_space zero n acc h = h
decimal_onto-no_space (suc fuel) n acc h =
    ground (arith, decimal_onto-no_space fuel (n / 10) ((48 + n % 10) ∷ acc))

decimal-no_space : (n : ℕ) → count_byte 32 (decimal n) ≡ 0
unfolding decimal count_byte
decimal-no_space n = decimal_onto-no_space (suc n) n [] refl

split-group_line :
    (g : Bytes) (hi lo : ℕ)
    → count_byte 32 g ≡ 0
    → split 32 (group_line g hi lo) ≡ g ∷ decimal hi ∷ decimal lo ∷ codes "y" ∷ []
unfolding group_line
split-group_line g hi lo h =
    split-append 32 g _ h
    ∙ ap (◌∷◌ g) (
        split-append 32 (decimal hi) _ (decimal-no_space hi)
        ∙ ap (◌∷◌ (decimal hi)) (
            split-append 32 (decimal lo) _ (decimal-no_space lo)
            ∙ ap (◌∷◌ (decimal lo)) (split_free 32 (codes "y") (unfold count_byte in refl))))

not_nil : (a t : Bytes) (c : ℕ) → same (a ++ (c ∷ t)) [] ≡ false
unfolding same
not_nil [] t c = refl
not_nil (x ∷ a) t c = refl

group_line_not_dot : (g : Bytes) (hi lo : ℕ) → same (group_line g hi lo) dot ≡ false
unfolding same group_line
group_line_not_dot [] hi lo = refl
group_line_not_dot (c ∷ cs) hi lo = rw (not_nil cs _ 32) (ground arith)

list_lines-marked :
    (gs : List Marked) (rest : List Bytes)
    → All IsOneWord gs
    → list_lines (map line_of gs ++ dot ∷ rest)
      ≡ record { groups = map name_of gs; err = none; rest = rest }
unfolding list_lines same
list_lines-marked [] rest h = refl
list_lines-marked ((g, hi, lo) ∷ gs) rest h = rw (group_line_not_dot g hi lo) (
    rw (split-group_line g hi lo h.0)
      (ap (prepend_groups (g ∷ [])) (list_lines-marked gs rest h.1)))

module _ {S : Type 0} (env : Env S) where
  -- From a peer that answers 231, one line "name high low y" for each of its newsgroups, and a dot,
  -- on a socket that takes every line: ListNewsgroups returns the names in their order without an
  -- error, and reads up to the dot. (No name holds a space.)
  pub list_newsgroups_lem :
      (c : Conn S) (reply : Bytes) (gs : List Marked) (rest : List Bytes)
      → IsWritable env c
      → c.input ≡ reply ∷ (map line_of gs ++ dot ∷ rest)
      → has_prefix rpl_newsgroup_list reply ≡ true
      → All IsOneWord gs
      → list_newsgroups env c
        ≡ (record (after c cmd_newsgroups) { input = rest }, map name_of gs, none)
  unfolding list_newsgroups list_sent list_reply readline
  list_newsgroups_lem c reply gs rest w inp found h =
      rw (printf_line-after env c cmd_newsgroups w)
        (rw inp (rw found (rw (list_lines-marked gs rest h) refl)))

  -- A peer that answers AUTHINFO USER by anything but 381, on a socket that takes every line: the
  -- login ends with that answer as its error, and the password is not sent.
  pub password_withheld :
      (conf : FeedConfig) (c : Conn S) (reply : Bytes) (rest : List Bytes)
      → IsWritable env c
      → (not (is_empty conf.username) && not (is_empty conf.password)) ≡ true
      → c.input ≡ reply ∷ rest
      → has_prefix rpl_more_auth reply ≡ false
      → login env conf c
        ≡ (record (after c (codes "AUTHINFO USER " ++ conf.username)) { input = rest }, some reply)
  unfolding login user_sent user_reply readline
  password_withheld conf c reply rest w given inp other =
      rw given (rw (printf_line-after env c _ w) (rw inp (rw other refl)))

  module _ (conf : FeedConfig) (more accepted streaming : Bytes) where
    -- the answers that let the negotiation go on
    abbrev user_ok : Bool
    user_ok = has_prefix rpl_more_auth more

    abbrev password_ok : Bool
    password_ok = has_prefix rpl_auth_accepted accepted

    abbrev streaming_ok : Bool
    streaming_ok = has_prefix rpl_posting_streaming streaming

    -- the lines that are sent with these answers
    abbrev pub asked : List Bytes
    asked =
        cmd_capabilities
        ∷ (codes "AUTHINFO USER " ++ conf.username)
        ∷ (if user_ok
            then (codes "AUTHINFO PASS " ++ conf.password)
              ∷ (if password_ok then command_mode_stream ∷ [] else [])
            else [])

    -- the error that they come to
    abbrev pub refusal : Option Error
    refusal =
        if user_ok
        then (if password_ok
            then (if streaming_ok then none else some (codes "streaiming not allowed"))
            else some accepted)
        else some more

    -- the answers that are not read
    abbrev pub unread : List Bytes → List Bytes
    unread rest =
        if user_ok
        then (if password_ok then rest else streaming ∷ rest)
        else accepted ∷ streaming ∷ rest

    streaming_asked :
        (c : Conn S) (rest : List Bytes)
        → IsWritable env c
        → c.input ≡ streaming ∷ rest
        → ask_streaming env true (c, none) ≡ (
          record (after c command_mode_stream) { input = rest },
          if streaming_ok then none else some (codes "streaiming not allowed"),
        )
    unfolding ask_streaming stream_sent stream_reply readline
    streaming_asked c rest w inp =
        rw (printf_line-after env c command_mode_stream w)
          (rw inp (elim (Bool-cases streaming_ok) [ inl r ↦ rw r refl | inr r ↦ rw r refl ]))

    -- Negotiate on a socket that takes every line, with a login to give and streaming wanted, and
    -- a peer that greets, answers CAPABILITIES by lines that end in a dot, and has an answer for
    -- each of the user, the password and the streaming mode, whatever they say: the user is always
    -- sent, the password exactly behind a 381, the mode exactly behind a 281 for the password, in
    -- this order and nothing else; and the negotiation ends without an error exactly if all three
    -- were granted, or with the first answer that was not, where streaming has an error of its
    -- own.
    pub negotiation :
        (c : Conn S) (hello : Bytes) (answer rest : List Bytes)
        → IsWritable env c
        → (not (is_empty conf.username) && not (is_empty conf.password)) ≡ true
        → c.input ≡ hello ∷ answer
        → dot_error answer ≡ none
        → (dot_read answer).1 ≡ more ∷ accepted ∷ streaming ∷ rest
        → (d : Conn S) × (negotiate env conf true c ≡ (d, refusal))
          × (d.input ≡ unread rest)
          × (d.sent ≡ c.sent ++ asked)
    unfolding negotiate greeted ask_capabilities capabilities_read login user_sent user_reply
        password_sent password_reply readline ask_streaming
    negotiation c hello answer rest w given inp ended answers =
        let c1 : Conn S = record c { input = answer } in
        let w1 : IsWritable env c1 = record { opened = w.opened; takes = w.takes } in
        let c2 : Conn S = record (after c1 cmd_capabilities) {
          input = more ∷ accepted ∷ streaming ∷ rest;
        } in
        let user = codes "AUTHINFO USER " ++ conf.username in
        let pass = codes "AUTHINFO PASS " ++ conf.password in
        let w2 : IsWritable env c2 = record { opened = w.opened; takes = w.takes } in
        let c3 : Conn S = record (after c2 user) { input = accepted ∷ streaming ∷ rest } in
        let w3 : IsWritable env c3 = record { opened = w.opened; takes = w.takes } in
        let c4 : Conn S = record (after c3 pass) { input = streaming ∷ rest } in
        let w4 : IsWritable env c4 = record { opened = w.opened; takes = w.takes } in
        rw inp (
          rw (printf_line-after env c1 cmd_capabilities w1) (
            rw ended (
              rw given (
                rw answers (
                  rw (printf_line-after env c2 user w2) (elim (Bool-cases user_ok) [
                    | inr p ↦ rw p (c3, refl, refl, simp append_assoc)
                    | inl p ↦ rw p (
                        rw (printf_line-after env c3 pass w3) (elim (Bool-cases password_ok) [
                          | inr q ↦ rw q (c4, refl, refl, simp append_assoc)
                          | inl q ↦ rw q (
                            record (after c4 command_mode_stream) { input = rest },
                            streaming_asked c4 rest w4 refl,
                            refl,
                            simp append_assoc,
                          )
                        ]))
                  ]))))))
