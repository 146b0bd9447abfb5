-- ===== src/Daemon/Lines/Strangers.antt =====
-- handleLine and the loop of runConnection in src/srnd/nntp.go with a peer that has not
-- authenticated.
use srndv.Base.{
  ℕ, ◌≡◌, refl, sym, ap, ◌∙◌, Bool, true, false, ◌&&◌, Option, none, some, List, [], ◌∷◌, ◌++◌, ltb,
  length, drop, if◌then◌else◌, Bytes, codes, same, has_prefix, split, to_upper, arith, ℤ,
}
use srndv.Inbound.{Error, failed}
use srndv.Daemon.{NntpDaemon, NntpConnection, Run, panics, blocks, returns, replied}
use srndv.Daemon.Transfer.{ihave_command}
use srndv.Daemon.Reader.{article_command, head_command, stat_command, xover_command}
use srndv.Daemon.Groups.{listgroup_command, newsgroups_command, group_command, list_command}
use srndv.Daemon.Lines.{
  line_msgid, code_number, first_word, first_mode, word_command, lone_command, command, handle_line,
  any_line, numbered_line, unset_line, turn, Turn, turn_of, turn_input, goes_on, ends, crashes,
  hangs,
}
use srndv.Daemon.Lines.Kept.{
  Guarded, guarded, after, Keeps, mode_command-Keeps, check_command-Keeps, group_command-Keeps,
  head_command-Keeps, article_command-Keeps, stat_command-Keeps, xover_command-Keeps,
  listgroup_command-Keeps, quit_command-Keeps, newsgroups_command-Keeps, list_command-Keeps,
  NoLogin, authinfo_command-Keeps, takethis_command-Keeps, ihave_command-Keeps, post_command-Keeps,
  stream_answer-Keeps, Keeps-if,
}

module _ {W : Type 0} where
  module _ (daemon : NntpDaemon W) where
    reading-Keeps :
        (msgid cmd v : Bytes) (rest : List Bytes) (c : NntpConnection W)
        → c.authenticated ≡ false
        → Keeps c (
            if same cmd (codes "ARTICLE")
            then article_command daemon msgid c
            else if same cmd (codes "IHAVE")
            then ihave_command daemon v c
            else if same cmd (codes "LISTGROUP")
            then listgroup_command daemon v c
            else if same cmd (codes "NEWSGROUPS")
            then newsgroups_command daemon c
            else if same cmd (codes "XOVER")
            then xover_command daemon c
            else if same cmd (codes "HEAD")
            then head_command daemon v c
            else if same cmd (codes "GROUP")
            then group_command daemon v c
            else if same cmd (codes "LIST") && same v (codes "NEWSGROUPS")
            then list_command daemon c
            else if same cmd (codes "STAT")
            then stat_command daemon v rest c
            else replied c (codes "500 Invalid command: " ++ cmd))
    reading-Keeps msgid cmd v rest c h =
        Keeps-if daemon c (same cmd (codes "ARTICLE")) _ _ (article_command-Keeps daemon msgid c) (
          Keeps-if daemon c (same cmd (codes "IHAVE")) _ _ (ihave_command-Keeps daemon v c h) (
            Keeps-if daemon c (same cmd (codes "LISTGROUP")) _ _
              (listgroup_command-Keeps daemon v c)
              (Keeps-if daemon c (same cmd (codes "NEWSGROUPS")) _ _
                (newsgroups_command-Keeps daemon c)
                (Keeps-if daemon c (same cmd (codes "XOVER")) _ _ (xover_command-Keeps daemon c) (
                  Keeps-if daemon c (same cmd (codes "HEAD")) _ _ (head_command-Keeps daemon v c) (
                    Keeps-if daemon c (same cmd (codes "GROUP")) _ _
                      (group_command-Keeps daemon v c)
                      (Keeps-if daemon c (same cmd (codes "LIST") && same v (codes "NEWSGROUPS")) _
                        _ (list_command-Keeps daemon c)
                        (Keeps-if daemon c (same cmd (codes "STAT")) _ _
                          (stat_command-Keeps daemon v rest c) refl))))))))

    word_command-Keeps :
        (line msgid cmd v : Bytes) (rest : List Bytes) (c : NntpConnection W)
        → NoLogin daemon
        → c.authenticated ≡ false
        → Keeps c (word_command daemon line msgid cmd v rest c)
    unfolding word_command
    word_command-Keeps line msgid cmd v rest c n h =
        Keeps-if daemon c (same cmd (codes "MODE")) _ _ (mode_command-Keeps daemon v c) (
          Keeps-if daemon c (has_prefix (codes "QUIT") line) _ _ (quit_command-Keeps daemon c) (
            Keeps-if daemon c (same cmd (codes "AUTHINFO")) _ _
              (authinfo_command-Keeps daemon line v rest c n)
              (Keeps-if daemon c (same cmd (codes "CHECK")) _ _ (check_command-Keeps daemon v c) (
                Keeps-if daemon c (same cmd (codes "TAKETHIS")) _ _
                  (takethis_command-Keeps daemon msgid c h) (reading-Keeps msgid cmd v rest c h)))))

    lone_command-Keeps :
        (line : Bytes) (c : NntpConnection W)
        → c.authenticated ≡ false
        → Keeps c (lone_command daemon line c)
    unfolding lone_command
    lone_command-Keeps line c h =
        Keeps-if daemon c (same line (codes "LIST")) _ _ (list_command-Keeps daemon c)
          (Keeps-if daemon c (same line (codes "POST")) _ _ (post_command-Keeps daemon c h) refl)

    command-Keeps :
        (line msgid : Bytes) (ws : List Bytes) (c : NntpConnection W)
        → NoLogin daemon
        → c.authenticated ≡ false
        → Keeps c (command daemon line msgid ws c)
    unfolding command
    command-Keeps line msgid [] c n h = lone_command-Keeps line c h
    command-Keeps line msgid (w ∷ []) c n h = lone_command-Keeps line c h
    command-Keeps line msgid (w ∷ (v ∷ rest)) c n h =
        word_command-Keeps line msgid (to_upper w) v rest c n h

    pub stranger_line-Keeps :
        (code : ℕ) (line : Bytes) (c : NntpConnection W)
        → NoLogin daemon
        → c.authenticated ≡ false
        → Keeps c (handle_line daemon code line c)
    unfolding handle_line
    stranger_line-Keeps code line c n h =
        let parts = split 32 line in
        stream_answer-Keeps daemon code (line_msgid code parts) c _
          (command-Keeps line (line_msgid code parts) parts c n h)

    any_line-Keeps :
        (line : Bytes) (c : NntpConnection W)
        → NoLogin daemon
        → c.authenticated ≡ false
        → Keeps c (any_line daemon line c)
    unfolding any_line
    any_line-Keeps line c n h = numbered _
      where
        numbered : (o : Option ℤ) → Keeps c (numbered_line daemon line c o)
        numbered none = stranger_line-Keeps 0 line c n h
        numbered (some z) =
            Keeps-if daemon c (ltb (length line) 4) _ _ refl
              (stranger_line-Keeps (code_number z) (drop 4 line) c n h)

    -- No handshake succeeds.
    abbrev pub NoTls : Type 0
    NoTls = (lines : List Bytes) → (e : Error) × (daemon.starttls lines ≡ failed e)

    first_mode-Keeps :
        (ws : List Bytes) (c : NntpConnection W) → guarded (first_mode daemon ws c) ≡ guarded c
    unfolding first_mode
    first_mode-Keeps [] c = refl
    first_mode-Keeps (w ∷ []) c = refl
    first_mode-Keeps (w ∷ (v ∷ [])) c = ground arith
    first_mode-Keeps (w ∷ (v ∷ (x ∷ ws))) c = refl

    unset_line-Keeps :
        (line : Bytes) (c : NntpConnection W)
        → NoLogin daemon
        → NoTls
        → c.authenticated ≡ false
        → Keeps c (unset_line daemon line c)
    unfolding unset_line
    unset_line-Keeps line c n t h =
        let cmd = first_word (split 32 line) in
        Keeps-if daemon c (same cmd (codes "STARTTLS")) _ _ (rw (t c.input).1 refl) (
          Keeps-if daemon c (same cmd (codes "CAPABILITIES")) _ _ refl (
            Keeps-if daemon c (same cmd (codes "MODE")) _ _ (first_mode-Keeps (split 32 line) c)
              (any_line-Keeps line c n h)))

    -- the connection behind one round of the loop
    abbrev pub left_by : NntpConnection W → Turn daemon → NntpConnection W
    left_by c (goes_on c') = c'
    left_by c (ends c') = c'
    left_by c crashes = c
    left_by c hangs = c

    turn_of-after : (c : NntpConnection W) (r : Run W) → left_by c (turn_of daemon r) ≡ after c r
    turn_of-after c panics = refl
    turn_of-after c blocks = refl
    turn_of-after c (returns d none) = refl
    turn_of-after c (returns d (some e)) = refl

    -- a round that ends with a call that keeps what is guarded
    turn_of-Keeps :
        (c0 c : NntpConnection W) (r : Run W)
        → guarded c0 ≡ guarded c
        → Keeps c r
        → guarded (left_by c0 (turn_of daemon r)) ≡ guarded c
    turn_of-Keeps c0 c panics g k = g
    turn_of-Keeps c0 c blocks g k = g
    turn_of-Keeps c0 c (returns d none) g k = k
    turn_of-Keeps c0 c (returns d (some e)) g k = k

    turn_if-Keeps :
        (c0 c : NntpConnection W) (b : Bool) (x y : Turn daemon)
        → guarded (left_by c0 x) ≡ guarded c
        → guarded (left_by c0 y) ≡ guarded c
        → guarded (left_by c0 (if b then x else y)) ≡ guarded c
    turn_if-Keeps c0 c true x y hx hy = hx
    turn_if-Keeps c0 c false x y hx hy = hy

    turn_input-Keeps :
        (c : NntpConnection W) (lines : List Bytes)
        → NoLogin daemon
        → NoTls
        → c.authenticated ≡ false
        → guarded (left_by c (turn_input daemon c lines)) ≡ guarded c
    turn_input-Keeps c [] n t h = refl
    turn_input-Keeps c (line ∷ lines) n t h =
        let d = record c { input = lines } in
        turn_if-Keeps c d (has_prefix (codes "QUIT") line) _ _ refl (
          turn_if-Keeps c d (same c.mode []) _ _
            (turn_if-Keeps c d (same line []) _ _ refl
              (turn_of-Keeps c d (unset_line daemon line d) refl (unset_line-Keeps line d n t h)))
            (turn_of-Keeps c d (any_line daemon line d) refl (any_line-Keeps line d n h)))

    turn-Keeps :
        (c : NntpConnection W)
        → NoLogin daemon
        → NoTls
        → c.authenticated ≡ false
        → guarded (left_by c (turn daemon c)) ≡ guarded c
    unfolding turn
    turn-Keeps c n t h = turn_input-Keeps c c.input n t h

    -- the rounds of the loop
    pub data Served (c : NntpConnection W) : NntpConnection W → Type 0 where
      here : Served c c
      next : {d e : NntpConnection W} → Served c d → turn daemon d ≡ goes_on e → Served c e

    Served-Keeps :
        {c d : NntpConnection W}
        → NoLogin daemon
        → NoTls
        → c.authenticated ≡ false
        → Served c d
        → guarded d ≡ guarded c
    Served-Keeps n t h here = refl
    Served-Keeps n t h (next {d} {e} r eq) =
        let k = Served-Keeps n t h r in
        let still = ap (λ (g : Guarded W). g.1.1.1) k ∙ h in
        sym (ap (λ x. guarded (left_by d x)) eq) ∙ (turn-Keeps d n t still ∙ k)

    -- A peer that opens a connection, whose handshakes fail and whose logins are never valid,
    -- stays unauthenticated, and whatever lines it sends, in any mode and any order, the database
    -- and the store are left as they are, the daemon is told of no article and asks for none,
    -- round by round up to the one in which the connection ends.
    pub stranger_changes_nothing :
        {c d : NntpConnection W}
        → NoLogin daemon
        → NoTls
        → c.authenticated ≡ false
        → Served c d
        → guarded (left_by d (turn daemon d)) ≡ guarded c
    stranger_changes_nothing {c} {d} n t h r =
        let k = Served-Keeps n t h r in
        let still = ap (λ (g : Guarded W). g.1.1.1) k ∙ h in turn-Keeps d n t still ∙ k
