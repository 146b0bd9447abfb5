-- ===== src/Daemon/Lines/Crashes.antt =====
-- The lines that crash the loop of runConnection in src/srnd/nntp.go, or leave it waiting.
use srndv.Base.{
  ℕ, ◌≡◌, inl, inr, refl, Bool, true, false, not, ◌&&◌, ◌||◌, Option, none, some, List, [], ◌∷◌,
  ◌++◌, ltb, ◌==◌, length, drop, if◌then◌else◌, Bytes, codes, same, has_prefix, split, to_upper,
  arith, Bool-cases, ℤ, half32, parse_int,
}
use srndv.Daemon.{NntpDaemon, NntpConnection, Run, replied, channel_capacity}
use srndv.Daemon.Pending.{stream_answer, message_set_pending_state}
use srndv.Daemon.Transfer.{takethis_command, ihave_command}
use srndv.Daemon.Reader.{article_command, head_command, stat_command, xover_command}
use srndv.Daemon.Groups.{listgroup_command, newsgroups_command, group_command, list_command}
use srndv.Daemon.Account.{check_command, quit_command, authinfo_command, user_command, pass_command}
use srndv.Daemon.Lines.{
  line_msgid, code_number, first_word, word_command, lone_command, command, handle_line, any_line,
  numbered_line,
}
use srndv.Daemon.Lines.Returned.{
  is_panic, is_blocked, is_short_authinfo, authinfo_command-panics, Comes, Comes-if,
  takethis_command-Comes, ihave_command-Comes, post_command-Comes, article_command-Comes,
  head_command-Comes, stat_command-Comes, xover_command-Comes, listgroup_command-Comes,
  group_command-Comes, mode_command-Comes, check_command-Comes,
}

module _ {W : Type 0} (daemon : NntpDaemon W) where
  -- the words of a command that it does not count
  abbrev pub is_short : Bytes → List Bytes → NntpConnection W → Bool
  is_short line (w ∷ (v ∷ rest)) c =
      not (same (to_upper w) (codes "MODE"))
      && (not (has_prefix (codes "QUIT") line)
          && (same (to_upper w) (codes "AUTHINFO") && is_short_authinfo daemon line v rest c))
  is_short line _ c = false

  abbrev pub is_stream_code : ℕ → Bool
  is_stream_code code =
      code == 238 || (code == 239 || (code == 431 || (code == 439 || code == 438)))

  -- what a call with the first test false comes to
  Comes-below :
      (b p : Bool) (x y : Run W)
      → Comes daemon x
      → (is_panic daemon y ≡ p) × (is_blocked daemon y ≡ false)
      → (is_panic daemon (if b then x else y) ≡ (not b && p))
        × (is_blocked daemon (if b then x else y) ≡ false)
  Comes-below true p x y hx hy = hx
  Comes-below false p x y hx hy = hy

  Comes-under :
      (b p : Bool) (x y : Run W)
      → (is_panic daemon x ≡ p) × (is_blocked daemon x ≡ false)
      → Comes daemon y
      → (is_panic daemon (if b then x else y) ≡ (b && p))
        × (is_blocked daemon (if b then x else y) ≡ false)
  Comes-under true p x y hx hy = hx
  Comes-under false p x y hx hy = hy

  authinfo_command-blocked :
      (line v : Bytes) (rest : List Bytes) (c : NntpConnection W)
      → is_blocked daemon (authinfo_command daemon line v rest c) ≡ false
  unfolding authinfo_command user_command pass_command
  authinfo_command-blocked line v rest c = ground arith

  -- the commands behind AUTHINFO
  later-Comes :
      (msgid cmd v : Bytes) (rest : List Bytes) (c : NntpConnection W)
      → Comes daemon (
          if same cmd (codes "CHECK")
          then check_command daemon v c
          else if same cmd (codes "TAKETHIS")
          then takethis_command daemon msgid c
          else if same cmd (codes "ARTICLE")
          then article_command daemon msgid c
          else if same cmd (codes "IHAVE")
          then ihave_command daemon v c
          else if same cmd (codes "LISTGROUP")
          then listgroup_command daemon v c
          else if same cmd (codes "NEWSGROUPS")
          then newsgroups_command daemon c
          else if same cmd (codes "XOVER")
          then xover_command daemon c
          else if same cmd (codes "HEAD")
          then head_command daemon v c
          else if same cmd (codes "GROUP")
          then group_command daemon v c
          else if same cmd (codes "LIST") && same v (codes "NEWSGROUPS")
          then list_command daemon c
          else if same cmd (codes "STAT")
          then stat_command daemon v rest c
          else replied c (codes "500 Invalid command: " ++ cmd))
  unfolding newsgroups_command list_command
  later-Comes msgid cmd v rest c =
      Comes-if daemon (same cmd (codes "CHECK")) _ _ (check_command-Comes daemon v c) (
        Comes-if daemon (same cmd (codes "TAKETHIS")) _ _ (takethis_command-Comes daemon msgid c) (
          Comes-if daemon (same cmd (codes "ARTICLE")) _ _ (article_command-Comes daemon msgid c) (
            Comes-if daemon (same cmd (codes "IHAVE")) _ _ (ihave_command-Comes daemon v c) (
              Comes-if daemon (same cmd (codes "LISTGROUP")) _ _
                (listgroup_command-Comes daemon v c)
                (Comes-if daemon (same cmd (codes "NEWSGROUPS")) _ _ (refl, refl)
                  (Comes-if daemon (same cmd (codes "XOVER")) _ _ (xover_command-Comes daemon c) (
                    Comes-if daemon (same cmd (codes "HEAD")) _ _ (head_command-Comes daemon v c) (
                      Comes-if daemon (same cmd (codes "GROUP")) _ _
                        (group_command-Comes daemon v c)
                        (Comes-if daemon (same cmd (codes "LIST") && same v (codes "NEWSGROUPS")) _
                          _ (refl, refl)
                          (Comes-if daemon (same cmd (codes "STAT")) _ _
                            (stat_command-Comes daemon v rest c) (refl, refl)))))))))))

  command_lem :
      (line msgid : Bytes) (ws : List Bytes) (c : NntpConnection W)
      → (is_panic daemon (command daemon line msgid ws c) ≡ is_short line ws c)
        × (is_blocked daemon (command daemon line msgid ws c) ≡ false)
  unfolding command word_command lone_command quit_command list_command
  command_lem line msgid [] c =
      Comes-if daemon (same line (codes "LIST")) _ _ (refl, refl)
        (Comes-if daemon (same line (codes "POST")) _ _ (post_command-Comes daemon c) (refl, refl))
  command_lem line msgid (w ∷ []) c =
      Comes-if daemon (same line (codes "LIST")) _ _ (refl, refl)
        (Comes-if daemon (same line (codes "POST")) _ _ (post_command-Comes daemon c) (refl, refl))
  command_lem line msgid (w ∷ (v ∷ rest)) c =
      let cmd = to_upper w in
      Comes-below (same cmd (codes "MODE")) _ _ _ (mode_command-Comes daemon v c) (
        Comes-below (has_prefix (codes "QUIT") line) _ _ _ (refl, refl)
          (Comes-under (same cmd (codes "AUTHINFO")) _ _ _
            (authinfo_command-panics daemon line v rest c, authinfo_command-blocked line v rest c)
            (later-Comes msgid cmd v rest c)))

  stream_answer_lem :
      (code : ℕ) (msgid : Bytes) (c : NntpConnection W) (r : Run W) (p : Bool)
      → (is_panic daemon r ≡ p) × (is_blocked daemon r ≡ false)
      → (is_panic daemon (stream_answer daemon code msgid c r) ≡ (not (is_stream_code code) && p))
        × (is_blocked daemon (stream_answer daemon code msgid c r)
            ≡ (code == 238 && not (ltb (length c.takethis) channel_capacity)))
  unfolding stream_answer message_set_pending_state
  stream_answer_lem code msgid c r p h = ground arith

  -- Does handleLine panic?
  abbrev pub is_fatal : ℕ → Bytes → NntpConnection W → Bool
  is_fatal code line c = not (is_stream_code code) && is_short line (split 32 line) c

  -- Does handleLine wait for a place in the full channel of TAKETHIS?
  abbrev pub is_stalled : ℕ → NntpConnection W → Bool
  is_stalled code c = code == 238 && not (ltb (length c.takethis) channel_capacity)

  handle_line_lem :
      (code : ℕ) (line : Bytes) (c : NntpConnection W)
      → (is_panic daemon (handle_line daemon code line c) ≡ is_fatal code line c)
        × (is_blocked daemon (handle_line daemon code line c) ≡ is_stalled code c)
  unfolding handle_line
  handle_line_lem code line c =
      let parts = split 32 line in
      let msgid = line_msgid code parts in
      stream_answer_lem code msgid c (command daemon line msgid parts c) _
        (command_lem line msgid parts c)

  abbrev pub is_fatal_line : Bytes → NntpConnection W → Option ℤ → Bool
  is_fatal_line line c (some n) = ltb (length line) 4 || is_fatal (code_number n) (drop 4 line) c
  is_fatal_line line c none = is_fatal 0 line c

  abbrev pub is_stalled_line : Bytes → NntpConnection W → Option ℤ → Bool
  is_stalled_line line c (some n) = not (ltb (length line) 4) && is_stalled (code_number n) c
  is_stalled_line line c none = false

  numbered_line_lem :
      (line : Bytes) (c : NntpConnection W) (n : Option ℤ)
      → (is_panic daemon (numbered_line daemon line c n) ≡ is_fatal_line line c n)
        × (is_blocked daemon (numbered_line daemon line c n) ≡ is_stalled_line line c n)
  numbered_line_lem line c none = handle_line_lem 0 line c
  numbered_line_lem line c (some n) = elim (Bool-cases (ltb (length line) 4)) [
    | inl e ↦ rw e (refl, refl)
    | inr e ↦ rw e (handle_line_lem (code_number n) (drop 4 line) c)
  ]

  -- A line that the loop hands to handleLine panics, and ends the process, exactly if it starts
  -- with a number and is shorter than four bytes, or is an AUTHINFO USER without a name or an
  -- AUTHINFO PASS of a known user below 14 bytes, and carries no code of a streaming peer. It
  -- waits for a place in the channel of the sender exactly if it is a 238 while 1024 articles wait
  -- to be sent. Neither depends on whether the peer has authenticated.
  pub any_line_panics :
      (line : Bytes) (c : NntpConnection W)
      → let n = parse_int half32 (first_word (split 32 line)) in
        (is_panic daemon (any_line daemon line c) ≡ is_fatal_line line c n)
        × (is_blocked daemon (any_line daemon line c) ≡ is_stalled_line line c n)
  unfolding any_line
  any_line_panics line c = numbered_line_lem line c (parse_int half32 (first_word (split 32 line)))
