-- ===== src/Daemon/Account.antt =====
-- The commands of handleLine in src/srnd/nntp.go that change what a connection may do: MODE, QUIT
-- and AUTHINFO, and CHECK, which asks whether an article is wanted.
use srndv.Base.{
  Bool, true, false, not, ◌&&◌, Option, none, some, List, [], ◌∷◌, ◌++◌, ltb, length, drop,
  if◌then◌else◌, Bytes, codes, same, to_upper,
}
use srndv.Inbound.{Error}
use srndv.Daemon.{NntpDaemon, NntpConnection, Run, panics, returns, print_line, replied}

module _ {W : Type 0} (daemon : NntpDaemon W) where
  -- MODE; the reply to an unknown one is a format without a verb for its argument
  unfoldable pub mode_command : Bytes → NntpConnection W → Run W
  unfolding to_upper
  mode_command word c =
      let mode = to_upper word in
      if same mode (codes "READER")
      then replied (record c { mode = codes "READER" })
          (if c.authenticated
            then codes "200 Posting Permitted"
            else codes "201 No posting Permitted")
      else if same mode (codes "STREAM") && c.authenticated
      then replied c (codes "203 Streaming enabled brah")
      else replied c (codes "501 invalid mode variant:%!(EXTRA string=" ++ (word ++ codes ")"))

  unfoldable pub quit_command : NntpConnection W → Run W
  quit_command c = returns (record (print_line c (codes "205 bai")) { is_open = false }) none

  -- AUTHINFO USER; `parts[2]` panics where there is no third word
  unfoldable pub user_command : List Bytes → NntpConnection W → Run W
  user_command [] c = panics
  user_command (name ∷ _) c = replied (record c { username = name }) (codes "381 Password required")

  -- the reply to a login
  abbrev pub login_reply : NntpConnection W → Bool × Option Error → Run W
  login_reply c (true, err) =
      returns (print_line (record c { authenticated = true }) (codes "281 Authentication accepted"))
        err
  login_reply c (false, none) = returns (print_line c (codes "481 Authentication rejected")) none
  login_reply c (false, some e) =
      returns (print_line c (codes "501 error while logging in")) (some e)

  -- `line[14:]` panics below 14 bytes
  abbrev pub user_known : Bytes → NntpConnection W → Bool × Option Error → Run W
  user_known line c (true, err) =
      if ltb (length line) 14
      then panics
      else login_reply c (daemon.database.check_nntp_login c.world c.username (drop 14 line))
  user_known line c (false, err) = login_reply c (false, err)

  unfoldable pub pass_command : Bytes → NntpConnection W → Run W
  pass_command line c =
      if same c.username []
      then replied c (codes "482 Authentication commands issued out of sequence")
      else user_known line c (daemon.database.check_nntp_user_exists c.world c.username)

  -- AUTHINFO; `words` are those behind the second
  unfoldable pub authinfo_command : Bytes → Bytes → List Bytes → NntpConnection W → Run W
  unfolding to_upper user_command pass_command
  authinfo_command line word words c =
      if same (to_upper word) (codes "USER")
      then user_command words c
      else if same (to_upper word) (codes "PASS")
      then pass_command line c
      else returns c none

  -- CHECK
  unfoldable pub check_command : Bytes → NntpConnection W → Run W
  check_command msgid c =
      if not (same c.mode (codes "STREAM"))
      then replied c (codes "431 " ++ msgid)
      else if daemon.database.has_article c.world msgid
      then replied c (codes "438 " ++ msgid)
      else if daemon.database.article_banned c.world msgid
      then replied c (codes "438 " ++ msgid)
      else replied c (codes "238 " ++ msgid)
