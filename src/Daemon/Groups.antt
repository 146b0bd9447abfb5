-- ===== src/Daemon/Groups.antt =====
-- The commands of handleLine in src/srnd/nntp.go for newsgroups: LISTGROUP, NEWSGROUPS, GROUP and
-- LIST.
use srndv.Base.{
  ℕ, ◌+◌, ◌-◌, zero, suc, not, ◌&&◌, none, List, [], ◌∷◌, ◌++◌, if◌then◌else◌, Bytes, codes, same,
  decimal,
}
use srndv.Inbound.{Error, Answer, answer, failed}
use srndv.Inbound.Groups.{group_line}
use srndv.Nntp.Ident.{newsgroup_valid}
use srndv.Daemon.{
  NntpDaemon, NntpConnection, Run, returns, print_line, print_lines, replied, dot_writer,
}

-- the numbers from `lo` on, a line each
unfoldable pub number_lines : ℕ → ℕ → Bytes
unfolding decimal
number_lines zero lo = []
number_lines (suc n) lo = decimal lo ++ (10 ∷ number_lines n (lo + 1))

-- the loop from `lo` to `hi`
unfoldable pub numbers_text : ℕ → ℕ → Bytes
unfolding number_lines
numbers_text lo hi = number_lines (hi + 1 - lo) lo

-- a newsgroup without its numbers gets no line
abbrev pub first_last_line : Bytes → Answer (ℕ × ℕ) → Bytes
first_last_line g (answer (last, first)) = group_line g first last ++ 10 ∷ []
first_last_line g (failed e) = []

-- NEWSGROUPS names the last number `lo` and the first one `hi`, and prints `lo` before `hi`
abbrev pub last_first_line : Bytes → Answer (ℕ × ℕ) → Bytes
last_first_line g (answer (lo, hi)) = group_line g lo hi ++ 10 ∷ []
last_first_line g (failed e) = []

module _ {W : Type 0} (daemon : NntpDaemon W) where
  abbrev pub numbers_failed : NntpConnection W → Error → Run W
  numbers_failed c e = replied c (codes "500 error in LISTGROUP: " ++ e)

  abbrev pub listgroup_numbers : Bytes → ℕ → NntpConnection W → Answer (ℕ × ℕ) → Run W
  listgroup_numbers group count c (answer (hi, lo)) =
      returns
        (print_lines
          (print_line c (
            codes "211 "
            ++ (decimal count
                ++ (b' '
                    ∷ (decimal lo
                        ++ (b' ' ∷ (decimal hi ++ (b' ' ∷ (group ++ codes " list follows")))))))))
          (dot_writer (numbers_text lo hi)))
        none
  listgroup_numbers group count c (failed e) = numbers_failed c e

  abbrev pub listgroup_counted : Bytes → NntpConnection W → Answer ℕ → Run W
  listgroup_counted group c (answer count) =
      listgroup_numbers group count c (daemon.database.get_last_and_first c.world group)
  listgroup_counted group c (failed e) = numbers_failed c e

  -- LISTGROUP; handleLine calls it with at least two words
  unfoldable pub listgroup_command : Bytes → NntpConnection W → Run W
  unfolding newsgroup_valid decimal numbers_text dot_writer
  listgroup_command group c =
      if not (same group []) && newsgroup_valid group
      then (if daemon.database.has_newsgroup c.world group
          then listgroup_counted group c (daemon.database.count_all_articles_in_group c.world group)
          else replied c (codes "411 no such newsgroup"))
      else replied c (codes "412 no newsgroup selected")

  unfoldable pub groups_text : (Bytes → Answer (ℕ × ℕ) → Bytes) → W → List Bytes → Bytes
  unfolding group_line
  groups_text line w [] = []
  groups_text line w (g ∷ gs) =
      line g (daemon.database.get_last_and_first w g) ++ groups_text line w gs

  -- NEWSGROUPS
  unfoldable pub newsgroups_command : NntpConnection W → Run W
  unfolding groups_text dot_writer
  newsgroups_command c =
      returns
        (print_lines (print_line c (codes "231 List of newsgroups follow")) (
          dot_writer
            (groups_text last_first_line c.world (daemon.database.get_all_newsgroups c.world))))
        none

  -- LIST and LIST NEWSGROUPS
  unfoldable pub list_command : NntpConnection W → Run W
  unfolding groups_text dot_writer
  list_command c =
      returns
        (print_lines (print_line c (codes "215 list of newsgroups follows")) (
          dot_writer
            (groups_text first_last_line c.world (daemon.database.get_all_newsgroups c.world))))
        none

  abbrev pub group_reply : Bytes → ℕ → NntpConnection W → Answer (ℕ × ℕ) → Run W
  group_reply group number c (answer (hi, low)) = replied c (
      codes "211 "
      ++ (decimal number ++ (b' ' ∷ (decimal low ++ (b' ' ∷ (decimal hi ++ (b' ' ∷ group)))))))
  group_reply group number c (failed e) =
      replied c (codes "211 " ++ (decimal number ++ (codes " 0 1 " ++ group)))

  -- GROUP
  unfoldable pub group_command : Bytes → NntpConnection W → Run W
  unfolding decimal
  group_command group c =
      if daemon.database.has_newsgroup c.world group
      then group_reply group (daemon.database.count_posts_in_group c.world group)
          (record c { group = group }) (daemon.database.get_last_and_first c.world group)
      else replied c (codes "411 No Such Newsgroup")
