-- ===== src/Examples/Daemons/Lines.antt =====
-- Lines of strangers and of friends for handleLine of src/srnd/nntp.go.
use srndv.Base.{
  ◌≡◌, refl, true, false, ◌&&◌, Option, [], ◌∷◌, ◌++◌, Bytes, codes, half32, parse_int, split,
}
use srndv.Inbound.{Error}
use srndv.Daemon.{NntpConnection, returns}
use srndv.Daemon.Wanted.{facts, check_mime_header}
use srndv.Daemon.Wanted.Accepted.{is_acceptable, is_nil, check_mime_header_lem}
use srndv.Daemon.Transfer.{post_command}
use srndv.Daemon.Transfer.Replies.{post_never_confirmed}
use srndv.Daemon.Lines.{any_line, turn, first_word}
use srndv.Daemon.Lines.Kept.{guarded, NoLogin}
use srndv.Daemon.Lines.Strangers.{left_by, NoTls, here, stranger_changes_nothing}
use srndv.Daemon.Lines.Returned.{is_panic, is_blocked}
use srndv.Daemon.Lines.Crashes.{is_fatal_line, is_stalled_line, any_line_panics}
use srndv.Daemon.Scrape.{request_article}
use srndv.Daemon.Scrape.Requested.{Took, request_article-Took}
use srndv.Examples.Daemons.{Ids, small_daemon, dialled, posted_lines, new_header}

check_mime_header_lem_example :
    is_nil (check_mime_header small_daemon (dialled true []) new_header).reason
    ≡ (true && is_acceptable small_daemon (dialled true []).world (facts new_header))
check_mime_header_lem_example = check_mime_header_lem small_daemon (dialled true []) new_header

no_login : NoLogin small_daemon
no_login w u p = refl

no_tls : NoTls small_daemon
no_tls lines = (codes "no TLS", refl)

stranger_changes_nothing_example :
    let c = dialled false (codes "TAKETHIS <new1@there>" ∷ posted_lines) in
    guarded (left_by small_daemon c (turn small_daemon c)) ≡ guarded c
stranger_changes_nothing_example = stranger_changes_nothing small_daemon no_login no_tls refl here

any_line_panics_example :
    let c = dialled false [] in
    let n = parse_int half32 (first_word (split 32 (codes "238"))) in
    (is_panic small_daemon (any_line small_daemon (codes "238") c)
      ≡ is_fatal_line small_daemon (codes "238") c n)
    × (is_blocked small_daemon (any_line small_daemon (codes "238") c)
        ≡ is_stalled_line small_daemon (codes "238") c n)
any_line_panics_example = any_line_panics small_daemon (codes "238") (dialled false [])

post_never_confirmed_example :
    (c' : NntpConnection Ids) × (err : Option Error) × (reason : Bytes) × (post_command small_daemon
        (dialled true posted_lines)
      ≡ returns c' err)
    × (c'.sent
        ≡ codes "340 Yeeeh postit yo; end with <CR-LF>.<CR-LF>"
          ∷ (codes "441 Posting Failed " ++ reason)
          ∷ [])
post_never_confirmed_example = post_never_confirmed small_daemon (dialled true posted_lines) refl

request_article-Took_example :
    let c = dialled false (codes "220 <new1@there>" ∷ posted_lines) in
    Took small_daemon c.world c (request_article small_daemon (codes "<new1@there>") c).1
request_article-Took_example =
    request_article-Took small_daemon (codes "<new1@there>")
      (dialled false (codes "220 <new1@there>" ∷ posted_lines))
