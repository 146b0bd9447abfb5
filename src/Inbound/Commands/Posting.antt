-- ===== src/Inbound/Commands/Posting.antt =====
-- POST, MODE and QUIT of lib/nntp/conn_v1.go.
use srndv.Base.{
  ◌≡◌, ◌⊎◌, false, ◌||◌, none, some, if◌then◌else◌, Bytes, codes, same, arith, to_upper,
}
use srndv.Nntp.Codes.{
  rpl_wrong_mode, rpl_posting_not_permitted, line_streaming_allowed, line_invalid_mode,
}
use srndv.Nntp.Mode.{is_mode, mode_reader, mode_stream}
use srndv.Inbound.{Env, Conn, authed, posting_allowed}
use srndv.Inbound.Commands.{reply, posting_line, switch_mode_inbound, nntp_post_article}
use srndv.Inbound.Commands.Transfer.{IsWritable, after, printf_line-after}

module _ {S : Type 0} (env : Env S) where
  -- POST takes an article only from a peer that is authenticated or under TLS and is in reader
  -- mode. From any other peer it takes no line and changes neither storage nor mode: on a socket
  -- that takes every line it sends 440 to a peer that is neither, and 401 to one in another mode.
  pub post_guarded :
      (c : Conn S) (line : Bytes)
      → IsWritable env c
      → (c.tls_on || c.authenticated) ≡ false ⊎ is_mode c.state.mode mode_reader ≡ false
      → nntp_post_article env c line
        ≡ some (
          after c (
              if c.tls_on || c.authenticated
              then reply rpl_wrong_mode (codes "not in reader mode")
              else reply rpl_posting_not_permitted (codes "posting is disallowed")),
          none,
        )
  unfolding nntp_post_article posting_allowed authed
  post_guarded c line w h = ground (
    arith,
    printf_line-after env c (reply rpl_wrong_mode (codes "not in reader mode")) w,
    printf_line-after env c (reply rpl_posting_not_permitted (codes "posting is disallowed")) w,
  )

  -- MODE on a socket that takes every line: a line that reads "mode reader" in any case selects the
  -- reader mode and says whether posting is allowed, "mode stream" the streaming mode, and any
  -- other line is refused and selects nothing. Nothing but the mode and the line sent changes.
  pub mode_selects :
      (c : Conn S) (line : Bytes)
      → IsWritable env c
      → switch_mode_inbound env c line
        ≡ some (
          (let mode =
                if same (to_upper line) (codes "MODE READER")
                then mode_reader
                else if same (to_upper line) (codes "MODE STREAM")
                then mode_stream
                else c.state.mode in
              let said =
                if same (to_upper line) (codes "MODE READER")
                then posting_line c
                else if same (to_upper line) (codes "MODE STREAM")
                then line_streaming_allowed
                else line_invalid_mode in
              record (after c said) { state = record c.state { mode = mode } }),
          none,
        )
  unfolding switch_mode_inbound is_mode to_upper
  mode_selects c line w = ground (
    arith,
    printf_line-after env c (posting_line c) w,
    printf_line-after env c line_streaming_allowed w,
    printf_line-after env c line_invalid_mode w,
  )
