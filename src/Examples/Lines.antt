-- ===== src/Examples/Lines.antt =====
-- Lines that a peer sends, for the handlers and the loop.
use srndv.Base.{
  ℕ, ◌≡◌, ◌++◌, inl, refl, true, false, none, some, List, [], ◌∷◌, Bytes, codes, same, arith,
  is_none,
}
use srndv.Header.Io.{read_header, read_from}
use srndv.Nntp.Mode.{mode_unset, mode_stream, is_mode}
use srndv.Nntp.Stream.{stream_check, create_stream_event}
use srndv.Store.{Files, store_article, write_article, has_article}
use srndv.Inbound.{Conn, dot_read}
use srndv.Inbound.Commands.{reply, streaming_line}
use srndv.Inbound.Commands.Transfer.{after}
use srndv.Inbound.Commands.Streaming.{check_code, check_replies}
use srndv.Inbound.Process.{panicked, handle_line, process}
use srndv.Inbound.Process.Dispatch.{process_panics}
use srndv.Inbound.Evolution.{IsSane, Ensures}
use srndv.Inbound.Evolution.Loop.{Keeps, EndsWell, handle_line-Keeps, process-EndsWell}
use srndv.Header.Io.Sound.{Returns}
use srndv.Inbound.Evolution.Panics.{IsWhole, handle_line-Returns}
use srndv.Inbound.Article.Whole.{IsThorough}
use srndv.Examples.{env_of, conn_of, no_files, id, writable, article_lines}
use srndv.Examples.Idents.{id_valid}

abbrev quiet : Conn Files
quiet = conn_of mode_unset [] no_files

quiet-IsSane : IsSane quiet
quiet-IsSane = record { proper_mode = inl refl; proper_group = inl refl }

-- IHAVE, the article, and the end
abbrev session : List Bytes
session = (codes "IHAVE " ++ id) ∷ (article_lines ++ codes "QUIT" ∷ [] ∷ [])

session-IsSane : IsSane (conn_of mode_unset session no_files)
session-IsSane = record { proper_mode = inl refl; proper_group = inl refl }

-- nothing stops the copy of a body on a disk without faults, by a parser that reads to the end
env_of-IsThorough : (status max : ℕ) → IsThorough (env_of status max)
unfolding store_article write_article has_article
env_of-IsThorough status max = record {
  reads_all = λ hdr body. refl;
  takes_all = λ s r id. ground arith;
}

process-EndsWell_example :
    EndsWell
      (env_of 0 100)
      (conn_of mode_unset session no_files)
      (process (env_of 0 100) 20 (conn_of mode_unset session no_files))
process-EndsWell_example =
    process-EndsWell (env_of 0 100) 20 (conn_of mode_unset session no_files) (omega arith)
      session-IsSane

handle_line-Keeps_example :
    Ensures (Keeps quiet) (handle_line (env_of 0 100) quiet (codes "MODE STREAM"))
handle_line-Keeps_example =
    handle_line-Keeps (env_of 0 100) quiet (codes "MODE STREAM") quiet-IsSane

abbrev cut_article : List Bytes
cut_article = codes "." ∷ []

cut_short : (read_header (dot_read cut_article).0).complete ≡ false
unfolding read_header read_from dot_read same
cut_short = refl

abbrev attack : Conn Files
attack = conn_of mode_unset ((codes "IHAVE" ++ (32 ∷ id)) ∷ cut_article) no_files

process_panics_example : process (env_of 0 100) 5 attack ≡ panicked
process_panics_example =
    process_panics (env_of 0 100) 4 attack id cut_article
      (writable 0 100 mode_unset attack.input no_files) id_valid refl cut_short

abbrev streaming : Conn Files
streaming = conn_of mode_stream [] no_files

in_stream_mode : is_mode mode_stream mode_stream ≡ true
unfolding is_mode
in_stream_mode = refl

check_replies_example :
    streaming_line (env_of 0 100) streaming (create_stream_event stream_check id)
    ≡ some (
      after streaming (
          reply
            (check_code
              (env_of 0 100).acceptor
              (is_none ((env_of 0 100).storage.has_article no_files id))
              id)
            id),
      none,
    )
check_replies_example =
    check_replies (env_of 0 100) streaming id (writable 0 100 mode_stream [] no_files)
      in_stream_mode id_valid

abbrev plain : Conn Files
plain = record quiet {
  input = codes "injected" ∷ [];
  handshakes = record { err = none; lines = codes "POST" ∷ [] } ∷ [];
}

IsWhole-article : IsWhole (conn_of mode_unset article_lines no_files)
unfolding read_header read_from dot_read same
IsWhole-article = refl

handle_line-Returns_example :
    Returns (
      handle_line (env_of 0 100) (conn_of mode_unset article_lines no_files) (codes "IHAVE " ++ id))
handle_line-Returns_example =
    handle_line-Returns (env_of 0 100) (conn_of mode_unset article_lines no_files)
      (codes "IHAVE " ++ id) IsWhole-article
