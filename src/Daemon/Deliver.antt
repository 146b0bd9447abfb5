-- ===== src/Daemon/Deliver.antt =====
-- storeMessage of src/srnd/nntp.go: an article is written to the store and handed to the daemon.
pub mod Stored
use srndv.Base.{
  ℕ, Bool, true, false, Option, none, some, List, [], ◌∷◌, ◌++◌, if◌then◌else◌, is_none, Bytes,
  codes, same,
}
use srndv.Header.{Header}
use srndv.Inbound.{Error}
use srndv.Nntp.Ident.{message_id_valid}
use srndv.Daemon.{NntpDaemon, NntpConnection, Body}
use srndv.Daemon.Mime.{mime_get, mime_set, get_message_id, header_pieces}

-- io.ErrUnexpectedEOF
abbrev pub unexpected_eof : Error
unexpected_eof = codes "unexpected EOF"

-- io.Copy(Discard, body)
abbrev pub discard : Body → Option Error
discard body = if body.complete then none else some unexpected_eof

module _ {W : Type 0} (daemon : NntpDaemon W) where
  -- the header with which the article is kept
  unfoldable pub stored_header : Header → Header
  unfolding mime_get mime_set
  stored_header hdr =
      mime_set hdr (codes "Path") (daemon.instance_name ++ (b'!' ∷ mime_get hdr (codes "Path")))

  -- writeMIMEHeader into the file: the error of every write but the last is overwritten
  unfoldable pub write_pieces : W → Bytes → List Bytes → W
  write_pieces w msgid [] = w
  write_pieces w msgid (s ∷ pieces) =
      write_pieces (daemon.store.write_file w msgid s).0 msgid pieces

  unfoldable pub write_head : W → Bytes → Header → W × Option Error
  unfolding write_pieces header_pieces
  write_head w msgid hdr =
      daemon.store.write_file (write_pieces w msgid (header_pieces hdr)) msgid (10 ∷ [])

  -- the file is closed, and deleted after an error
  abbrev pub close_up :
      Bytes → NntpConnection W → W × Option Error → NntpConnection W × Option Error
  close_up msgid c (w, none) = (record c { world = daemon.store.close_file w msgid }, none)
  close_up msgid c (w, some e) = (
    record c {
      world =
          if message_id_valid msgid
          then daemon.store.del_file (daemon.store.close_file w msgid) msgid
          else daemon.store.close_file w msgid;
    },
    some e,
  )

  -- loadFromInfeed
  abbrev pub told : Bytes → NntpConnection W → Option Error → NntpConnection W
  told msgid c none = record c { infeed = c.infeed ++ msgid ∷ [] }
  told msgid c (some e) = c

  abbrev pub with_body :
      Bytes → NntpConnection W → W × Option Error → NntpConnection W × Option Error
  with_body msgid c (w, err) = close_up msgid (told msgid c err) (w, err)

  abbrev pub with_header :
      Bytes → Header → Body → NntpConnection W → W × Option Error → NntpConnection W × Option Error
  with_header msgid hdr body c (w, none) =
      with_body msgid c (daemon.store.process_message_body w msgid hdr body)
  with_header msgid hdr body c (w, some e) = close_up msgid c (w, some e)

  -- behind CreateFile; a second copy of an article that is being stored is dropped
  abbrev pub with_file :
      Bytes → Header → Body → NntpConnection W → W × Bool → NntpConnection W × Option Error
  with_file msgid hdr body c (w, true) =
      with_header msgid (stored_header hdr) body c (write_head w msgid (stored_header hdr))
  with_file msgid hdr body c (w, false) = (record c { world = w }, discard body)

  -- storeMessage
  unfoldable pub store_message : NntpConnection W → Header → Body → NntpConnection W × Option Error
  unfolding get_message_id message_id_valid stored_header write_head
  store_message c hdr body =
      let msgid = get_message_id hdr in
      if same msgid []
      then (c, discard body)
      else if message_id_valid msgid
      then with_file msgid hdr body c (daemon.store.create_file c.world msgid)
      else (c, discard body)
