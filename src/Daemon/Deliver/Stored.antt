-- ===== src/Daemon/Deliver/Stored.antt =====
-- What storeMessage of src/srnd/nntp.go promises about the store.
use srndv.Base.{
  ◌≡◌, inl, inr, refl, sym, ap, ap₂, ◌∙◌, append_assoc, List, Bool, true, false, Option, none, some,
  [], ◌∷◌, ◌++◌, Bytes, same, Bool-cases,
}
use srndv.Header.{Header}
use srndv.Header.Io.{write_values, write_entries, write_header}
use srndv.Inbound.{Error}
use srndv.Nntp.Ident.{message_id_valid}
use srndv.Daemon.{NntpDaemon, NntpConnection, Body}
use srndv.Daemon.Mime.{get_message_id, write_mime_header, value_pieces, header_pieces}
use srndv.Daemon.Deliver.{
  discard, stored_header, write_head, close_up, with_body, with_header, with_file, store_message,
}

abbrev joined : List Bytes → Bytes
joined [] = []
joined (s ∷ pieces) = s ++ joined pieces

joined-append : (a b : List Bytes) → joined (a ++ b) ≡ joined a ++ joined b
joined-append [] b = refl
joined-append (s ∷ a) b =
    ap (λ t. s ++ t) (joined-append a b) ∙ sym (append_assoc s (joined a) (joined b))

joined-value_pieces : (k : Bytes) (vs : List Bytes) → joined (value_pieces k vs) ≡ write_values k vs
unfolding value_pieces write_values
joined-value_pieces k [] = refl
joined-value_pieces k (v ∷ vs) =
    ap (λ t. k ++ (58 ∷ (32 ∷ (v ++ (10 ∷ t))))) (joined-value_pieces k vs)

-- Where no write fails, what is written is the text of the header.
pub joined-header_pieces :
    (hdr : Header) → joined (header_pieces hdr) ++ 10 ∷ [] ≡ write_mime_header hdr
unfolding write_mime_header write_header header_pieces write_entries
joined-header_pieces hdr = ap (λ t. t ++ 10 ∷ []) (entries hdr)
  where
    entries : (hdr : Header) → joined (header_pieces hdr) ≡ write_entries hdr
    entries [] = refl
    entries ((k, vs) ∷ hdr) =
        joined-append (value_pieces k vs) (header_pieces hdr)
        ∙ ap₂ ◌++◌ (joined-value_pieces k vs) (entries hdr)

module _ {W : Type 0} (daemon : NntpDaemon W) where
  -- The article is in the store: its file was made; its header was written, the last of its writes
  -- without an error, whatever the others came to; its body was written without an error; and the
  -- file was closed.
  pub record Written (w w' : W) (msgid : Bytes) (hdr : Header) (body : Body) : Type 0 where
    pub opened : W
    pub headed : W
    pub filled : W
    pub create : daemon.store.create_file w msgid ≡ (opened, true)
    pub head : write_head daemon opened msgid hdr ≡ (headed, none)
    pub fill : daemon.store.process_message_body headed msgid hdr body ≡ (filled, none)
    pub closed : w' ≡ daemon.store.close_file filled msgid

  -- What storeMessage comes to: the article is in the store and the daemon is told; or nothing is
  -- told, and the store is as it was, or CreateFile refused, or the file is gone again.
  pub data Outcome (c c' : NntpConnection W) (hdr : Header) (body : Body) (err : Option Error)
      : Type 0 where
    stored :
        err ≡ none
        → Written c.world c'.world (get_message_id hdr) (stored_header daemon hdr) body
        → c'.infeed ≡ c.infeed ++ get_message_id hdr ∷ []
        → Outcome c c' hdr body err
    dropped : c' ≡ c → err ≡ discard body → Outcome c c' hdr body err
    duplicate :
        (w : W)
        → daemon.store.create_file c.world (get_message_id hdr) ≡ (w, false)
        → c' ≡ record c { world = w }
        → err ≡ discard body
        → Outcome c c' hdr body err
    removed :
        (w : W) (e : Error)
        → err ≡ some e
        → c' ≡ record c {
          world =
              daemon.store.del_file
                (daemon.store.close_file w (get_message_id hdr))
                (get_message_id hdr);
        }
        → Outcome c c' hdr body err

  module _ (c : NntpConnection W) (hdr : Header) (body : Body) where
    abbrev msgid : Bytes
    msgid = get_message_id hdr

    abbrev IsOutcome : NntpConnection W × Option Error → Type 0
    IsOutcome r = Outcome c r.0 hdr body r.1

    close_up-removed :
        (w : W) (e : Error)
        → message_id_valid msgid ≡ true
        → IsOutcome (close_up daemon msgid c (w, some e))
    close_up-removed w e v = removed w e refl (rw v refl)

    with_body-IsOutcome :
        (w0 w : W) (r : W × Option Error)
        → message_id_valid msgid ≡ true
        → daemon.store.create_file c.world msgid ≡ (w0, true)
        → write_head daemon w0 msgid (stored_header daemon hdr) ≡ (w, none)
        → daemon.store.process_message_body w msgid (stored_header daemon hdr) body ≡ r
        → IsOutcome (with_body daemon msgid c r)
    with_body-IsOutcome w0 w (w', none) v k h f =
        stored refl
          (record {
            opened = w0;
            headed = w;
            filled = w';
            create = k;
            head = h;
            fill = f;
            closed = refl;
          })
          refl
    with_body-IsOutcome w0 w (w', some e) v k h f = close_up-removed w' e v

    with_header-IsOutcome :
        (w0 : W) (r : W × Option Error)
        → message_id_valid msgid ≡ true
        → daemon.store.create_file c.world msgid ≡ (w0, true)
        → write_head daemon w0 msgid (stored_header daemon hdr) ≡ r
        → IsOutcome (with_header daemon msgid (stored_header daemon hdr) body c r)
    with_header-IsOutcome w0 (w, none) v k h = with_body-IsOutcome w0 w _ v k h refl
    with_header-IsOutcome w0 (w, some e) v k h = close_up-removed w e v

    with_file-IsOutcome :
        (r : W × Bool)
        → message_id_valid msgid ≡ true
        → daemon.store.create_file c.world msgid ≡ r
        → IsOutcome (with_file daemon msgid hdr body c r)
    with_file-IsOutcome (w, true) v k = with_header-IsOutcome w _ v k refl
    with_file-IsOutcome (w, false) v k = duplicate w k refl refl

    pub store_message_lem : let r = store_message daemon c hdr body in Outcome c r.0 hdr body r.1
    unfolding store_message
    store_message_lem = elim (Bool-cases (same msgid [])) [
      | inl e ↦ rw e (dropped refl refl)
      | inr e ↦ rw e (elim (Bool-cases (message_id_valid msgid)) [
        | inl v ↦ rw v (with_file-IsOutcome _ v refl)
        | inr v ↦ rw v (dropped refl refl)
      ])
    ]
