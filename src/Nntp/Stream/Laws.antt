-- ===== src/Nntp/Stream/Laws.antt =====
-- What lib/nntp/streaming.go writes, it reads back.
use srndv.Base.{
  ℕ, ◌≡◌, refl, ap, ◌∙◌, Bool, true, false, [], ◌∷◌, ◌++◌, ◌==◌, all, Bytes, split, split_free,
  split-append, count_byte, count_byte-append, arith, Bool-cases, inl, inr,
}
use srndv.Nntp.Ident.{is_local, is_host, message_id_valid, message_id_line}
use srndv.Nntp.Ident.Language.{IsMessageId, message_id_line_iff, message_id_line-valid}
use srndv.Nntp.Stream.{event_message_id, event_command, event_valid, create_stream_event}

class_no_space : (p : ℕ → Bool) (s : Bytes) → p 32 ≡ false → all p s ≡ true → count_byte 32 s ≡ 0
unfolding count_byte
class_no_space p [] h a = refl
class_no_space p (c ∷ cs) h a = elim (Bool-cases (c == 32)) [
  | inl e ↦ ground arith
  | inr n ↦ ground (arith, class_no_space p cs h)
]

IsMessageId-no_space : (s : Bytes) → IsMessageId s → count_byte 32 s ≡ 0
unfolding count_byte
IsMessageId-no_space s m =
    let sp : is_local 32 ≡ false = unfold is_local in refl in
    let sh : is_host 32 ≡ false = unfold is_host in refl in
    rw m.splits (
      omega (
        arith,
        count_byte-append 32 m.local (b'@' ∷ (m.host ++ b'>' ∷ [])),
        count_byte-append 32 m.host (b'>' ∷ []),
        class_no_space is_local m.local sp m.local_run.of_class,
        class_no_space is_host m.host sh m.host_run.of_class,
      ))

-- A message id on a line of its own holds no space.
pub message_id_no_space : (s : Bytes) → message_id_line s ≡ true → count_byte 32 s ≡ 0
message_id_no_space s h = IsMessageId-no_space s ((message_id_line_iff s).0 h)

pub split-event :
    (cmd msgid : Bytes)
    → count_byte 32 cmd ≡ 0
    → message_id_line msgid ≡ true
    → split 32 (cmd ++ (32 ∷ msgid)) ≡ cmd ∷ msgid ∷ []
split-event cmd msgid c v =
    split-append 32 cmd msgid c ∙ ap (◌∷◌ cmd) (split_free 32 msgid (message_id_no_space msgid v))

count_event :
    (cmd msgid : Bytes)
    → count_byte 32 cmd ≡ 0
    → message_id_line msgid ≡ true
    → count_byte 32 (cmd ++ (32 ∷ msgid)) ≡ 1
unfolding count_byte
count_event cmd msgid c v =
    omega (arith, count_byte-append 32 cmd (32 ∷ msgid), message_id_no_space msgid v)

pub event_read :
    (cmd msgid : Bytes)
    → count_byte 32 cmd ≡ 0
    → message_id_line msgid ≡ true
    → (event_valid (cmd ++ (32 ∷ msgid)) ≡ true)
      × (event_command (cmd ++ (32 ∷ msgid)) ≡ cmd)
      × (event_message_id (cmd ++ (32 ∷ msgid)) ≡ msgid)
unfolding event_command event_message_id event_valid
event_read cmd msgid c v =
    let pieces = split-event cmd msgid c v in
    let spaces = count_event cmd msgid c v in
    (rw (spaces, pieces) (message_id_line-valid msgid v), rw pieces, rw pieces)

pub create_stream_event-valid :
    (cmd msgid : Bytes)
    → message_id_line msgid ≡ true
    → create_stream_event cmd msgid ≡ cmd ++ (32 ∷ msgid)
unfolding create_stream_event
create_stream_event-valid cmd msgid v = rw (message_id_line-valid msgid v)

-- A stream event made from a command without a space and a message id of one line is valid, and
-- gives back the command and the id.
pub create_stream_event_read :
    (cmd msgid : Bytes)
    → count_byte 32 cmd ≡ 0
    → message_id_line msgid ≡ true
    → (event_valid (create_stream_event cmd msgid) ≡ true)
      × (event_command (create_stream_event cmd msgid) ≡ cmd)
      × (event_message_id (create_stream_event cmd msgid) ≡ msgid)
create_stream_event_read cmd msgid c v =
    rw (create_stream_event-valid cmd msgid v) (event_read cmd msgid c v)

-- Of an invalid message id no event is made: the result is the empty line, which is no event.
pub create_stream_event_invalid :
    (cmd msgid : Bytes)
    → message_id_valid msgid ≡ false
    → (create_stream_event cmd msgid ≡ []) × (event_valid (create_stream_event cmd msgid) ≡ false)
unfolding create_stream_event event_valid
create_stream_event_invalid cmd msgid v = (rw v, rw v)
