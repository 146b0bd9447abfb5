-- ===== src/Nntp/Stream.antt =====
-- lib/nntp/streaming.go: the lines that streaming peers exchange.
pub mod Laws
use srndv.Base.{
  ℕ, Bool, true, false, ◌&&◌, List, [], ◌∷◌, ◌++◌, ◌==◌, if◌then◌else◌, Bytes, codes, split,
  count_byte,
}
use srndv.Nntp.Ident.{message_id_valid}

abbrev pub second_or_nil : List Bytes → Bytes
second_or_nil (_ ∷ (w ∷ _)) = w
second_or_nil _ = []

abbrev pub first_or_nil : List Bytes → Bytes
first_or_nil (w ∷ _) = w
first_or_nil [] = []

-- StreamEvent.MessageID
unfoldable pub event_message_id : Bytes → Bytes
unfolding split
event_message_id ev = second_or_nil (split 32 ev)

-- StreamEvent.Command; strings.Split never returns an empty slice
unfoldable pub event_command : Bytes → Bytes
unfolding split
event_command ev = first_or_nil (split 32 ev)

-- StreamEvent.Valid
unfoldable pub event_valid : Bytes → Bool
unfolding count_byte event_message_id message_id_valid
event_valid ev = count_byte 32 ev == 1 && message_id_valid (event_message_id ev)

abbrev pub stream_takethis : Bytes
stream_takethis = codes "TAKETHIS"

abbrev pub stream_check : Bytes
stream_check = codes "CHECK"

unfoldable pub create_stream_event : Bytes → Bytes → Bytes
unfolding message_id_valid
create_stream_event cmd msgid = if message_id_valid msgid then cmd ++ (32 ∷ msgid) else []
