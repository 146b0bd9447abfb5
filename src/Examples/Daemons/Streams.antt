-- ===== src/Examples/Daemons/Streams.antt =====
-- An article that is offered on a stream of src/srnd/nntp.go, and the peer's first answer.
use srndv.Base.{ℕ, ◌%◌, ◌≤◌, ◌≡◌, ◌⊎◌, inl, refl, true, none, List, [], ◌∷◌, Bytes, codes}
use srndv.Daemon.{SyncEvent, NntpConnection, returns, w64}
use srndv.Daemon.Pending.{
  find, assign, message_set_pending_state, offer_stream, streaming_check, nntp_check,
  stream_message_id, stream_command, handle_stream_event, message_is_queued,
}
use srndv.Daemon.Pending.Books.{total}
use srndv.Daemon.Pending.Balance.{offers, here, next, backlog_lem}
use srndv.Daemon.Pending.Talk.{
  Question, check_of, takethis_of, IsAnswer, Talk, measure, Progress, checked, finished, and_then,
  offered, Talked,
}
use srndv.Daemon.Pending.Drained.{IsPeer, IsQuiet, stream_drains}
use srndv.Base.{split, split_head, same}
use srndv.Nntp.Ident.{
  message_id_valid, message_id_line, some_line, match_byte, match_class, match_end, is_local,
  is_host, span,
}
use srndv.Examples.Daemons.{Ids, small_daemon, dialled}

abbrev some_id : Bytes
some_id = codes "<old1@there>"

abbrev some_event : SyncEvent
some_event = record { msgid = some_id; sz = 12; state = codes "queued" }

abbrev quiet_conn : NntpConnection Ids
quiet_conn = dialled true []

abbrev queued_conn : NntpConnection Ids
queued_conn = record quiet_conn {
  check = some_event ∷ [];
  pending = (some_id, some_event) ∷ [];
  backlog = 12;
}

abbrev checked_conn : NntpConnection Ids
checked_conn = record quiet_conn {
  pending = (some_id, record some_event { state = codes "check" }) ∷ [];
  backlog = 12;
  sent = codes "CHECK <old1@there>" ∷ [];
}

offer_runs : offer_stream quiet_conn some_id 12 ≡ returns queued_conn none
unfolding offer_stream message_is_queued message_set_pending_state find assign
offer_runs = refl

check_runs : streaming_check small_daemon queued_conn ≡ returns checked_conn none
unfolding streaming_check handle_stream_event nntp_check stream_message_id stream_command
    message_set_pending_state find assign message_id_valid message_id_line some_line split
    split_head match_byte match_class match_end is_local is_host span same
check_runs = refl

id_valid : message_id_line some_id ≡ true
unfolding message_id_line match_byte match_class match_end is_local is_host span
id_valid = refl

backlog_lem_example : queued_conn.backlog ≡ total queued_conn.pending % w64
backlog_lem_example =
    backlog_lem small_daemon refl refl (next here (offers some_id 12 none offer_runs))

-- a peer that wants every article
abbrev reply_to : List Question → ℕ
reply_to [] = 0
reply_to (check_of m ∷ qs) = 238
reply_to (takethis_of m ∷ qs) = 239

abbrev willing : Talk Ids → ℕ
willing t = reply_to t.questions

reply_to-IsAnswer : (q : Question) (qs : List Question) → IsAnswer (reply_to (q ∷ qs)) q
reply_to-IsAnswer (check_of m) qs = inl refl
reply_to-IsAnswer (takethis_of m) qs = inl refl

willing-IsPeer : IsPeer small_daemon willing
willing-IsPeer t q qs e = rw e (reply_to-IsAnswer q qs)

abbrev quiet_talk : Talk Ids
quiet_talk = record { conn = quiet_conn; questions = [] }

abbrev queued_talk : Talk Ids
queued_talk = record { conn = queued_conn; questions = [] }

abbrev checked_talk : Talk Ids
checked_talk = record { conn = checked_conn; questions = check_of some_id ∷ [] }

quiet_talk-IsQuiet : IsQuiet small_daemon willing quiet_talk
quiet_talk-IsQuiet = record {
  no_check = refl;
  no_takethis = refl;
  no_questions = refl;
  no_pending = refl;
}

stream_drains_example :
    (1 ≤ measure queued_talk)
    × (((v : Talk Ids) × Progress small_daemon willing checked_talk v)
        ⊎ (checked_talk.conn.pending ≡ []))
stream_drains_example =
    stream_drains small_daemon willing willing-IsPeer quiet_talk-IsQuiet
      (Talked.next Talked.start (offered some_id 12 queued_conn none id_valid offer_runs refl))
      (and_then finished (checked some_event [] checked_conn none refl check_runs refl))
