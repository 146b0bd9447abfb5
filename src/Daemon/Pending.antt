-- ===== src/Daemon/Pending.antt =====
-- The stream of src/srnd/nntp.go: the articles that wait to be offered to the peer, how they are
-- sent, and the peer's answers to them.
pub mod Books
pub mod Balance
pub mod Talk
pub mod Sent
pub mod Tracked
pub mod Nearer
pub mod Drained
pub mod Skewed
use srndv.Base.{
  ℕ, ◌+◌, Bool, true, false, not, Option, none, some, List, [], ◌∷◌, ◌++◌, ltb, ◌==◌, ◌≡◌,
  if◌then◌else◌, is_none, length, Bytes, codes, same, split, map,
}
use srndv.Inbound.{Error, Answer, answer, failed}
use srndv.Nntp.Ident.{message_id_valid}
use srndv.Daemon.{
  w64, add64, sub64, SyncEvent, NntpDaemon, NntpConnection, Run, panics, blocks, returns,
  channel_capacity, dot_writer, print_line, print_lines,
}

abbrev pub Pending : Type 0
Pending = List (Bytes × SyncEvent)

-- the map `pending`: a lookup, an assignment, and delete
unfoldable pub find : Bytes → Pending → Option SyncEvent
find msgid [] = none
find msgid ((k, ev) ∷ m) = if same k msgid then some ev else find msgid m

unfoldable pub assign : Bytes → SyncEvent → Pending → Pending
assign msgid ev [] = (msgid, ev) ∷ []
assign msgid ev ((k, old) ∷ m) = if same k msgid then (k, ev) ∷ m else (k, old) ∷ assign msgid ev m

unfoldable pub delete : Bytes → Pending → Pending
delete msgid [] = []
delete msgid ((k, ev) ∷ m) = if same k msgid then delete msgid m else (k, ev) ∷ delete msgid m

abbrev pub with_state : Option SyncEvent → Bytes → Bytes → ℕ → SyncEvent
with_state (some s) msgid state sz = record s { state = state }
with_state none msgid state sz = record { msgid = msgid; sz = sz; state = state }

-- Split(ev, " ")[1] panics where there is no second word
unfoldable pub stream_message_id : Bytes → Option Bytes
unfolding split
stream_message_id ev = elim (split 32 ev) [ _ ∷ (w ∷ _) ↦ some w | _ ↦ none ]

unfoldable pub stream_command : Bytes → Bytes
unfolding split
stream_command ev = elim (split 32 ev) [ [] ↦ [] | w ∷ _ ↦ w ]

unfoldable pub nntp_takethis : Bytes → Bytes
nntp_takethis msgid = codes "TAKETHIS " ++ msgid

unfoldable pub nntp_check : Bytes → Bytes
nntp_check msgid = codes "CHECK " ++ msgid

abbrev pub queued_state : Bytes
queued_state = codes "queued"

-- getArticlesInState
unfoldable pub articles_in_state : Bytes → Pending → List Bytes
articles_in_state state [] = []
articles_in_state state ((k, ev) ∷ m) =
    let rest = articles_in_state state m in if same ev.state state then ev.msgid ∷ rest else rest

module _ {W : Type 0} where
  -- messageIsQueued
  unfoldable pub message_is_queued : NntpConnection W → Bytes → Bool
  unfolding find
  message_is_queued c msgid = not (is_none (find msgid c.pending))

  -- messageSetPendingState
  unfoldable pub message_set_pending_state : NntpConnection W → Bytes → Bytes → ℕ → NntpConnection W
  unfolding find assign
  message_set_pending_state c msgid state sz = record c {
    pending = assign msgid (with_state (find msgid c.pending) msgid state sz) c.pending;
  }

  -- messageSetProcessed
  unfoldable pub message_set_processed : NntpConnection W → Bytes → NntpConnection W
  unfolding find delete
  message_set_processed c msgid = elim (find msgid c.pending) [
    | none ↦ c
    | some ev ↦ record c { backlog = sub64 c.backlog ev.sz; pending = delete msgid c.pending }
  ]

  -- a send on one of the channels of the stream
  abbrev pub push_check : SyncEvent → NntpConnection W → Run W
  push_check ev c =
      if ltb (length c.check) channel_capacity
      then returns (record c { check = c.check ++ ev ∷ [] }) none
      else blocks

  abbrev pub push_takethis : SyncEvent → NntpConnection W → Run W
  push_takethis ev c =
      if ltb (length c.takethis) channel_capacity
      then returns (record c { takethis = c.takethis ++ ev ∷ [] }) none
      else blocks

  abbrev pub push_article : Bytes → NntpConnection W → Run W
  push_article msgid c =
      if ltb (length c.article) channel_capacity
      then returns (record c { article = c.article ++ msgid ∷ [] }) none
      else blocks

  -- offerStream, as one step; the source adds to the backlog outside the lock that guards the rest
  unfoldable pub offer_stream : NntpConnection W → Bytes → ℕ → Run W
  unfolding message_is_queued message_set_pending_state
  offer_stream c msgid sz =
      if message_is_queued c msgid
      then returns c none
      else push_check (record { msgid = msgid; sz = sz; state = queued_state })
          (message_set_pending_state (record c { backlog = add64 c.backlog sz }) msgid queued_state
            sz)

  -- askForArticle
  unfoldable pub ask_for_article : NntpConnection W → Bytes → Run W
  unfolding message_is_queued message_set_pending_state
  ask_for_article c msgid =
      if message_is_queued c msgid
      then returns c none
      else push_article msgid (message_set_pending_state c msgid queued_state 0)

  module _ (daemon : NntpDaemon W) where
    -- the article itself, behind the line of TAKETHIS
    abbrev pub sent_article : Bytes → Bytes → NntpConnection W → Answer Bytes → Run W
    sent_article ev msgid c (answer text) =
        let c' = print_lines (print_line c ev) (dot_writer text) in
        returns (message_set_processed c' msgid) (daemon.write_error c'.sent)
    sent_article ev msgid c (failed e) = returns (message_set_processed c msgid) none

    -- handleStreamEvent
    unfoldable pub handle_stream_event : Bytes → NntpConnection W → Run W
    unfolding stream_message_id stream_command message_id_valid message_set_pending_state
        message_set_processed dot_writer
    handle_stream_event ev c = elim (stream_message_id ev) [
      | none ↦ panics
      | some msgid ↦
          if message_id_valid msgid
          then (if same (stream_command ev) (codes "TAKETHIS")
              then sent_article ev msgid c (daemon.store.open_message c.world msgid)
              else if same (stream_command ev) (codes "CHECK")
              then returns (message_set_pending_state (print_line c ev) msgid (codes "check") 0)
                  none
              else returns c none)
          else returns c none
    ]

    -- The cases of the select of handleStreaming: the head of a channel is taken and sent, or the
    -- connection dies.
    unfoldable pub streaming_check : NntpConnection W → Run W
    unfolding handle_stream_event nntp_check
    streaming_check c = elim c.check [
      | [] ↦ returns c none
      | ev ∷ evs ↦ handle_stream_event (nntp_check ev.msgid) (record c { check = evs })
    ]

    unfoldable pub streaming_takethis : NntpConnection W → Run W
    unfolding handle_stream_event nntp_takethis message_set_pending_state
    streaming_takethis c = elim c.takethis [
      | [] ↦ returns c none
      | ev ∷ evs ↦ handle_stream_event (nntp_takethis ev.msgid) (
          message_set_pending_state (record c { takethis = evs }) ev.msgid (codes "takethis") ev.sz)
    ]

    unfoldable pub streaming_die : NntpConnection W → NntpConnection W
    streaming_die c = record c { sent = c.sent ++ codes "QUIT" ∷ []; is_open = false }

    -- the answers of the peer, which handleLine takes before any command; `otherwise` is what it
    -- does with other codes
    unfoldable pub stream_answer : ℕ → Bytes → NntpConnection W → Run W → Run W
    unfolding message_set_pending_state message_set_processed
    stream_answer code msgid c otherwise =
        let processed = returns (message_set_processed c msgid) none in
        if code == 238
        then push_takethis
            (record { msgid = msgid; sz = daemon.store.get_message_size c.world msgid; state = [] })
            (message_set_pending_state c msgid (codes "takethis") 0)
        else if code == 239
        then processed
        else if code == 431
        then processed
        else if code == 439
        then processed
        else if code == 438
        then processed
        else otherwise
