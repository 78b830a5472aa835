-- ===== src/ChatApps/Slack/Inbox.antt =====
-- src/chat-apps/slack/inbox-store.ts and envelope-handler.ts: the inbox of Slack events, as the rows
-- of `slack_inbox` in the order of insertion, and the threads that were activated. Dates are
-- arguments. The columns that hold JSON text hold the values themselves.
pub mod Reading
pub mod Records
pub mod Queue
pub mod Rows
pub mod Updates
pub mod Growth
pub mod Agreement
pub mod Claims
pub mod Refinement
pub mod RoundTrip
pub mod Activation
mod Tests
use qiyan_bot.Core.{Result, ok, error}
use qiyan_bot.Prelude.{
  ℕ, suc, ◌+◌, String, str_eq, str_append, Bool, true, false, not, ◌&&◌, ◌||◌, Option, none, some,
  List, [], ◌∷◌, ◌++◌, if◌then◌else◌, leb, or_else, is_some, get, modify, changes, put, count, map,
  any,
}
use qiyan_bot.ChatApps.Slack.Events.Shapes.{
  SlackFileDescriptor, EventType, app_mention, message_im, message_channels, message_groups,
  Destination, ConversationBinding, NormalizedSlackEvent, Context, Envelope,
}
use qiyan_bot.ChatApps.Slack.Events.{classify_slack_event, thread_key, dm_key, native_id}
use qiyan_bot.ChatApps.Slack.Inbox.Records.{
  Acceptance, Activated, FailedAttachmentDescriptor, FileEntry, Inbox, InboxState, Row,
  SlackFileState, completed, conversation_of, duplicate, failed, file_of, id_of, inserted,
  is_claimable, is_processed, is_processing, new, pending, processed, processing, row_of, to_retry,
}
use qiyan_bot.ChatApps.Slack.Inbox.Reading.{
  SlackInboxRecord, accept, activate, activation_of, get_record, given, is_activated, is_dm,
  is_mention, parse, parse_binding, parsed,
}

earlier : Row → Option Row → Option Row
earlier r none = some r
earlier r (some other) =
    if leb r.arrival_sequence other.arrival_sequence then some r else some other

-- WHERE state <> 'processed' ORDER BY arrival_sequence LIMIT 1
unfoldable pub oldest : List Row → Option Row
unfolding earlier
oldest [] = none
oldest (r ∷ rs) = let rest = oldest rs in if is_processed r.state then rest else earlier r rest

-- the UPDATE of a claim
unfoldable pub claimed : ℕ → Row → Row
claimed now r = record r {
  state = processing;
  attempt_count = suc r.attempt_count;
  updated_at = now;
}

abbrev pub may_claim : Row → Bool
may_claim r = is_claimable r.state

claim_found : ℕ → Option Row → Inbox → Option SlackInboxRecord × Inbox
claim_found now none s = (none, s)
claim_found now (some r) s =
    if is_processing r.state
    then (none, s)
    else (let s' = record s { rows = modify id_of r.event_id may_claim (claimed now) s.rows } in
        (if changes id_of r.event_id may_claim s.rows then get_record r.event_id s' else none, s'))

unfoldable pub claim_next : ℕ → Inbox → Option SlackInboxRecord × Inbox
unfolding claim_found
claim_next now s = claim_found now (oldest s.rows) s

abbrev pub in_processing : Row → Bool
in_processing r = is_processing r.state

unfoldable pub put_back : String → ℕ → Row → Row
put_back why now r = record r { state = to_retry; last_error = some why; updated_at = now }

unfoldable pub retry : ℕ → String → Inbox → Inbox
retry now event_id s = record s {
  rows = modify id_of event_id in_processing (put_back "Slack ingress retry" now) s.rows;
}

unfoldable pub recovered_row : ℕ → Row → Row
recovered_row now r =
    if is_processing r.state then put_back "Slack ingress recovered after restart" now r else r

unfoldable pub recover_processing : ℕ → Inbox → ℕ × Inbox
recover_processing now s =
    (count in_processing s.rows, record s { rows = map (recovered_row now) s.rows })

unfoldable pub done : ℕ → Row → Row
done now r = record r { state = processed; last_error = none; updated_at = now }

-- the error ends the transaction that the caller has open
unfoldable pub mark_processed_in_transaction : ℕ → String → Inbox → Result {0} Unit × Inbox
mark_processed_in_transaction now event_id s =
    if changes id_of event_id in_processing s.rows
    then (ok tt, record s { rows = modify id_of event_id in_processing (done now) s.rows })
    else (error, s)

unfoldable pub with_file : ℕ → FileEntry → Row → Row
with_file now entry r = record r { file_state = put file_of entry r.file_state; updated_at = now }

unfoldable pub update_file_state :
    ℕ → String → String → SlackFileState → Inbox → Result {0} Unit × Inbox
update_file_state now event_id slack_file_id state s =
    if is_some (get id_of event_id s.rows)
    then (
      ok tt,
      record s {
        rows =
            modify id_of event_id (λ r. true)
              (with_file now (record { slack_file_id = slack_file_id; state = state })) s.rows;
      },
    )
    else (error, s)

unfoldable pub mark_file_completed : ℕ → String → String → String → Inbox → Result {0} Unit × Inbox
mark_file_completed now event_id slack_file_id attachment_id =
    update_file_state now event_id slack_file_id (completed attachment_id)

unfoldable pub mark_file_failed :
    ℕ → String → String → FailedAttachmentDescriptor → Inbox → Result {0} Unit × Inbox
mark_file_failed now event_id slack_file_id descriptor =
    update_file_state now event_id slack_file_id (failed descriptor)

unfoldable pub peek_oldest : Inbox → Option SlackInboxRecord
unfolding parsed
peek_oldest s = parsed (oldest s.rows)

unfoldable pub handled : ℕ → Option NormalizedSlackEvent → Inbox → Inbox
handled now none s = s
handled now (some event) s = (accept now event s).1

-- `SlackEnvelopeHandler.handle` up to the acknowledgement
unfoldable pub handle : Context → ℕ → Option Envelope → Inbox → Inbox
unfolding handled
handle context now body s =
    handled now (classify_slack_event context (λ key. is_activated key s) body) s
