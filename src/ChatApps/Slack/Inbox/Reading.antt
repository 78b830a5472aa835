-- ===== src/ChatApps/Slack/Inbox/Reading.antt =====
-- src/chat-apps/slack/inbox-store.ts: how a row is inserted, and how it is read back.
use qiyan_bot.Prelude.{
  ℕ, suc, String, str_eq, str_append, Bool, true, false, not, ◌&&◌, Option, none, some, List, [],
  ◌∷◌, ◌++◌, if◌then◌else◌, or_else, is_some, get,
}
use qiyan_bot.ChatApps.Slack.Events.Shapes.{
  EventType, app_mention, message_im, ConversationBinding, NormalizedSlackEvent,
}
use qiyan_bot.ChatApps.Slack.Events.{thread_key, dm_key, native_id}
use qiyan_bot.ChatApps.Slack.Inbox.Records.{
  Acceptance, Activated, FileEntry, Inbox, InboxState, Row, conversation_of, duplicate, id_of,
  inserted, row_of,
}

unfoldable pub activation_of : NormalizedSlackEvent → Activated
activation_of event = record {
  conversation_key = event.binding.conversation_key;
  destination = event.binding.destination;
  activated_at = event.received_at;
}

-- INSERT OR IGNORE INTO activated_chat_conversations
unfoldable pub activate : NormalizedSlackEvent → List Activated → List Activated
activate event known =
    if event.activate && not (is_some (get conversation_of event.binding.conversation_key known))
    then known ++ activation_of event ∷ []
    else known

unfoldable pub accept : ℕ → NormalizedSlackEvent → Inbox → Acceptance × Inbox
accept now event s = if is_some (get id_of event.event_id s.rows) then (duplicate, s) else (
  inserted,
  record {
    rows = s.rows ++ row_of now s.next_value event ∷ [];
    next_value = suc s.next_value;
    activated = activate event s.activated;
  },
)

unfoldable pub is_activated : String → Inbox → Bool
is_activated key s = is_some (get conversation_of key s.activated)

-- the record that `parse` makes of a row: the event, and what the inbox knows of it
pub record SlackInboxRecord : Type 0 where
  pub event : NormalizedSlackEvent
  pub state : InboxState
  pub arrival_sequence : ℕ
  pub attempt_count : ℕ
  pub file_state : List FileEntry

-- `row.thread_ts ? String(row.thread_ts) : undefined`
abbrev pub given : Option String → Option String
given none = none
given (some s) = if str_eq s "" then none else some s

abbrev pub is_dm : EventType → Bool
is_dm message_im = true
is_dm _ = false

abbrev pub is_mention : EventType → Bool
is_mention app_mention = true
is_mention _ = false

unfoldable pub parse_binding : Row → String → ConversationBinding
parse_binding row root =
    if is_dm row.event_type
    then record {
      adapter_id = "slack";
      conversation_key = dm_key row.team_id row.channel_id;
      destination = record {
        workspace_id = row.team_id;
        channel_id = row.channel_id;
        thread_ts = none;
      };
      reply = row.message_ts;
    }
    else record {
      adapter_id = "slack";
      conversation_key = thread_key row.team_id row.channel_id root;
      destination = record {
        workspace_id = row.team_id;
        channel_id = row.channel_id;
        thread_ts = some root;
      };
      reply = row.message_ts;
    }

unfoldable pub parse : Row → SlackInboxRecord
unfolding parse_binding
parse row = record {
  event = record {
    event_id = row.event_id;
    event_type = row.event_type;
    team_id = row.team_id;
    channel_id = row.channel_id;
    message_ts = row.message_ts;
    thread_ts = given row.thread_ts;
    user_id = row.user_id;
    raw_text = row.text;
    files = row.files;
    native_source_id = native_id row.team_id row.channel_id row.message_ts;
    source_id = str_append "slack:" (native_id row.team_id row.channel_id row.message_ts);
    binding = parse_binding row (or_else (given row.thread_ts) row.message_ts);
    activate = is_mention row.event_type;
    received_at = row.received_at;
  };
  state = row.state;
  arrival_sequence = row.arrival_sequence;
  attempt_count = row.attempt_count;
  file_state = row.file_state;
}

unfoldable pub parsed : Option Row → Option SlackInboxRecord
parsed none = none
parsed (some r) = some (parse r)

unfoldable pub get_record : String → Inbox → Option SlackInboxRecord
unfolding parsed
get_record event_id s = parsed (get id_of event_id s.rows)
