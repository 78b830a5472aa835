-- ===== src/ChatApps/Slack/Inbox/Records.antt =====
-- src/chat-apps/slack/inbox-store.ts: the rows of the inbox and its tests on them.
use qiyan_bot.Prelude.{ℕ, String, Bool, true, false, Option, none, List, []}
use qiyan_bot.ChatApps.Slack.Events.Shapes.{
  SlackFileDescriptor, EventType, Destination, NormalizedSlackEvent,
}

pub record FailedAttachmentDescriptor : Type 0 where
  pub native_id : String
  pub display_name : String
  pub reason_code : String

pub data SlackFileState : Type 0 where
  completed : String → SlackFileState
  failed : FailedAttachmentDescriptor → SlackFileState

-- an entry of the object `fileState`
pub record FileEntry : Type 0 where
  pub slack_file_id : String
  pub state : SlackFileState

pub data InboxState : Type 0 where
  pending processing processed to_retry : InboxState

pub record Row : Type 0 where
  pub event_id : String
  pub team_id : String
  pub event_type : EventType
  pub channel_id : String
  pub message_ts : String
  pub thread_ts : Option String
  pub user_id : String
  pub text : String
  pub files : List SlackFileDescriptor
  pub file_state : List FileEntry
  pub arrival_sequence : ℕ
  pub state : InboxState
  pub attempt_count : ℕ
  pub last_error : Option String
  pub received_at : ℕ
  pub updated_at : ℕ

-- a row of `activated_chat_conversations` whose adapter is Slack
pub record Activated : Type 0 where
  pub conversation_key : String
  pub destination : Destination
  pub activated_at : ℕ

pub record Inbox : Type 0 where
  pub rows : List Row
  pub next_value : ℕ
  pub activated : List Activated

unfoldable pub new : Inbox
new = record { rows = []; next_value = 1; activated = [] }

abbrev pub id_of : Row → String
id_of r = r.event_id

abbrev pub conversation_of : Activated → String
conversation_of a = a.conversation_key

abbrev pub file_of : FileEntry → String
file_of f = f.slack_file_id

abbrev pub is_processing : InboxState → Bool
is_processing processing = true
is_processing _ = false

abbrev pub is_processed : InboxState → Bool
is_processed processed = true
is_processed _ = false

-- `state IN ('pending', 'retry')`
abbrev pub is_claimable : InboxState → Bool
is_claimable pending = true
is_claimable to_retry = true
is_claimable _ = false

pub data Acceptance : Type 0 where
  inserted duplicate : Acceptance

unfoldable pub row_of : ℕ → ℕ → NormalizedSlackEvent → Row
row_of now arrival event = record {
  event_id = event.event_id;
  team_id = event.team_id;
  event_type = event.event_type;
  channel_id = event.channel_id;
  message_ts = event.message_ts;
  thread_ts = event.thread_ts;
  user_id = event.user_id;
  text = event.raw_text;
  files = event.files;
  file_state = [];
  arrival_sequence = arrival;
  state = pending;
  attempt_count = 0;
  last_error = none;
  received_at = event.received_at;
  updated_at = now;
}
