-- ===== src/ChatApps/Slack/Events/Shapes.antt =====
-- src/chat-apps/slack/types.ts and event-classifier.ts: what comes in, and what is made of it.
use qiyan_bot.Prelude.{ℕ, String, Bool, Option, List}

pub data Value : Type 0 where
  undefined null structure : Value
  text : String → Value
  boolean : Bool → Value
  number : ℕ → Value

pub record SlackFileDescriptor : Type 0 where
  pub slack_file_id : String
  pub display_name : String
  pub media_type : String
  pub declared_size : Option ℕ
  pub download_url : Option String

pub data EventType : Type 0 where
  app_mention message_channels message_groups message_im : EventType

pub record Destination : Type 0 where
  pub workspace_id : String
  pub channel_id : String
  pub thread_ts : Option String

-- the `reply` of a binding is the message's time
pub record ConversationBinding : Type 0 where
  pub adapter_id : String
  pub conversation_key : String
  pub destination : Destination
  pub reply : String

pub record NormalizedSlackEvent : Type 0 where
  pub event_id : String
  pub event_type : EventType
  pub team_id : String
  pub channel_id : String
  pub message_ts : String
  pub thread_ts : Option String
  pub user_id : String
  pub raw_text : String
  pub files : List SlackFileDescriptor
  pub native_source_id : String
  pub source_id : String
  pub binding : ConversationBinding
  pub activate : Bool
  pub received_at : ℕ

pub record SlackEvent : Type 0 where
  pub kind : Value
  pub subtype : Value
  pub channel : Value
  pub channel_type : Value
  pub user : Value
  pub ts : Value
  pub thread_ts : Value
  pub bot_id : Value
  pub app_id : Value
  pub hidden : Value
  pub body : String

pub record Envelope : Type 0 where
  pub kind : Value
  pub team_id : Value
  pub event_id : Value
  pub event_time : Value
  pub event : Option SlackEvent

pub data Content : Type 0 where
  empty : Content
  content : String → List SlackFileDescriptor → Content

pub record Context : Type 0 where
  pub team_id : String
  pub owner_user_id : String
  pub bot_user_id : String
  pub now : ℕ
  pub normalize : SlackEvent → Content
