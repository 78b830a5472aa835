-- ===== src/ChatApps/Slack/Events.antt =====
-- src/chat-apps/slack/event-classifier.ts and types.ts: which events are taken in, and as what.
-- A JSON value is read as far as the code looks: `undefined`, `null`, a text, a Boolean, a number or
-- anything else. Times are whole seconds. `normalizeSlackMessageContent` of content-normalizer.ts is
-- a function of the context.
pub mod Shapes
pub mod Mentions
use qiyan_bot.Prelude.{
  ℕ, ◌*◌, String, str_eq, str_append, Bool, true, false, not, ◌&&◌, ◌||◌, Option, none, some, List,
  [], ◌∷◌, if◌then◌else◌, or_else, is_some,
}
use qiyan_bot.ChatApps.Slack.Events.Mentions.{strip_leading_mention}
use qiyan_bot.ChatApps.Slack.Events.Shapes.{
  Content, Context, ConversationBinding, Destination, Envelope, EventType, NormalizedSlackEvent,
  SlackEvent, SlackFileDescriptor, Value, app_mention, boolean, content, empty, message_channels,
  message_groups, message_im, null, number, structure, text, undefined,
}

-- `string(value)`
unfoldable pub string : Value → Option String
string (text s) = if str_eq s "" then none else some s
string _ = none

abbrev pub is_text : String → Value → Bool
is_text s (text t) = str_eq t s
is_text s _ = false

-- `value != null`
abbrev pub is_given : Value → Bool
is_given undefined = false
is_given null = false
is_given _ = true

abbrev pub is_true : Value → Bool
is_true (boolean b) = b
is_true _ = false

-- the required fields of an event
pub record Fields : Type 0 where
  pub event_id : String
  pub channel_id : String
  pub user_id : String
  pub message_ts : String

required : Option String → Option String → Option String → Option String → Option Fields
required none c u m = none
required (some e) none u m = none
required (some e) (some c) none m = none
required (some e) (some c) (some u) none = none
required (some e) (some c) (some u) (some m) =
    some (record { event_id = e; channel_id = c; user_id = u; message_ts = m })

unfoldable pub thread_key : String → String → String → String
thread_key team channel root =
    str_append "slack:"
      (str_append team (str_append ":thread:" (str_append channel (str_append ":" root))))

unfoldable pub dm_key : String → String → String
dm_key team channel = str_append "slack:" (str_append team (str_append ":dm:" channel))

unfoldable pub native_id : String → String → String → String
native_id team channel ts =
    str_append team (str_append ":" (str_append channel (str_append ":" ts)))

-- what the branches on the type of the event decide
pub record Placement : Type 0 where
  pub event_type : EventType
  pub conversation_key : String
  pub destination : Destination
  pub activate : Bool
  pub raw_text : String

unfoldable pub place_thread :
    Context → (String → Bool) → Fields → Option String → EventType → String → Option Placement
place_thread context is_activated f none event_type raw = none
place_thread context is_activated f (some root) event_type raw =
    let key : String = thread_key context.team_id f.channel_id root in
    if is_activated key
    then some (record {
      event_type = event_type;
      conversation_key = key;
      destination = record {
        workspace_id = context.team_id;
        channel_id = f.channel_id;
        thread_ts = some root;
      };
      activate = false;
      raw_text = strip_leading_mention raw context.bot_user_id;
    })
    else none

unfoldable pub place :
    Context → (String → Bool) → SlackEvent → Fields → Option String → String → Option Placement
unfolding place_thread
place context is_activated event f thread_ts raw =
    if is_text "app_mention" event.kind
    then some (record {
      event_type = app_mention;
      conversation_key = thread_key context.team_id f.channel_id (or_else thread_ts f.message_ts);
      destination = record {
        workspace_id = context.team_id;
        channel_id = f.channel_id;
        thread_ts = some (or_else thread_ts f.message_ts);
      };
      activate = true;
      raw_text = strip_leading_mention raw context.bot_user_id;
    })
    else if is_text "message" event.kind && is_text "im" event.channel_type
    then some (record {
      event_type = message_im;
      conversation_key = dm_key context.team_id f.channel_id;
      destination = record {
        workspace_id = context.team_id;
        channel_id = f.channel_id;
        thread_ts = none;
      };
      activate = false;
      raw_text = raw;
    })
    else if is_text "message" event.kind && is_text "channel" event.channel_type
    then place_thread context is_activated f thread_ts message_channels raw
    else if is_text "message" event.kind && is_text "group" event.channel_type
    then place_thread context is_activated f thread_ts message_groups raw
    else none

received_at : Context → Value → ℕ
received_at context (number seconds) = seconds * 1000
received_at context _ = context.now

unfoldable pub event_of :
    Context
    → Envelope
    → Fields
    → Option String
    → List SlackFileDescriptor
    → Placement
    → NormalizedSlackEvent
unfolding received_at
event_of context body f thread_ts files p = record {
  event_id = f.event_id;
  event_type = p.event_type;
  team_id = context.team_id;
  channel_id = f.channel_id;
  message_ts = f.message_ts;
  thread_ts = thread_ts;
  user_id = f.user_id;
  raw_text = p.raw_text;
  files = files;
  native_source_id = native_id context.team_id f.channel_id f.message_ts;
  source_id = str_append "slack:" (native_id context.team_id f.channel_id f.message_ts);
  binding = record {
    adapter_id = "slack";
    conversation_key = p.conversation_key;
    destination = p.destination;
    reply = f.message_ts;
  };
  activate = p.activate;
  received_at = received_at context body.event_time;
}

is_empty : List SlackFileDescriptor → Bool
is_empty [] = true
is_empty (x ∷ xs) = false

unfoldable pub placed :
    Context
    → Envelope
    → Fields
    → Option String
    → List SlackFileDescriptor
    → Option Placement
    → Option NormalizedSlackEvent
unfolding is_empty
placed context body f thread_ts files none = none
placed context body f thread_ts files (some p) =
    if str_eq p.raw_text "" && is_empty files
    then none
    else some (event_of context body f thread_ts files p)

unfoldable pub with_content :
    Context
    → (String → Bool)
    → Envelope
    → SlackEvent
    → Fields
    → Content
    → Option NormalizedSlackEvent
unfolding placed
with_content context is_activated body event f empty = none
with_content context is_activated body event f (content raw files) =
    placed context body f (string event.thread_ts) files
      (place context is_activated event f (string event.thread_ts) raw)

-- the subtypes that are dropped: all but the sharing of a file
unfoldable pub has_dropped_subtype : SlackEvent → Bool
has_dropped_subtype event =
    is_some (string event.subtype)
    && not (is_text "message" event.kind && is_text "file_share" event.subtype)

unfoldable pub with_fields :
    Context → (String → Bool) → Envelope → SlackEvent → Option Fields → Option NormalizedSlackEvent
unfolding with_content
with_fields context is_activated body event none = none
with_fields context is_activated body event (some f) =
    if not (str_eq f.user_id context.owner_user_id)
      || is_given event.bot_id
      || is_given event.app_id
      || is_true event.hidden
      || has_dropped_subtype event
    then none
    else with_content context is_activated body event f (context.normalize event)

unfoldable pub fields_of : Envelope → SlackEvent → Option Fields
unfolding required
fields_of body event =
    required (string body.event_id) (string event.channel) (string event.user) (string event.ts)

unfoldable pub with_event :
    Context → (String → Bool) → Envelope → Option SlackEvent → Option NormalizedSlackEvent
unfolding with_fields
with_event context is_activated body none = none
with_event context is_activated body (some event) =
    if is_text "event_callback" body.kind && is_text context.team_id body.team_id
    then with_fields context is_activated body event (fields_of body event)
    else none

-- `none` is a discarded event; no envelope is a body that is no object.
unfoldable pub classify_slack_event :
    Context → (String → Bool) → Option Envelope → Option NormalizedSlackEvent
unfolding with_event
classify_slack_event context is_activated none = none
classify_slack_event context is_activated (some body) =
    with_event context is_activated body body.event
