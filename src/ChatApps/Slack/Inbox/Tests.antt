-- ===== src/ChatApps/Slack/Inbox/Tests.antt =====
-- The inbox of Slack events on concrete envelopes, and its theorems at concrete inputs.
use qiyan_bot.Prelude.{ℕ, ◌≡◌, refl, String, true, Option, none, some, List, [], ◌∷◌, All, get}
use qiyan_bot.ChatApps.Slack.Events.Shapes.{
  Value, undefined, text, number, Envelope, Context, content, NormalizedSlackEvent, app_mention,
}
use qiyan_bot.ChatApps.Slack.Events.{
  string, place, event_of, placed, with_content, with_fields, with_event, fields_of,
  classify_slack_event, thread_key, native_id, has_dropped_subtype,
}
use qiyan_bot.ChatApps.Slack.Events.Mentions.{strip_leading_mention, trim_blanks}
use qiyan_bot.ChatApps.Slack.Inbox.Records.{new, pending}
use qiyan_bot.ChatApps.Slack.Inbox.Reading.{get_record, is_activated}
use qiyan_bot.ChatApps.Slack.Inbox.{handle}
use qiyan_bot.ChatApps.Slack.Inbox.Queue.{
  Call, accepts, claims, retries, marks_processed, run, calls_of, serve_all, empty, view,
}
use qiyan_bot.ChatApps.Slack.Inbox.Refinement.{run-new-serve_all}
use qiyan_bot.ChatApps.Slack.Inbox.RoundTrip.{get_record-handle}
use qiyan_bot.ChatApps.Slack.Inbox.Activation.{IsAllowed, handle_all, handle_all-IsAllowed}

abbrev context : Context
context = record {
  team_id = "T";
  owner_user_id = "U";
  bot_user_id = "B";
  now = 5;
  normalize = λ event. content event.body [];
}

abbrev envelope : String → String → Value → Value → String → Envelope
envelope id kind channel_type thread_ts body = record {
  kind = text "event_callback";
  team_id = text "T";
  event_id = text id;
  event_time = number 3;
  event = some (record {
    kind = text kind;
    subtype = undefined;
    channel = text "C";
    channel_type = channel_type;
    user = text "U";
    ts = text "1.1";
    thread_ts = thread_ts;
    bot_id = undefined;
    app_id = undefined;
    hidden = undefined;
    body = body;
  });
}

abbrev mention : Envelope
mention = envelope "E1" "app_mention" undefined undefined "<@B> hello"

abbrev in_thread : Envelope
in_thread = envelope "E2" "message" (text "channel") (text "1.1") "more"

abbrev mentioned : NormalizedSlackEvent
mentioned = record {
  event_id = "E1";
  event_type = app_mention;
  team_id = "T";
  channel_id = "C";
  message_ts = "1.1";
  thread_ts = none;
  user_id = "U";
  raw_text = "hello";
  files = [];
  native_source_id = "T:C:1.1";
  source_id = "slack:T:C:1.1";
  binding = record {
    adapter_id = "slack";
    conversation_key = "slack:T:thread:C:1.1";
    destination = record { workspace_id = "T"; channel_id = "C"; thread_ts = some "1.1" };
    reply = "1.1";
  };
  activate = true;
  received_at = 3000;
}

mention_taken :
    classify_slack_event context (λ key. is_activated key new) (some mention) ≡ some mentioned
unfolding classify_slack_event with_event with_fields with_content placed place event_of fields_of
    string thread_key native_id has_dropped_subtype strip_leading_mention trim_blanks
mention_taken = refl

get_record-handle_example :
    get_record "E1" (handle context 7 (some mention) new)
    ≡ some (record {
      event = mentioned;
      state = pending;
      arrival_sequence = 1;
      attempt_count = 0;
      file_state = [];
    })
unfolding new get
get_record-handle_example =
    get_record-handle context 7 (some mention) new mentioned mention_taken refl

abbrev arrivals : List (Context × ℕ × Option Envelope)
arrivals = (context, 7, some mention) ∷ (context, 8, some in_thread) ∷ []

handle_all-IsAllowed_example :
    All (IsAllowed (handle_all arrivals new)) (handle_all arrivals new).rows
handle_all-IsAllowed_example = handle_all-IsAllowed arrivals

-- an event that comes twice, and is claimed, put back, claimed and ended
abbrev calls : List (ℕ × Call)
calls =
    (1, accepts mentioned)
    ∷ (2, accepts mentioned)
    ∷ (3, claims)
    ∷ (4, claims)
    ∷ (5, retries "E1")
    ∷ (6, claims)
    ∷ (7, marks_processed "E1")
    ∷ (8, marks_processed "E1")
    ∷ []

run-new-serve_all_example :
    ((run calls new).0 ≡ (serve_all (calls_of calls) empty).0)
    × (view (run calls new).1 ≡ (serve_all (calls_of calls) empty).1)
run-new-serve_all_example = run-new-serve_all calls
