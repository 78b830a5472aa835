-- ===== src/ChatApps/Slack/Inbox/RoundTrip.antt =====
-- src/chat-apps/slack/: an event that is classified and stored is read back as it was.
use qiyan_bot.Prelude.{
  ℕ, String, Bool, false, ◌&&◌, Option, none, some, List, [], ◌∷◌, ◌++◌, if◌then◌else◌, or_else,
  ◌≡◌, refl, ap, get, arith, eq_refl, inl, inr, Bool-cases, get-append, OnSome, OnSome-if,
}
use qiyan_bot.ChatApps.Slack.Events.Shapes.{
  Value, undefined, null, structure, text, boolean, number, SlackEvent, Envelope, Context, Content,
  content, empty, NormalizedSlackEvent, Destination, EventType, message_channels, message_groups,
  SlackFileDescriptor,
}
use qiyan_bot.ChatApps.Slack.Events.{
  Fields, Placement, string, place, place_thread, event_of, placed, with_content, with_fields,
  with_event, fields_of, classify_slack_event, thread_key, dm_key, is_text,
}
use qiyan_bot.ChatApps.Slack.Inbox.Records.{Inbox, Row, pending, row_of, id_of}
use qiyan_bot.ChatApps.Slack.Inbox.Reading.{
  parse, parsed, parse_binding, given, is_dm, is_mention, get_record, accept, is_activated,
}
use qiyan_bot.ChatApps.Slack.Inbox.{handle, handled}

given-string : (v : Value) → given (string v) ≡ string v
unfolding string
given-string undefined = refl
given-string null = refl
given-string structure = refl
given-string (text s) = ground arith
given-string (boolean b) = refl
given-string (number n) = refl

-- What the branches on the type of an event decide is what `parse` makes of the type again.
record Fits (context : Context) (f : Fields) (thread_ts : Option String) (p : Placement)
    : Type 0 where
  pub mention : is_mention p.event_type ≡ p.activate
  pub key :
      (if is_dm p.event_type
        then dm_key context.team_id f.channel_id
        else thread_key context.team_id f.channel_id (or_else thread_ts f.message_ts))
      ≡ p.conversation_key
  pub destination :
      ◌≡◌ {A = Destination}
        (record {
          workspace_id = context.team_id;
          channel_id = f.channel_id;
          thread_ts = if is_dm p.event_type then none else some (or_else thread_ts f.message_ts);
        })
        p.destination

place_thread-Fits :
    (context : Context) (activated : String → Bool) (f : Fields) (th : Option String)
    (t : EventType) (raw : String)
    → is_dm t ≡ false
    → is_mention t ≡ false
    → OnSome (Fits context f th) (place_thread context activated f th t raw)
unfolding place_thread
place_thread-Fits context activated f none t raw d m = tt
place_thread-Fits context activated f (some root) t raw d m =
    OnSome-if (Fits context f (some root))
      (activated (thread_key context.team_id f.channel_id root)) (some _) none
      (record { mention = m; key = rw d refl; destination = rw d refl }) tt

place-Fits :
    (context : Context) (activated : String → Bool) (event : SlackEvent) (f : Fields)
    (th : Option String) (raw : String)
    → OnSome (Fits context f th) (place context activated event f th raw)
unfolding place
place-Fits context activated event f th raw =
    OnSome-if (Fits context f th) (is_text "app_mention" event.kind) (some _) _
      (record { mention = refl; key = refl; destination = refl })
      (OnSome-if (Fits context f th)
        (is_text "message" event.kind && is_text "im" event.channel_type) (some _) _
        (record { mention = refl; key = refl; destination = refl })
        (OnSome-if (Fits context f th)
          (is_text "message" event.kind && is_text "channel" event.channel_type) _ _
          (place_thread-Fits context activated f th message_channels raw refl refl)
          (OnSome-if (Fits context f th)
            (is_text "message" event.kind && is_text "group" event.channel_type) _ none
            (place_thread-Fits context activated f th message_groups raw refl refl) tt)))

-- whatever row the event becomes, it is read back
Reads : NormalizedSlackEvent → Type 0
Reads e = (now arrival : ℕ) → (parse (row_of now arrival e)).event ≡ e

parse_binding_lem :
    (context : Context) (body : Envelope) (f : Fields) (th : Option String)
    (files : List SlackFileDescriptor) (p : Placement) (now arrival : ℕ)
    → Fits context f th p
    → parse_binding
        (row_of now arrival (event_of context body f th files p))
        (or_else th f.message_ts)
      ≡ (event_of context body f th files p).binding
unfolding parse_binding row_of event_of
parse_binding_lem context body f th files p now arrival fits =
    elim (Bool-cases (is_dm p.event_type)) [
      | inl dm ↦
          let k = rw dm at fits.key in let d = rw dm at fits.destination in rw (dm, k, d) refl
      | inr thread ↦
          let k = rw thread at fits.key in
          let d = rw thread at fits.destination in rw (thread, k, d) refl
    ]

event_of-Reads :
    (context : Context) (body : Envelope) (f : Fields) (v : Value)
    (files : List SlackFileDescriptor) (p : Placement)
    → Fits context f (string v) p
    → Reads (event_of context body f (string v) files p)
unfolding Reads parse row_of event_of
event_of-Reads context body f v files p fits now arrival =
    rw
      (
        given-string v,
        fits.mention,
        parse_binding_lem context body f (string v) files p now arrival fits,
      )
      refl

placed-Reads :
    (context : Context) (body : Envelope) (f : Fields) (v : Value)
    (files : List SlackFileDescriptor) (p : Option Placement)
    → OnSome (Fits context f (string v)) p
    → OnSome Reads (placed context body f (string v) files p)
unfolding placed
placed-Reads context body f v files none h = tt
placed-Reads context body f v files (some p) h =
    OnSome-if Reads _ none (some _) tt (event_of-Reads context body f v files p h)

with_content-Reads :
    (context : Context) (activated : String → Bool) (body : Envelope) (event : SlackEvent)
    (f : Fields) (c : Content)
    → OnSome Reads (with_content context activated body event f c)
unfolding with_content
with_content-Reads context activated body event f empty = tt
with_content-Reads context activated body event f (content raw files) =
    placed-Reads context body f event.thread_ts files
      (place context activated event f (string event.thread_ts) raw)
      (place-Fits context activated event f (string event.thread_ts) raw)

with_fields-Reads :
    (context : Context) (activated : String → Bool) (body : Envelope) (event : SlackEvent)
    (f : Option Fields)
    → OnSome Reads (with_fields context activated body event f)
unfolding with_fields
with_fields-Reads context activated body event none = tt
with_fields-Reads context activated body event (some f) =
    OnSome-if Reads _ none _ tt
      (with_content-Reads context activated body event f (context.normalize event))

with_event-Reads :
    (context : Context) (activated : String → Bool) (body : Envelope) (event : Option SlackEvent)
    → OnSome Reads (with_event context activated body event)
unfolding with_event
with_event-Reads context activated body none = tt
with_event-Reads context activated body (some event) =
    OnSome-if Reads (is_text "event_callback" body.kind && is_text context.team_id body.team_id)
      (with_fields context activated body event (fields_of body event)) none
      (with_fields-Reads context activated body event (fields_of body event)) tt

classify-Reads :
    (context : Context) (activated : String → Bool) (body : Option Envelope)
    → OnSome Reads (classify_slack_event context activated body)
unfolding classify_slack_event
classify-Reads context activated none = tt
classify-Reads context activated (some body) = with_event-Reads context activated body body.event

read_lem :
    (e : NormalizedSlackEvent) (o : Option NormalizedSlackEvent)
    → o ≡ some e
    → OnSome Reads o
    → Reads e
read_lem e o h r = rw h at r

stored :
    (e : NormalizedSlackEvent) (x : Row) (rs : List Row)
    → (parse x).event ≡ e
    → get id_of x.event_id rs ≡ none
    → parsed (get id_of x.event_id (rs ++ x ∷ []))
      ≡ some (record {
        event = e;
        state = x.state;
        arrival_sequence = x.arrival_sequence;
        attempt_count = x.attempt_count;
        file_state = x.file_state;
      })
unfolding parsed parse
stored e x rs reads fresh =
    rw (get-append id_of x.event_id x rs, fresh, eq_refl x.event_id)
      (ap
        (λ event. some (record {
          event = event;
          state = x.state;
          arrival_sequence = x.arrival_sequence;
          attempt_count = x.attempt_count;
          file_state = x.file_state;
        }))
        reads)

-- An envelope that is taken in, and whose event has no row yet, leaves a row that is read back as
-- the very event that the classifier made: pending, not tried yet, last in the order of arrival.
pub get_record-handle :
    (context : Context) (now : ℕ) (body : Option Envelope) (s : Inbox) (e : NormalizedSlackEvent)
    → classify_slack_event context (λ key. is_activated key s) body ≡ some e
    → get id_of e.event_id s.rows ≡ none
    → get_record e.event_id (handle context now body s)
      ≡ some (record {
        event = e;
        state = pending;
        arrival_sequence = s.next_value;
        attempt_count = 0;
        file_state = [];
      })
unfolding handle get_record row_of accept Reads get
get_record-handle context now body s e taken fresh =
    let reads : Reads e =
      read_lem e (classify_slack_event context (λ key. is_activated key s) body) taken
        (classify-Reads context (λ key. is_activated key s) body) in
    rw (taken, handled, accept, fresh)
      (stored e (row_of now s.next_value e) s.rows (reads now s.next_value) fresh)
