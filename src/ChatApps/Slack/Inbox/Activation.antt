-- ===== src/ChatApps/Slack/Inbox/Activation.antt =====
-- src/chat-apps/slack/: that messages in a thread come in only once the thread was activated.
use mathlib.Core.Path.{subst}
use qiyan_bot.Prelude.{
  ℕ, String, Bool, true, not, ◌&&◌, Option, none, some, List, [], ◌∷◌, ◌++◌, or_else, is_some, ◌≡◌,
  refl, sym, get, arith, ◌⊎◌, inl, inr, Bool-cases, get-append, OnSome, OnSome-if, All, All-append,
}
use qiyan_bot.ChatApps.Slack.Events.Shapes.{
  SlackEvent, Envelope, Context, Content, content, empty, NormalizedSlackEvent, EventType,
  message_channels, message_groups, SlackFileDescriptor,
}
use qiyan_bot.ChatApps.Slack.Events.{
  Fields, Placement, string, place, place_thread, event_of, placed, with_content, with_fields,
  with_event, fields_of, classify_slack_event, thread_key, is_text,
}
use qiyan_bot.ChatApps.Slack.Inbox.Records.{
  Inbox, Row, Activated, row_of, id_of, conversation_of, new,
}
use qiyan_bot.ChatApps.Slack.Inbox.Reading.{
  accept, activate, activation_of, is_activated, is_dm, is_mention,
}
use qiyan_bot.ChatApps.Slack.Inbox.{handle, handled}

abbrev pub in_thread : EventType → Bool
in_thread t = not (is_dm t) && not (is_mention t)

module _ (context : Context) (activated : String → Bool) where
  -- in a thread that was activated, or no plain message in a thread
  Allowed : String → EventType → String → String → Option String → Type 0
  Allowed team t channel ts th =
      in_thread t ≡ true → activated (thread_key team channel (or_else th ts)) ≡ true

  abbrev AllowedPlace : Fields → Option String → Placement → Type 0
  AllowedPlace f th p = Allowed context.team_id p.event_type f.channel_id f.message_ts th

  abbrev AllowedEvent : NormalizedSlackEvent → Type 0
  AllowedEvent e = Allowed e.team_id e.event_type e.channel_id e.message_ts e.thread_ts

  place_thread-Allowed :
      (f : Fields) (th : Option String) (t : EventType) (raw : String)
      → OnSome (AllowedPlace f th) (place_thread context activated f th t raw)
  unfolding place_thread Allowed
  place_thread-Allowed f none t raw = tt
  place_thread-Allowed f (some root) t raw =
      elim (Bool-cases (activated (thread_key context.team_id f.channel_id root))) [
        | inl on ↦ rw on (λ h. on)
        | inr off ↦ rw off tt
      ]

  place-Allowed :
      (event : SlackEvent) (f : Fields) (th : Option String) (raw : String)
      → OnSome (AllowedPlace f th) (place context activated event f th raw)
  unfolding place Allowed
  place-Allowed event f th raw =
      OnSome-if (AllowedPlace f th) (is_text "app_mention" event.kind) (some _) _
        (λ h. absurd (ground (arith, h)))
        (OnSome-if (AllowedPlace f th)
          (is_text "message" event.kind && is_text "im" event.channel_type) (some _) _
          (λ h. absurd (ground (arith, h)))
          (OnSome-if (AllowedPlace f th)
            (is_text "message" event.kind && is_text "channel" event.channel_type) _ _
            (place_thread-Allowed f th message_channels raw)
            (OnSome-if (AllowedPlace f th)
              (is_text "message" event.kind && is_text "group" event.channel_type) _ none
              (place_thread-Allowed f th message_groups raw) tt)))

  placed-Allowed :
      (body : Envelope) (f : Fields) (th : Option String) (files : List SlackFileDescriptor)
      (p : Option Placement)
      → OnSome (AllowedPlace f th) p
      → OnSome AllowedEvent (placed context body f th files p)
  unfolding placed event_of
  placed-Allowed body f th files none h = tt
  placed-Allowed body f th files (some p) h = OnSome-if AllowedEvent _ none (some _) tt h

  with_content-Allowed :
      (body : Envelope) (event : SlackEvent) (f : Fields) (c : Content)
      → OnSome AllowedEvent (with_content context activated body event f c)
  unfolding with_content
  with_content-Allowed body event f empty = tt
  with_content-Allowed body event f (content raw files) =
      placed-Allowed body f (string event.thread_ts) files
        (place context activated event f (string event.thread_ts) raw)
        (place-Allowed event f (string event.thread_ts) raw)

  with_fields-Allowed :
      (body : Envelope) (event : SlackEvent) (f : Option Fields)
      → OnSome AllowedEvent (with_fields context activated body event f)
  unfolding with_fields
  with_fields-Allowed body event none = tt
  with_fields-Allowed body event (some f) =
      OnSome-if AllowedEvent _ none _ tt
        (with_content-Allowed body event f (context.normalize event))

  with_event-Allowed :
      (body : Envelope) (event : Option SlackEvent)
      → OnSome AllowedEvent (with_event context activated body event)
  unfolding with_event
  with_event-Allowed body none = tt
  with_event-Allowed body (some event) =
      OnSome-if AllowedEvent
        (is_text "event_callback" body.kind && is_text context.team_id body.team_id)
        (with_fields context activated body event (fields_of body event)) none
        (with_fields-Allowed body event (fields_of body event)) tt

  classify-Allowed :
      (body : Option Envelope) → OnSome AllowedEvent (classify_slack_event context activated body)
  unfolding classify_slack_event
  classify-Allowed none = tt
  classify-Allowed (some body) = with_event-Allowed body body.event

-- the thread of the row's message was activated, where it is a plain message in a thread
pub IsAllowed : Inbox → Row → Type 0
IsAllowed s r =
    in_thread r.event_type ≡ true
    → is_activated (thread_key r.team_id r.channel_id (or_else r.thread_ts r.message_ts)) s ≡ true

activate_keeps :
    (e : NormalizedSlackEvent) (key : String) (known : List Activated)
    → is_some (get conversation_of key known) ≡ true
    → is_some (get conversation_of key (activate e known)) ≡ true
unfolding activate
activate_keeps e key known h =
    ground (arith, h, get-append conversation_of key (activation_of e) known)

accept_keeps :
    (now : ℕ) (e : NormalizedSlackEvent) (key : String) (s : Inbox)
    → is_activated key s ≡ true
    → is_activated key (accept now e s).1 ≡ true
unfolding is_activated accept
accept_keeps now e key s h = ground (arith, h, activate_keeps e key s.activated h)

All-keeps :
    (now : ℕ) (e : NormalizedSlackEvent) (s : Inbox) (rs : List Row)
    → All (IsAllowed s) rs
    → All (IsAllowed (accept now e s).1) rs
unfolding IsAllowed
All-keeps now e s [] h = tt
All-keeps now e s (r ∷ rs) h = (λ t. accept_keeps now e _ s (h.0 t), All-keeps now e s rs h.1)

accept_rows :
    (now : ℕ) (e : NormalizedSlackEvent) (s : Inbox)
    → ((accept now e s).1.rows ≡ s.rows)
      ⊎ ((accept now e s).1.rows ≡ s.rows ++ row_of now s.next_value e ∷ [])
unfolding accept
accept_rows now e s = elim (Bool-cases (is_some (get id_of e.event_id s.rows))) [
  | inl known ↦ inl (rw known refl)
  | inr fresh ↦ inr (rw fresh refl)
]

accept-IsAllowed :
    (context : Context) (now : ℕ) (e : NormalizedSlackEvent) (s : Inbox)
    → AllowedEvent context (λ key. is_activated key s) e
    → All (IsAllowed s) s.rows
    → All (IsAllowed (accept now e s).1) (accept now e s).1.rows
unfolding IsAllowed Allowed row_of
accept-IsAllowed context now e s a h =
    let s' : Inbox = (accept now e s).1 in
    let before : All (IsAllowed s') s.rows = All-keeps now e s s.rows h in
    let here : IsAllowed s' (row_of now s.next_value e) = λ t. accept_keeps now e _ s (a t) in
    elim (accept_rows now e s) [
      | inl same ↦ subst (All (IsAllowed s')) (sym same) before
      | inr more ↦
          subst (All (IsAllowed s')) (sym more)
            (All-append (IsAllowed s') s.rows (row_of now s.next_value e ∷ []) before (here, tt))
    ]

handled-IsAllowed :
    (context : Context) (now : ℕ) (o : Option NormalizedSlackEvent) (s : Inbox)
    → OnSome (AllowedEvent context (λ key. is_activated key s)) o
    → All (IsAllowed s) s.rows
    → All (IsAllowed (handled now o s)) (handled now o s).rows
unfolding handled
handled-IsAllowed context now none s a h = h
handled-IsAllowed context now (some e) s a h = accept-IsAllowed context now e s a h

-- envelopes as they come, each with its date and its reading of the context
unfoldable pub handle_all : List (Context × ℕ × Option Envelope) → Inbox → Inbox
handle_all [] s = s
handle_all ((context, now, body) ∷ es) s = handle_all es (handle context now body s)

handle_all_keeps :
    (es : List (Context × ℕ × Option Envelope)) (s : Inbox)
    → All (IsAllowed s) s.rows
    → All (IsAllowed (handle_all es s)) (handle_all es s).rows
unfolding handle_all handle
handle_all_keeps [] s h = h
handle_all_keeps ((context, now, body) ∷ es) s h = handle_all_keeps es (handle context now body s) (
    handled-IsAllowed context now (classify_slack_event context (λ key. is_activated key s) body) s
      (classify-Allowed context (λ key. is_activated key s) body) h)

-- Whatever envelopes come into an empty inbox, each row of a plain message in a thread belongs to a
-- thread that is activated.
pub handle_all-IsAllowed :
    (es : List (Context × ℕ × Option Envelope))
    → All (IsAllowed (handle_all es new)) (handle_all es new).rows
unfolding new
handle_all-IsAllowed es = handle_all_keeps es new tt
