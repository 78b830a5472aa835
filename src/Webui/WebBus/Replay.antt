-- ===== src/Webui/WebBus/Replay.antt =====
-- src/webui/web-bus.ts, one subscription: its numbered events, the bounded buffer from which a
-- socket that comes back is served, and the test whether that buffer can still serve it.
-- The event type is a parameter; so is the length of an event's JSON text in bytes.
pub mod Complete
pub mod Bounds
mod Tests
use qiyan_bot.Prelude.{
  ℕ, suc, ◌+◌, ◌-◌, String, Bool, true, false, ◌||◌, Option, none, some, List, [], ◌∷◌, ◌++◌, max,
  if◌then◌else◌, ltb, leb, length,
}

pub record Entry (E : Type 0) : Type 0 where
  pub seq : ℕ
  pub event : E
  pub bytes : ℕ

pub record Subscription : Type 0 where
  pub nickname : String
  pub endpoint_id : String
  pub thread_id : String
  pub mapping_id : String
  pub request_id : String
  pub subscription_id : String

pub record SubscriptionState (E : Type 0) : Type 0 where
  pub subscription : Subscription
  pub socket : Option String
  pub replay : List (Entry E)
  pub replay_bytes : ℕ
  pub latest_seq : ℕ
  pub dropped_through_seq : ℕ
  pub expiry : Bool

pub record Limits : Type 0 where
  pub max_replay_events : ℕ
  pub max_replay_bytes : ℕ

abbrev pub max_replay_event_bytes : ℕ
max_replay_event_bytes = 262144

-- Number.MAX_SAFE_INTEGER
abbrev pub max_safe_integer : ℕ
max_safe_integer = 9007199254740991

module _ {E : Type 0} where
  unfoldable pub new : Subscription → Option String → SubscriptionState E
  new subscription socket = record {
    subscription = subscription;
    socket = socket;
    replay = [];
    replay_bytes = 0;
    latest_seq = 0;
    dropped_through_seq = 0;
    expiry = false;
  }

  abbrev pub over : Limits → List (Entry E) → ℕ → Bool
  over lim es bytes = ltb lim.max_replay_events (length es) || ltb lim.max_replay_bytes bytes

  -- The `while` loop of `publishSubscription` over the buffer's list: `shift` on an empty buffer
  -- ends it. `replayBytes` is the sum of the entries' bytes, so the subtraction does not stop at 0.
  unfoldable pub trim : Limits → List (Entry E) → SubscriptionState E → SubscriptionState E
  trim lim [] s = record s { replay = [] }
  trim lim (e ∷ es) s =
      let rest = trim lim es (record s {
        replay_bytes = s.replay_bytes - e.bytes;
        dropped_through_seq = max s.dropped_through_seq e.seq;
      }) in
      if over lim (e ∷ es) s.replay_bytes then rest else record s { replay = e ∷ es }

  -- `publishSubscription` up to the send: the entry that it makes and the buffer that it leaves
  unfoldable pub entry_for : (E → ℕ) → E → SubscriptionState E → Entry E
  entry_for json_bytes event s = record {
    seq = suc s.latest_seq;
    event = event;
    bytes = json_bytes event + 256;
  }

  unfoldable pub record_event : Limits → (E → ℕ) → E → SubscriptionState E → SubscriptionState E
  unfolding entry_for
  record_event lim json_bytes event s =
      let entry = entry_for json_bytes event s in
      if leb entry.bytes max_replay_event_bytes
      then trim lim (s.replay ++ entry ∷ [])
          (record s { latest_seq = entry.seq; replay_bytes = s.replay_bytes + entry.bytes })
      else record s { latest_seq = entry.seq; dropped_through_seq = entry.seq }

  abbrev first_after : List (Entry E) → ℕ → Bool
  first_after [] after_seq = false
  first_after (e ∷ es) after_seq = ltb (after_seq + 1) e.seq

  -- `none` is a cursor that is negative or no integer.
  unfoldable pub replay_gap : SubscriptionState E → Option ℕ → Bool
  replay_gap s none = true
  replay_gap s (some after_seq) =
      if ltb max_safe_integer after_seq || ltb s.latest_seq after_seq
      then true
      else if ltb after_seq s.dropped_through_seq
      then true
      else first_after s.replay after_seq

  -- The entries that `replay` sends to a cursor, oldest first.
  unfoldable pub entries_after : ℕ → List (Entry E) → List (Entry E)
  entries_after after_seq [] = []
  entries_after after_seq (e ∷ es) =
      let rest = entries_after after_seq es in if ltb after_seq e.seq then e ∷ rest else rest

  unfoldable pub record_events :
      Limits → (E → ℕ) → List E → SubscriptionState E → SubscriptionState E
  record_events lim json_bytes [] s = s
  record_events lim json_bytes (e ∷ es) s =
      record_events lim json_bytes es (record_event lim json_bytes e s)
