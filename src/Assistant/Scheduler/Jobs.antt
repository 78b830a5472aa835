-- ===== src/Assistant/Scheduler/Jobs.antt =====
-- src/assistant/scheduler.ts: the jobs, the state, and how a batch of events is gathered.
use qiyan_bot.Prelude.{
  ℕ, suc, ◌+◌, String, str_eq, str_append, Bool, true, false, not, ◌&&◌, ◌||◌, Option, none, List,
  [], ◌∷◌, ◌++◌, map, if◌then◌else◌, ltb, leb, keep, any,
}

pub data Payload : Type 0 where
  object : List String → String → Payload
  other : String → Payload

pub record UserJob : Type 0 where
  pub id : String
  pub payload : Payload

pub record EventJob : Type 0 where
  pub id : String
  pub session_key : String
  pub payload : Payload
  pub queued_at : Option ℕ

pub data AssistantJob : Type 0 where
  user : UserJob → AssistantJob
  batch : String → List EventJob → List Payload → AssistantJob

pub record QueuedEvent : Type 0 where
  pub job : EventJob
  pub queued_at : ℕ

pub record EligibleEventBatch : Type 0 where
  pub batch_id : String
  pub event_ids : List String
  pub payload : List Payload
  pub queued_at : ℕ
  pub forced : Bool

-- `executes` tells whether the constructor was given `execute`; `byte_length` is `Buffer.byteLength`.
pub record Options : Type 0 where
  pub executes : Bool
  pub byte_length : String → ℕ
  pub max_batch_events : ℕ
  pub max_batch_bytes : ℕ
  pub batch_window_ms : ℕ
  pub max_event_age_ms : ℕ

-- the options that the source falls back to
unfoldable pub defaults : Bool → (String → ℕ) → Options
defaults executes byte_length = record {
  executes = executes;
  byte_length = byte_length;
  max_batch_events = 20;
  max_batch_bytes = 8192;
  batch_window_ms = 1000;
  max_event_age_ms = 30000;
}

pub record Scheduler : Type 0 where
  pub users : List UserJob
  pub events : List QueuedEvent
  pub event_ids : List String
  pub running : Bool
  pub consecutive_users : ℕ
  pub waiters : ℕ
  pub event_timer : Option ℕ
  pub completed_conversation_periods : ℕ

unfoldable pub new : Scheduler
new = record {
  users = [];
  events = [];
  event_ids = [];
  running = false;
  consecutive_users = 0;
  waiters = 0;
  event_timer = none;
  completed_conversation_periods = 0;
}

abbrev pub is_empty {ℓ} : {A : Type ℓ} → List A → Bool
is_empty [] = true
is_empty (x ∷ xs) = false

abbrev pub json : Payload → String
json (object keys text) = text
json (other text) = text

unfoldable pub is_transient : EventJob → Bool
is_transient job = elim job.payload [
  | object keys text ↦ any (λ k. str_eq k "status") keys && not (any (λ k. str_eq k "final") keys)
  | other text ↦ false
]

abbrev pub job_of : QueuedEvent → EventJob
job_of e = e.job

abbrev pub id_of : EventJob → String
id_of job = job.id

abbrev pub payload_of : EventJob → Payload
payload_of job = job.payload

-- the methods `delete` and `add` of a set
unfoldable pub delete_id : String → List String → List String
delete_id id = keep (λ x. not (str_eq x id))

unfoldable pub add_id : String → List String → List String
add_id id ids = if any (λ x. str_eq x id) ids then ids else ids ++ id ∷ []

abbrev pub join : List String → String
join [] = ""
join (id ∷ []) = id
join (id ∷ ids) = str_append id (str_append "," (join ids))

unfoldable pub batch_id_of : List EventJob → String
batch_id_of jobs = str_append "batch:" (join (map id_of jobs))

unfoldable pub size_of : Options → EventJob → ℕ
size_of o job = o.byte_length (json job.payload)

-- the guards of the two loops that gather a batch of `n` events and `bytes` bytes so far
unfoldable pub is_full : Options → ℕ → ℕ → EventJob → Bool
unfolding size_of
is_full o n bytes job =
    leb o.max_batch_events n || (ltb 0 n && ltb o.max_batch_bytes (bytes + size_of o job))

unfoldable pub peek_loop : Options → ℕ → ℕ → List QueuedEvent → List EventJob
peek_loop o n bytes [] = []
peek_loop o n bytes (e ∷ es) =
    let rest = peek_loop o (suc n) (bytes + size_of o e.job) es in
    if is_full o n bytes e.job then [] else e.job ∷ rest

unfoldable pub peek_event_jobs : Options → Scheduler → List EventJob
peek_event_jobs o s = peek_loop o 0 0 s.events

-- the batch, the events that stay in the queue and the identifiers that stay in the set
unfoldable pub take_loop :
    Options
    → ℕ
    → ℕ
    → List QueuedEvent
    → List String
    → List EventJob × List QueuedEvent × List String
take_loop o n bytes [] ids = ([], [], ids)
take_loop o n bytes (e ∷ es) ids =
    let rest = take_loop o (suc n) (bytes + size_of o e.job) es (delete_id e.job.id ids) in
    if is_full o n bytes e.job then ([], e ∷ es, ids) else (e.job ∷ rest.0, rest.1, rest.2)
