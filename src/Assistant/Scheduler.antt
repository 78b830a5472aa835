-- ===== src/Assistant/Scheduler.antt =====
-- src/assistant/scheduler.ts: which job the assistant runs next, a user's or a batch of events.
-- The clock is read once in each stretch of code that runs without an await, and that reading is an
-- argument. A call returns the job that it hands to `execute`, if it hands one over: from then on
-- `running` stays set until the job's promise settles, which is the call `resume`; `executeSafely`
-- makes nothing of an error. The timer is the time at which it is due, a waiter of `idle` is counted.
-- A payload is its JSON text, with its keys when it is an object.
pub mod Pump
pub mod Sets
pub mod Jobs
pub mod Batches
pub mod Identifiers
pub mod Rounds
pub mod Order
pub mod Drain
pub mod Fairness
pub mod Watching
pub mod Wakefulness
mod Tests
use qiyan_bot.Core.{Result, ok, error}
use qiyan_bot.Prelude.{
  ℕ, zero, suc, ◌+◌, max, String, str_eq, str_append, Bool, true, false, not, ◌&&◌, ◌||◌, Option,
  none, some, List, [], ◌∷◌, ◌++◌, map, if◌then◌else◌, ltb, leb, ◌==◌, length, keep, any, or_else,
  is_some, drop,
}
use qiyan_bot.Assistant.Scheduler.Jobs.{
  AssistantJob, EligibleEventBatch, EventJob, Options, Payload, QueuedEvent, Scheduler, UserJob,
  add_id, batch, batch_id_of, defaults, delete_id, id_of, is_empty, is_full, is_transient, job_of,
  join, json, new, object, other, payload_of, peek_event_jobs, peek_loop, size_of, take_loop, user,
}
use qiyan_bot.Assistant.Scheduler.Pump.{
  batch_job, cancel_event_timer, due_at, end_pump, is_due, kick, min, next_job, next_user, pump,
  pumped, schedule_event_window, schedule_first, should_service_events, take_event_batch,
}

unfoldable pub enqueue_user : Options → ℕ → UserJob → Scheduler → Option AssistantJob × Scheduler
enqueue_user o now job s =
    let s' = record s { users = s.users ++ job ∷ [] } in
    if o.executes then kick o now s' else (none, s')

abbrev pub coalesces : EventJob → QueuedEvent → Bool
coalesces job item = str_eq item.job.session_key job.session_key && is_transient item.job

-- `findIndex` and what stands there
unfoldable pub find_event : EventJob → List QueuedEvent → Option QueuedEvent
find_event job [] = none
find_event job (e ∷ es) = if coalesces job e then some e else find_event job es

-- `splice(index, 1, { job, queuedAt })` at that index
unfoldable pub replace_event : EventJob → List QueuedEvent → List QueuedEvent
replace_event job [] = []
replace_event job (e ∷ es) =
    if coalesces job e then record e { job = job } ∷ es else e ∷ replace_event job es

append_event : Options → ℕ → EventJob → Scheduler → Option AssistantJob × Scheduler
append_event o now job s =
    let s' = record s {
      events = s.events ++ record { job = job; queued_at = or_else job.queued_at now } ∷ [];
      event_ids = add_id job.id s.event_ids;
    } in
    if o.executes
    then (let s'' = schedule_event_window o now s' in
        if not (is_empty s.users) || leb 5 s.consecutive_users then kick o now s'' else (none, s''))
    else (none, s')

coalesce_event : Options → ℕ → EventJob → QueuedEvent → Scheduler → Scheduler
coalesce_event o now job old s =
    let s' = record s {
      events = replace_event job s.events;
      event_ids = add_id job.id (delete_id old.job.id s.event_ids);
    } in
    if o.executes then schedule_event_window o now s' else s'

place_event :
    Options → ℕ → EventJob → Option QueuedEvent → Scheduler → Option AssistantJob × Scheduler
place_event o now job none s = append_event o now job s
place_event o now job (some old) s = (none, coalesce_event o now job old s)

unfoldable pub enqueue_event : Options → ℕ → EventJob → Scheduler → Option AssistantJob × Scheduler
unfolding append_event coalesce_event place_event
enqueue_event o now job s =
    if any (λ x. str_eq x job.id) s.event_ids
    then (none, s)
    else place_event o now job (if is_transient job then find_event job s.events else none) s

unfoldable pub note_conversation_period_completed : Scheduler → Scheduler
note_conversation_period_completed s = record s {
  completed_conversation_periods = suc s.completed_conversation_periods;
}

unfoldable pub is_forced : Options → ℕ → QueuedEvent → Scheduler → Bool
is_forced o now first s =
    leb 5 s.completed_conversation_periods || leb (first.queued_at + o.max_event_age_ms) now

peek_first : Options → ℕ → List QueuedEvent → Scheduler → Option EligibleEventBatch
peek_first o now [] s = none
peek_first o now (first ∷ es) s =
    if not (is_forced o now first s) && ltb now (first.queued_at + o.batch_window_ms)
    then none
    else some (record {
      batch_id = batch_id_of (peek_event_jobs o s);
      event_ids = map id_of (peek_event_jobs o s);
      payload = map payload_of (peek_event_jobs o s);
      queued_at = first.queued_at;
      forced = is_forced o now first s;
    })

unfoldable pub peek_eligible_event_batch : Options → ℕ → Scheduler → Option EligibleEventBatch
unfolding peek_first
peek_eligible_event_batch o now s = peek_first o now s.events s

-- equal lengths, and equal identifiers at each index
unfoldable pub same_ids : List String → List String → Bool
same_ids [] [] = true
same_ids [] (y ∷ ys) = false
same_ids (x ∷ xs) [] = false
same_ids (x ∷ xs) (y ∷ ys) = str_eq x y && same_ids xs ys

unfoldable pub delete_ids : List String → List String → List String
delete_ids [] ids = ids
delete_ids (x ∷ xs) ids = delete_ids xs (delete_id x ids)

commit_candidate :
    String → List String → Option EligibleEventBatch → Scheduler → Result {0} Unit × Scheduler
commit_candidate batch_id event_ids none s = (error, s)
commit_candidate batch_id event_ids (some c) s =
    if str_eq c.batch_id batch_id && same_ids c.event_ids event_ids
    then (
      ok tt,
      record s {
        events = drop (length event_ids) s.events;
        event_ids = delete_ids event_ids s.event_ids;
        completed_conversation_periods = 0;
      },
    )
    else (error, s)

unfoldable pub commit_event_batch :
    Options → ℕ → String → List String → Scheduler → Result {0} Unit × Scheduler
unfolding commit_candidate
commit_event_batch o now batch_id event_ids s =
    commit_candidate batch_id event_ids (peek_eligible_event_batch o now s) s

wake_first : Options → ℕ → List QueuedEvent → Scheduler → Option ℕ
wake_first o now [] s = none
wake_first o now (first ∷ es) s =
    some (if leb 5 s.completed_conversation_periods then now else due_at o first)

unfoldable pub next_wake_at : Options → ℕ → Scheduler → Option ℕ
unfolding wake_first
next_wake_at o now s = wake_first o now s.events s

-- whether the promise of `idle` is already resolved
unfoldable pub idle : Scheduler → Bool × Scheduler
idle s =
    if not s.running && is_empty s.users && is_empty s.events
    then (true, s)
    else (false, record s { waiters = suc s.waiters })

-- the timer's callback
unfoldable pub fire_timer : Options → ℕ → Scheduler → Option AssistantJob × Scheduler
fire_timer o now s = if is_some s.event_timer then kick o now (cancel_event_timer s) else (none, s)

-- the job that `pump` awaits is done
unfoldable pub resume : Options → ℕ → Scheduler → Option AssistantJob × Scheduler
resume o now s = if s.running then pump o 1 now s else (none, s)

pub data Call : Type 0 where
  enqueues_user : UserJob → Call
  enqueues_event : EventJob → Call
  period_completes waits timer_fires job_done : Call
  commits : String → List String → Call

unfoldable pub step : Options → ℕ → Call → Scheduler → Option AssistantJob × Scheduler
step o now (enqueues_user job) s = enqueue_user o now job s
step o now (enqueues_event job) s = enqueue_event o now job s
step o now period_completes s = (none, note_conversation_period_completed s)
step o now waits s = (none, (idle s).1)
step o now timer_fires s = fire_timer o now s
step o now job_done s = resume o now s
step o now (commits batch_id event_ids) s =
    (none, (commit_event_batch o now batch_id event_ids s).1)

unfoldable pub started :
    Option AssistantJob → List AssistantJob × Scheduler → List AssistantJob × Scheduler
started none done = done
started (some job) done = (job ∷ done.0, done.1)

-- calls in order, each with its reading of the clock; the result has the jobs that were started
unfoldable pub run : Options → List (ℕ × Call) → Scheduler → List AssistantJob × Scheduler
unfolding started
run o [] s = ([], s)
run o ((now, call) ∷ calls) s = started (step o now call s).0 (run o calls (step o now call s).1)
