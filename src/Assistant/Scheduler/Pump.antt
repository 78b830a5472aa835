-- ===== src/Assistant/Scheduler/Pump.antt =====
-- src/assistant/scheduler.ts: the timer of the events, and `pump`.
use qiyan_bot.Prelude.{
  ℕ, zero, suc, ◌+◌, max, Bool, true, false, not, ◌&&◌, ◌||◌, Option, none, some, List, [], ◌∷◌,
  map, if◌then◌else◌, ltb, leb,
}
use qiyan_bot.Assistant.Scheduler.Jobs.{
  AssistantJob, EventJob, Options, QueuedEvent, Scheduler, UserJob, batch, batch_id_of, is_empty,
  payload_of, take_loop, user,
}

abbrev pub min : ℕ → ℕ → ℕ
min a b = if ltb a b then a else b

-- when the batch that starts with this event is due, by its window or by its age
unfoldable pub due_at : Options → QueuedEvent → ℕ
due_at o first = min (first.queued_at + o.batch_window_ms) (first.queued_at + o.max_event_age_ms)

unfoldable pub schedule_first : Options → ℕ → List QueuedEvent → Option ℕ → Option ℕ
schedule_first o now [] timer = timer
schedule_first o now (first ∷ es) none = some (max (due_at o first) now)
schedule_first o now (first ∷ es) (some due) = some due

unfoldable pub schedule_event_window : Options → ℕ → Scheduler → Scheduler
unfolding schedule_first
schedule_event_window o now s = record s {
  event_timer = schedule_first o now s.events s.event_timer;
}

unfoldable pub cancel_event_timer : Scheduler → Scheduler
cancel_event_timer s = record s { event_timer = none }

unfoldable pub take_event_batch : Options → ℕ → Scheduler → List EventJob × Scheduler
take_event_batch o now s =
    let taken = take_loop o 0 0 s.events s.event_ids in
    (
      taken.0,
      schedule_event_window o now
          (record (cancel_event_timer s) { events = taken.1; event_ids = taken.2 }),
    )

unfoldable pub is_due : Options → ℕ → Scheduler → List QueuedEvent → Bool
is_due o now s [] = false
is_due o now s (first ∷ es) =
    leb 5 s.consecutive_users
    || leb (first.queued_at + o.max_event_age_ms) now
    || (is_empty s.users && leb (first.queued_at + o.batch_window_ms) now)

unfoldable pub should_service_events : Options → ℕ → Scheduler → Bool
unfolding is_due
should_service_events o now s = is_due o now s s.events

-- the job of a batch, as `pump` makes it
unfoldable pub batch_job : List EventJob → AssistantJob
batch_job jobs = batch (batch_id_of jobs) jobs (map payload_of jobs)

unfoldable pub next_user : Options → ℕ → List UserJob → Scheduler → Option AssistantJob × Scheduler
next_user o now [] s = (none, schedule_event_window o now s)
next_user o now (job ∷ jobs) s =
    (some (user job), record s { users = jobs; consecutive_users = suc s.consecutive_users })

-- one round of the loop of `pump` up to its await; no job means that the loop is left
unfoldable pub next_job : Options → ℕ → Scheduler → Option AssistantJob × Scheduler
unfolding next_user
next_job o now s =
    if should_service_events o now s
    then (let taken = take_event_batch o now s in
        (some (batch_job taken.0), record (taken.1) { consecutive_users = 0 }))
    else next_user o now s.users s

-- the `finally` of `pump`, with whether it kicks the pump again
unfoldable pub end_pump : Options → ℕ → Scheduler → Bool × Scheduler
end_pump o now s =
    let stopped = record s { running = false } in
    if is_empty s.users && is_empty s.events
    then (false, record (cancel_event_timer stopped) { waiters = 0 })
    else (not (is_empty s.users) || should_service_events o now s, stopped)

unfoldable pub pumped :
    Options
    → ℕ
    → (Scheduler → Option AssistantJob × Scheduler)
    → Option AssistantJob × Scheduler
    → Option AssistantJob × Scheduler
pumped o now again (some job, s) = (some job, s)
pumped o now again (none, s) =
    let ended = end_pump o now s in
    if ended.0 then again (record (ended.1) { running = true }) else (none, ended.1)

-- `pump` up to its next await, with a bound on the times that its `finally` starts it again
unfoldable pub pump : Options → ℕ → ℕ → Scheduler → Option AssistantJob × Scheduler
unfolding pumped
pump o zero now s = (none, s)
pump o (suc fuel) now s = pumped o now (pump o fuel now) (next_job o now s)

unfoldable pub kick : Options → ℕ → Scheduler → Option AssistantJob × Scheduler
kick o now s = if s.running then (none, s) else pump o 1 now (record s { running = true })
