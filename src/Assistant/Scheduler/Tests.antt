-- ===== src/Assistant/Scheduler/Tests.antt =====
-- The assistant's scheduler on concrete calls, and its theorems at concrete inputs.
use qiyan_bot.Prelude.{
  ℕ, ◌≡◌, refl, ◌⊎◌, String, true, false, none, some, List, [], ◌∷◌, ◌++◌, arith, map,
}
use qiyan_bot.Core.{ok}
use qiyan_bot.Assistant.Scheduler.Jobs.{
  Options, defaults, Scheduler, object, other, UserJob, EventJob, user, batch, new, take_loop,
  is_full, size_of, batch_id_of, is_transient, add_id, delete_id, peek_event_jobs, peek_loop,
  job_of, EligibleEventBatch,
}
use qiyan_bot.Assistant.Scheduler.Pump.{
  kick, pump, next_job, take_event_batch, should_service_events, schedule_event_window,
  cancel_event_timer, end_pump, batch_job, due_at,
}
use qiyan_bot.Assistant.Scheduler.{
  Call, enqueues_user, enqueues_event, job_done, run, step, enqueue_user, enqueue_event, resume,
  started, find_event, replace_event, peek_eligible_event_batch, is_forced, commit_event_batch,
}
use qiyan_bot.Assistant.Scheduler.Batches.{IsBatch, take-peek, commit-peek}
use qiyan_bot.Assistant.Scheduler.Sets.{IsConsistent}
use qiyan_bot.Assistant.Scheduler.Identifiers.{run-new-IsConsistent}
use qiyan_bot.Assistant.Scheduler.Order.{users_of, enqueued, users_in_order}
use qiyan_bot.Assistant.Scheduler.Drain.{IsDrained, drained, drained_lem, finished}
use qiyan_bot.Assistant.Scheduler.Fairness.{any_batch, not_starved}

abbrev options : Options
options = defaults true (λ text. 10)

abbrev passive : Options
passive = defaults false (λ text. 5000)

abbrev job : String → UserJob
job id = record { id = id; payload = other "{}" }

-- a status of the session, with the time at which it was queued
abbrev status : String → ℕ → EventJob
status id at = record {
  id = id;
  session_key = "s";
  payload = object ("status" ∷ []) "{}";
  queued_at = some at;
}

abbrev final : String → ℕ → EventJob
final id at = record {
  id = id;
  session_key = "s";
  payload = object ("status" ∷ "final" ∷ []) "{}";
  queued_at = some at;
}

-- Two users' jobs and three events, of which the second status takes the place of the first.
abbrev calls : List (ℕ × Call)
calls =
    (0, enqueues_user (job "a"))
    ∷ (0, enqueues_event (status "1" 0))
    ∷ (1, enqueues_user (job "b"))
    ∷ (1, enqueues_event (status "2" 1))
    ∷ (2, enqueues_event (final "3" 2))
    ∷ (5, job_done)
    ∷ (2000, job_done)
    ∷ (2001, job_done)
    ∷ []

calls_start :
    (run options calls new).0
    ≡ user (job "a")
      ∷ user (job "b")
      ∷ batch "batch:2,3"
          (status "2" 1 ∷ final "3" 2 ∷ [])
          (object ("status" ∷ []) "{}" ∷ object ("status" ∷ "final" ∷ []) "{}" ∷ [])
      ∷ []
unfolding run step new enqueue_user enqueue_event kick pump next_job take_event_batch take_loop
    is_full size_of should_service_events schedule_event_window cancel_event_timer end_pump resume
    started batch_job batch_id_of due_at is_transient find_event replace_event add_id delete_id
    defaults
calls_start = refl

run-new-IsConsistent_example : IsConsistent (run options calls new).1
run-new-IsConsistent_example = run-new-IsConsistent options calls

users_in_order_example :
    users_of (run options calls new).0 ++ (run options calls new).1.users
    ≡ new.users ++ enqueued calls
users_in_order_example = users_in_order options calls new

-- five users' jobs have run in a row, and an event and another user's job wait
abbrev busy : Scheduler
busy = record {
  users = job "f" ∷ [];
  events = record { job = final "1" 0; queued_at = 0 } ∷ [];
  event_ids = "1" ∷ [];
  running = true;
  consecutive_users = 5;
  waiters = 0;
  event_timer = none;
  completed_conversation_periods = 0;
}

drained_lem_example : IsDrained (drained options (1 ∷ 2 ∷ 3 ∷ []) busy)
unfolding defaults
drained_lem_example = drained_lem options (1 ∷ 2 ∷ 3 ∷ []) busy (omega arith) refl (omega arith)

not_starved_example :
    (any_batch (run options (finished (1 ∷ [])) busy).0 ≡ true)
    ⊎ IsDrained (drained options (1 ∷ []) busy)
not_starved_example = not_starved options (1 ∷ []) busy refl refl (omega arith) (omega arith)

-- two events of 5000 bytes do not go into one batch
abbrev two_events : Scheduler
two_events =
    (run passive ((0, enqueues_event (final "1" 0)) ∷ (1, enqueues_event (final "2" 1)) ∷ []) new).1

take-peek_example :
    ((take_event_batch passive 2000 two_events).0 ≡ peek_event_jobs passive two_events)
    × IsBatch passive (take_event_batch passive 2000 two_events).0
    × ((take_event_batch passive 2000 two_events).0
          ++ map job_of (take_event_batch passive 2000 two_events).1.events
        ≡ map job_of two_events.events)
take-peek_example = take-peek passive 2000 two_events

abbrev candidate : EligibleEventBatch
candidate = record {
  batch_id = "batch:1";
  event_ids = "1" ∷ [];
  payload = object ("status" ∷ "final" ∷ []) "{}" ∷ [];
  queued_at = 0;
  forced = false;
}

two_events_peek : peek_eligible_event_batch passive 2000 two_events ≡ some candidate
unfolding run step new enqueue_event size_of started batch_id_of is_transient find_event add_id
    defaults peek_eligible_event_batch peek_event_jobs peek_loop is_forced is_full
two_events_peek = refl

commit-peek_example : commit_event_batch passive 2000 "batch:1" ("1" ∷ []) two_events ≡ (
  ok tt,
  record two_events {
    events = (take_event_batch passive 2000 two_events).1.events;
    event_ids = (take_event_batch passive 2000 two_events).1.event_ids;
    completed_conversation_periods = 0;
  },
)
commit-peek_example = commit-peek passive 2000 two_events candidate two_events_peek
