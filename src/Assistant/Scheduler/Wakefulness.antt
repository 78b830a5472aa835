-- ===== src/Assistant/Scheduler/Wakefulness.antt =====
-- src/assistant/scheduler.ts: that nothing waits without a pump or a timer that comes back to it.
use qiyan_bot.Prelude.{
  ℕ, zero, suc, ◌≡◌, refl, ap, ◌∙◌, Bool, true, false, ◌||◌, ◌&&◌, Option, none, some, List, [],
  ◌∷◌, ◌++◌, arith, inl, inr, Bool-cases, length, String, is_some, or_else, if◌then◌else◌, drop,
}
use qiyan_bot.Assistant.Scheduler.Jobs.{
  Options, Scheduler, EventJob, EligibleEventBatch, QueuedEvent, is_empty, add_id, is_transient,
}
use qiyan_bot.Assistant.Scheduler.Pump.{
  pump, end_pump, schedule_event_window, schedule_first, kick, cancel_event_timer,
}
use qiyan_bot.Assistant.Scheduler.{
  Call, enqueues_user, enqueues_event, period_completes, waits, timer_fires, job_done, commits,
  resume, enqueue_user, enqueue_event, place_event, append_event, coalesce_event, fire_timer, idle,
  commit_event_batch, commit_candidate, note_conversation_period_completed,
  peek_eligible_event_batch, replace_event, find_event, step,
}
use qiyan_bot.Assistant.Scheduler.Rounds.{goes_on, ends, round}
use qiyan_bot.Assistant.Scheduler.Drain.{next_job-running}

-- the pump runs, or no user's job waits and the timer is armed for what events there are
abbrev pub is_awake : Scheduler → Bool
is_awake s = s.running || (is_empty s.users && (is_empty s.events || is_some s.event_timer))

schedule_first_lem :
    (o : Options) (now : ℕ) (es : List QueuedEvent) (t : Option ℕ)
    → (is_empty es || is_some (schedule_first o now es t)) ≡ true
unfolding schedule_first
schedule_first_lem o now [] t = refl
schedule_first_lem o now (e ∷ es) none = refl
schedule_first_lem o now (e ∷ es) (some d) = refl

-- the `finally` of a pump that is over
end_pump_awake :
    (o : Options) (now : ℕ) (s : Scheduler)
    → s.users ≡ []
    → is_awake (end_pump o now (schedule_event_window o now s)).1 ≡ true
unfolding end_pump schedule_event_window cancel_event_timer
end_pump_awake o now s h = ground (arith, h, schedule_first_lem o now s.events s.event_timer)

pump_awake :
    (o : Options) (now : ℕ) (s : Scheduler) → s.running ≡ true → is_awake (pump o 1 now s).1 ≡ true
pump_awake o now s on = elim (round o now s) [
  | goes_on job e p ↦ ap (λ q. is_awake q.1) (p 0) ∙ ground (arith, next_job-running o now s, on)
  | ends over p ↦ ap (λ q. is_awake q.1) (p 0) ∙ end_pump_awake o now s (over.no_users)
]

kick_awake : (o : Options) (now : ℕ) (s : Scheduler) → is_awake (kick o now s).1 ≡ true
unfolding kick
kick_awake o now s = ground (arith, pump_awake o now (record s { running = true }) refl)

place_event_awake :
    (o : Options) (now : ℕ) (job : EventJob) (old : Option QueuedEvent) (s : Scheduler)
    → o.executes ≡ true
    → is_awake s ≡ true
    → is_awake (place_event o now job old s).1 ≡ true
unfolding place_event append_event coalesce_event schedule_event_window
place_event_awake o now job none s x h =
    let es : List QueuedEvent =
      s.events ++ record { job = job; queued_at = or_else job.queued_at now } ∷ [] in
    ground (
      arith,
      x,
      h,
      schedule_first_lem o now es s.event_timer,
      kick_awake o now (
          schedule_event_window o now
            (record s { events = es; event_ids = add_id job.id s.event_ids })),
    )
place_event_awake o now job (some old) s x h =
    ground (arith, x, h, schedule_first_lem o now (replace_event job s.events) s.event_timer)

drop_awake :
    {A : Type 0} (n : ℕ) (es : List A) (b : Bool)
    → (is_empty es || b) ≡ true
    → (is_empty (drop n es) || b) ≡ true
drop_awake zero es b h = h
drop_awake (suc n) [] b h = refl
drop_awake (suc n) (e ∷ es) true h = ground arith
drop_awake (suc n) (e ∷ es) false h = absurd (ground (arith, h))

commit_awake :
    (b : String) (ids : List String) (c : Option EligibleEventBatch) (s : Scheduler)
    → is_awake s ≡ true
    → is_awake (commit_candidate b ids c s).1 ≡ true
unfolding commit_candidate
commit_awake b ids none s h = h
commit_awake b ids (some c) s h =
    ground (arith, h, drop_awake (length ids) s.events (is_some s.event_timer))

pub step_awake :
    (o : Options) (now : ℕ) (call : Call) (s : Scheduler)
    → o.executes ≡ true
    → is_awake s ≡ true
    → is_awake (step o now call s).1 ≡ true
unfolding step enqueue_user enqueue_event note_conversation_period_completed idle fire_timer resume
    commit_event_batch cancel_event_timer
step_awake o now (enqueues_user job) s x h =
    ground (arith, x, kick_awake o now (record s { users = s.users ++ job ∷ [] }))
step_awake o now (enqueues_event job) s x h = ground (
  arith,
  h,
  place_event_awake o now job (if is_transient job then find_event job s.events else none) s x h,
)
step_awake o now period_completes s x h = h
step_awake o now waits s x h = ground (arith, h)
step_awake o now timer_fires s x h =
    ground (arith, h, kick_awake o now (record s { event_timer = none }))
step_awake o now job_done s x h = elim (Bool-cases s.running) [
  | inl on ↦ ground (arith, on, pump_awake o now s on)
  | inr off ↦ ground (arith, off, h)
]
step_awake o now (commits b ids) s x h = commit_awake b ids (peek_eligible_event_batch o now s) s h
