-- ===== src/Assistant/Scheduler/Order.antt =====
-- src/assistant/scheduler.ts: the order of the users' jobs.
use qiyan_bot.Prelude.{
  ℕ, ◌≡◌, refl, ap, sym, ◌∙◌, true, Option, none, some, List, [], ◌∷◌, ◌++◌, arith, inl, inr,
  Bool-cases, String, if◌then◌else◌, or_else,
}
use mathlib.Core.List.{append_assoc, append-nil}
use qiyan_bot.Assistant.Scheduler.Jobs.{
  Options, Scheduler, AssistantJob, user, batch, QueuedEvent, UserJob, EventJob, EligibleEventBatch,
  is_transient, add_id,
}
use qiyan_bot.Assistant.Scheduler.Pump.{
  next_user, next_job, pump, end_pump, take_event_batch, should_service_events,
  schedule_event_window, kick, cancel_event_timer, batch_job,
}
use qiyan_bot.Assistant.Scheduler.{
  Call, enqueues_user, enqueues_event, period_completes, waits, timer_fires, job_done, commits,
  enqueue_user, enqueue_event, place_event, append_event, coalesce_event, resume, fire_timer, idle,
  commit_event_batch, commit_candidate, note_conversation_period_completed,
  peek_eligible_event_batch, step, run, find_event, started,
}
use qiyan_bot.Assistant.Scheduler.Rounds.{goes_on, ends, round}

-- the users' jobs among those that were started
abbrev pub users_of : List AssistantJob → List UserJob
users_of [] = []
users_of (user job ∷ jobs) = job ∷ users_of jobs
users_of (batch id es ps ∷ jobs) = users_of jobs

abbrev pub user_of : Option AssistantJob → List UserJob
user_of none = []
user_of (some (user job)) = job ∷ []
user_of (some (batch id es ps)) = []

-- the users' jobs that the calls bring
abbrev pub enqueued : List (ℕ × Call) → List UserJob
enqueued [] = []
enqueued ((now, enqueues_user job) ∷ calls) = job ∷ enqueued calls
enqueued ((now, enqueues_event job) ∷ calls) = enqueued calls
enqueued ((now, period_completes) ∷ calls) = enqueued calls
enqueued ((now, waits) ∷ calls) = enqueued calls
enqueued ((now, timer_fires) ∷ calls) = enqueued calls
enqueued ((now, job_done) ∷ calls) = enqueued calls
enqueued ((now, commits b ids) ∷ calls) = enqueued calls

abbrev pub queue : Option AssistantJob × Scheduler → List UserJob
queue p = user_of p.0 ++ p.1.users

next_user-queue :
    (o : Options) (now : ℕ) (us : List UserJob) (s : Scheduler)
    → s.users ≡ us
    → queue (next_user o now us s) ≡ us
unfolding next_user schedule_event_window
next_user-queue o now [] s h = h
next_user-queue o now (u ∷ us) s h = refl

next_job-queue : (o : Options) (now : ℕ) (s : Scheduler) → queue (next_job o now s) ≡ s.users
unfolding next_job take_event_batch schedule_event_window cancel_event_timer batch_job
next_job-queue o now s = elim (Bool-cases (should_service_events o now s)) [
  | inl due ↦ rw due refl
  | inr quiet ↦ rw quiet (next_user-queue o now s.users s refl)
]

end_pump-users : (o : Options) (now : ℕ) (s : Scheduler) → (end_pump o now s).1.users ≡ s.users
unfolding end_pump cancel_event_timer
end_pump-users o now s = ground arith

pump-queue : (o : Options) (now : ℕ) (s : Scheduler) → queue (pump o 1 now s) ≡ s.users
unfolding schedule_event_window
pump-queue o now s = elim (round o now s) [
  | goes_on job e p ↦ ap queue (p 0) ∙ next_job-queue o now s
  | ends over p ↦ ap queue (p 0) ∙ end_pump-users o now (schedule_event_window o now s)
]

kick-queue : (o : Options) (now : ℕ) (s : Scheduler) → queue (kick o now s) ≡ s.users
unfolding kick
kick-queue o now s = elim (Bool-cases s.running) [
  | inl on ↦ rw on refl
  | inr off ↦ rw off (pump-queue o now (record s { running = true }))
]

place_event-queue :
    (o : Options) (now : ℕ) (job : EventJob) (old : Option QueuedEvent) (s : Scheduler)
    → queue (place_event o now job old s) ≡ s.users
unfolding place_event append_event coalesce_event schedule_event_window
place_event-queue o now job none s = ground (
  arith,
  kick-queue o now (
      schedule_event_window o now (record s {
        events = s.events ++ record { job = job; queued_at = or_else job.queued_at now } ∷ [];
        event_ids = add_id job.id s.event_ids;
      })),
)
place_event-queue o now job (some old) s = ground arith

commit-users :
    (b : String) (ids : List String) (c : Option EligibleEventBatch) (s : Scheduler)
    → (commit_candidate b ids c s).1.users ≡ s.users
unfolding commit_candidate
commit-users b ids none s = refl
commit-users b ids (some c) s = ground arith

step-queue :
    (o : Options) (now : ℕ) (call : Call) (s : Scheduler)
    → queue (step o now call s) ≡ s.users ++ enqueued ((now, call) ∷ [])
unfolding step enqueue_user enqueue_event note_conversation_period_completed idle fire_timer resume
    commit_event_batch cancel_event_timer
step-queue o now (enqueues_user job) s =
    ground (arith, kick-queue o now (record s { users = s.users ++ job ∷ [] }))
step-queue o now (enqueues_event job) s = rw (append-nil s.users) (
    ground (
      arith,
      place_event-queue o now job (if is_transient job then find_event job s.events else none) s,
    ))
step-queue o now period_completes s = sym (append-nil s.users)
step-queue o now waits s = rw (append-nil s.users) (ground arith)
step-queue o now timer_fires s =
    rw (append-nil s.users) (ground (arith, kick-queue o now (record s { event_timer = none })))
step-queue o now job_done s = rw (append-nil s.users) (ground (arith, pump-queue o now s))
step-queue o now (commits b ids) s =
    commit-users b ids (peek_eligible_event_batch o now s) s ∙ sym (append-nil s.users)

enqueued_cons :
    (now : ℕ) (call : Call) (calls : List (ℕ × Call))
    → enqueued ((now, call) ∷ calls) ≡ enqueued ((now, call) ∷ []) ++ enqueued calls
enqueued_cons now (enqueues_user job) calls = refl
enqueued_cons now (enqueues_event job) calls = refl
enqueued_cons now period_completes calls = refl
enqueued_cons now waits calls = refl
enqueued_cons now timer_fires calls = refl
enqueued_cons now job_done calls = refl
enqueued_cons now (commits b ids) calls = refl

started-queue :
    (j : Option AssistantJob) (done : List AssistantJob × Scheduler)
    → users_of (started j done).0 ++ (started j done).1.users
      ≡ user_of j ++ (users_of done.0 ++ done.1.users)
unfolding started
started-queue none done = refl
started-queue (some (user job)) done = refl
started-queue (some (batch id es ps)) done = refl

-- Whatever else happens in between, the users' jobs are started in the order in which they were
-- enqueued, none twice and none skipped: those that were started, and then those that wait, are
-- those that waited at first and then those that came.
pub users_in_order :
    (o : Options) (calls : List (ℕ × Call)) (s : Scheduler)
    → users_of (run o calls s).0 ++ (run o calls s).1.users ≡ s.users ++ enqueued calls
unfolding run
users_in_order o [] s = sym (append-nil s.users)
users_in_order o ((now, call) ∷ calls) s =
    let next : Option AssistantJob × Scheduler = step o now call s in
    started-queue next.0 (run o calls next.1)
    ∙ ap (λ us. user_of next.0 ++ us) (users_in_order o calls next.1)
    ∙ sym (append_assoc (user_of next.0) next.1.users (enqueued calls))
    ∙ ap (λ us. us ++ enqueued calls) (step-queue o now call s)
    ∙ append_assoc s.users (enqueued ((now, call) ∷ [])) (enqueued calls)
    ∙ ap (λ us. s.users ++ us) (sym (enqueued_cons now call calls))
