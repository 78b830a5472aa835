-- ===== src/Assistant/Scheduler/Drain.antt =====
-- src/assistant/scheduler.ts: that the pump runs dry.
use qiyan_bot.Prelude.{
  ℕ, suc, ◌+◌, ◌≤◌, ◌<◌, ◌≡◌, refl, ap, ◌∙◌, true, false, Option, none, some, List, [], ◌∷◌, arith,
  inl, inr, Bool-cases, length, String,
}
use qiyan_bot.Assistant.Scheduler.Jobs.{
  Options, Scheduler, AssistantJob, QueuedEvent, UserJob, is_full, take_loop, size_of, delete_id,
}
use qiyan_bot.Assistant.Scheduler.Pump.{
  is_due, next_user, next_job, pump, end_pump, take_event_batch, should_service_events,
  schedule_event_window, cancel_event_timer,
}
use qiyan_bot.Assistant.Scheduler.{Call, job_done, resume, step, run, started}
use qiyan_bot.Assistant.Scheduler.Rounds.{goes_on, ends, round, IsOver}

abbrev pub waiting : Scheduler → ℕ
waiting s = length s.users + length s.events

take_loop-length :
    (o : Options) (n b : ℕ) (es : List QueuedEvent) (ids : List String)
    → length (take_loop o n b es ids).1 ≤ length es
unfolding take_loop
take_loop-length o n b [] ids = omega arith
take_loop-length o n b (e ∷ es) ids =
    ground (arith, take_loop-length o (suc n) (b + size_of o e.job) es (delete_id e.job.id ids))

take_loop_shrinks :
    (o : Options) (e : QueuedEvent) (es : List QueuedEvent) (ids : List String)
    → 1 ≤ o.max_batch_events
    → length (take_loop o 0 0 (e ∷ es) ids).1 ≤ length es
unfolding take_loop is_full
take_loop_shrinks o e es ids h =
    ground (arith, h, take_loop-length o 1 (0 + size_of o e.job) es (delete_id e.job.id ids))

take_due :
    (o : Options) (now : ℕ) (es : List QueuedEvent) (s : Scheduler)
    → 1 ≤ o.max_batch_events
    → is_due o now s es ≡ true
    → length (take_loop o 0 0 es s.event_ids).1 < length es
unfolding is_due
take_due o now [] s h d = absurd (ground arith)
take_due o now (e ∷ es) s h d = omega (arith, take_loop_shrinks o e es s.event_ids h)

next_user_shrinks :
    (o : Options) (now : ℕ) (us : List UserJob) (s : Scheduler) (job : AssistantJob)
    → s.users ≡ us
    → (next_user o now us s).0 ≡ some job
    → waiting (next_user o now us s).1 < waiting s
unfolding next_user
next_user_shrinks o now [] s job e h = absurd (ground arith)
next_user_shrinks o now (u ∷ us) s job e h = ground (arith, ap length e)

pub next_job_shrinks :
    (o : Options) (now : ℕ) (s : Scheduler) (job : AssistantJob)
    → 1 ≤ o.max_batch_events
    → (next_job o now s).0 ≡ some job
    → waiting (next_job o now s).1 < waiting s
unfolding next_job take_event_batch schedule_event_window cancel_event_timer should_service_events
next_job_shrinks o now s job h j = elim (Bool-cases (is_due o now s s.events)) [
  | inl due ↦ rw due (omega (arith, take_due o now s.events s h due))
  | inr quiet ↦ rw quiet (next_user_shrinks o now s.users s job refl (ground (arith, j, quiet)))
]

next_user-running :
    (o : Options) (now : ℕ) (us : List UserJob) (s : Scheduler)
    → (next_user o now us s).1.running ≡ s.running
unfolding next_user schedule_event_window
next_user-running o now [] s = refl
next_user-running o now (u ∷ us) s = refl

pub next_job-running :
    (o : Options) (now : ℕ) (s : Scheduler) → (next_job o now s).1.running ≡ s.running
unfolding next_job take_event_batch schedule_event_window cancel_event_timer
next_job-running o now s = ground (arith, next_user-running o now s.users s)

-- the await of each job ends, at these readings of the clock
abbrev pub finished : List ℕ → List (ℕ × Call)
finished [] = []
finished (now ∷ clocks) = (now, job_done) ∷ finished clocks

pub record IsDrained (s : Scheduler) : Type 0 where
  pub stopped : s.running ≡ false
  pub served : s.users ≡ []

pub started_state :
    (j : Option AssistantJob) (done : List AssistantJob × Scheduler) → (started j done).1 ≡ done.1
unfolding started
started_state none done = refl
started_state (some job) done = refl

-- one reading more, as far as the state goes
abbrev pub drained : Options → List ℕ → Scheduler → Scheduler
drained o clocks s = (run o (finished clocks) s).1

pub drained_cons :
    (o : Options) (now : ℕ) (clocks : List ℕ) (s : Scheduler) (p : Option AssistantJob × Scheduler)
    → resume o now s ≡ p
    → drained o (now ∷ clocks) s ≡ drained o clocks p.1
unfolding run step
drained_cons o now clocks s p e =
    started_state (resume o now s).0 (drained_run (resume o now s))
    ∙ ap (λ p. drained o clocks p.1) e
  where
    drained_run : Option AssistantJob × Scheduler → List AssistantJob × Scheduler
    drained_run p = run o (finished clocks) p.1

resume_stopped :
    (o : Options) (now : ℕ) (s : Scheduler) → s.running ≡ false → resume o now s ≡ (none, s)
unfolding resume
resume_stopped o now s h = ground (arith, h)

pub resume_running :
    (o : Options) (now : ℕ) (s : Scheduler) → s.running ≡ true → resume o now s ≡ pump o 1 now s
unfolding resume
resume_running o now s h = ground (arith, h)

drained-IsDrained :
    (o : Options) (clocks : List ℕ) (s : Scheduler) → IsDrained s → IsDrained (drained o clocks s)
unfolding run
drained-IsDrained o [] s v = v
drained-IsDrained o (now ∷ clocks) s v =
    rw (drained_cons o now clocks s (none, s) (resume_stopped o now s (v.stopped)))
      (drained-IsDrained o clocks s v)

end_pump-IsDrained :
    (o : Options) (now : ℕ) (s : Scheduler)
    → IsOver o now s
    → IsDrained (end_pump o now (schedule_event_window o now s)).1
unfolding end_pump schedule_event_window cancel_event_timer
end_pump-IsDrained o now s over = ground (arith, over.no_users)

-- the pump that ends stays ended
pub drained_ends :
    (o : Options) (now : ℕ) (clocks : List ℕ) (s : Scheduler)
    → s.running ≡ true
    → IsOver o now s
    → pump o 1 now s ≡ (none, (end_pump o now (schedule_event_window o now s)).1)
    → IsDrained (drained o (now ∷ clocks) s)
drained_ends o now clocks s on over p =
    rw
      (drained_cons o now clocks s (none, (end_pump o now (schedule_event_window o now s)).1)
        (resume_running o now s on ∙ p))
      (drained-IsDrained o clocks (end_pump o now (schedule_event_window o now s)).1
        (end_pump-IsDrained o now s over))

-- Once the pump runs and nothing new comes, it stops: as many ends of jobs as there are jobs and
-- events that wait, and one more, leave it stopped, with every user's job started, as long as a
-- batch may hold an event.
pub drained_lem :
    (o : Options) (clocks : List ℕ) (s : Scheduler)
    → 1 ≤ o.max_batch_events
    → s.running ≡ true
    → waiting s < length clocks
    → IsDrained (drained o clocks s)
unfolding run
drained_lem o [] s h on few = absurd (omega (arith, few))
drained_lem o (now ∷ clocks) s h on few = elim (round o now s) [
  | goes_on job e p ↦
      let less : waiting (next_job o now s).1 < waiting s =
        next_job_shrinks o now s job h (ap (λ q. q.0) e) in
      rw (drained_cons o now clocks s (next_job o now s) (resume_running o now s on ∙ p 0)) (
        drained_lem o clocks (next_job o now s).1 h (next_job-running o now s ∙ on)
          (omega (arith, less, few)))
  | ends over p ↦ drained_ends o now clocks s on over (p 0)
]
