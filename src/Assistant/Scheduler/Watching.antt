-- ===== src/Assistant/Scheduler/Watching.antt =====
-- src/assistant/scheduler.ts: that nothing waits where no job runs, whatever the scheduler's flag says.
use qiyan_bot.Prelude.{
  ℕ, ◌+◌, ◌-◌, ◌≤◌, ltb, ◌≡◌, Bool, true, false, ◌||◌, Option, List, [], ◌∷◌, is_some,
  if◌then◌else◌,
}
use qiyan_bot.Assistant.Scheduler.Jobs.{Options, Scheduler, AssistantJob, is_empty}
use qiyan_bot.Assistant.Scheduler.{
  Call, enqueues_user, enqueues_event, period_completes, waits, timer_fires, job_done, commits,
  step,
}
use qiyan_bot.Assistant.Scheduler.Wakefulness.{is_awake}

-- With the scheduler, the jobs that `execute` was given and whose promises have not settled; no flag
-- of the scheduler tells it.
pub record Watch : Type 0 where
  pub scheduler : Scheduler
  pub jobs : ℕ

abbrev pub one_if : Bool → ℕ
one_if true = 1
one_if false = 0

abbrev after : ℕ → Option AssistantJob × Scheduler → Watch
after jobs done = record { scheduler = done.1; jobs = jobs + one_if (is_some done.0) }

-- a job can be done only where one runs
abbrev pub watch : Options → ℕ → Call → Watch → Watch
watch o now job_done w =
    if ltb 0 w.jobs then after (w.jobs - 1) (step o now job_done w.scheduler) else w
watch o now (enqueues_user job) w = after w.jobs (step o now (enqueues_user job) w.scheduler)
watch o now (enqueues_event job) w = after w.jobs (step o now (enqueues_event job) w.scheduler)
watch o now period_completes w = after w.jobs (step o now period_completes w.scheduler)
watch o now waits w = after w.jobs (step o now waits w.scheduler)
watch o now timer_fires w = after w.jobs (step o now timer_fires w.scheduler)
watch o now (commits b ids) w = after w.jobs (step o now (commits b ids) w.scheduler)

unfoldable pub watch_all : Options → List (ℕ × Call) → Watch → Watch
watch_all o [] w = w
watch_all o ((now, call) ∷ calls) w = watch_all o calls (watch o now call w)

-- at most one job runs, and where none does nothing waits without a timer
pub record IsAwake (w : Watch) : Type 0 where
  pub single : w.jobs ≤ 1
  pub served : w.jobs ≡ 0 → w.scheduler.users ≡ []
  pub timed : w.jobs ≡ 0 → (is_empty w.scheduler.events || is_some w.scheduler.event_timer) ≡ true

-- with the flag that the scheduler keeps of it
record IsSound (w : Watch) : Type 0 where
  flag : w.jobs ≡ one_if w.scheduler.running
  awake : is_awake w.scheduler ≡ true

-- a call that may start a job: the flag tells of those that ran before and of this one
abbrev Counts : Scheduler → Option AssistantJob × Scheduler → Type 0
Counts s done = one_if s.running + one_if (is_some done.0) ≡ one_if done.1.running
