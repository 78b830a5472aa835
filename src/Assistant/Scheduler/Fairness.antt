-- ===== src/Assistant/Scheduler/Fairness.antt =====
-- src/assistant/scheduler.ts: that users' jobs do not keep an event from its turn.
use qiyan_bot.Prelude.{
  ℕ, suc, ◌+◌, ◌<◌, ◌≡◌, refl, ap, ◌∙◌, Bool, true, false, some, List, [], ◌∷◌, ◌||◌, arith, inl,
  inr, ◌⊎◌, Bool-cases, length,
}
use qiyan_bot.Assistant.Scheduler.Jobs.{
  Options, Scheduler, AssistantJob, user, batch, QueuedEvent, UserJob, is_empty,
}
use qiyan_bot.Assistant.Scheduler.Pump.{
  is_due, next_user, next_job, should_service_events, batch_job,
}
use qiyan_bot.Assistant.Scheduler.{resume, step, run, started}
use qiyan_bot.Assistant.Scheduler.Rounds.{goes_on, ends, round}
use qiyan_bot.Assistant.Scheduler.Drain.{
  IsDrained, drained, finished, drained_cons, resume_running, drained_ends, next_job-running,
}

abbrev pub is_batch : AssistantJob → Bool
is_batch (user job) = false
is_batch (batch id es ps) = true

-- whether a batch is among the jobs that these readings of the clock start
abbrev pub any_batch : List AssistantJob → Bool
any_batch [] = false
any_batch (job ∷ jobs) = is_batch job || any_batch jobs

-- a user's job is started only while fewer than five have been in a row, and leaves the events alone
record IsUserTurn (s s' : Scheduler) : Type 0 where
  pub same_events : s'.events ≡ s.events
  pub counted : s'.consecutive_users ≡ suc s.consecutive_users

user_turn :
    (o : Options) (now : ℕ) (us : List UserJob) (s : Scheduler) (job : AssistantJob)
    → (next_user o now us s).0 ≡ some job
    → IsUserTurn s (next_user o now us s).1
unfolding next_user
user_turn o now [] s job h = absurd (ground arith)
user_turn o now (u ∷ us) s job h = record { same_events = refl; counted = refl }

turn :
    (o : Options) (now : ℕ) (s : Scheduler) (job : AssistantJob)
    → (next_job o now s).0 ≡ some job
    → (is_batch job ≡ true)
      ⊎ (IsUserTurn s (next_job o now s).1 × (should_service_events o now s ≡ false))
unfolding next_job batch_job
turn o now s job h = elim (Bool-cases (should_service_events o now s)) [
  | inl due ↦ inl (ground (arith, due, h))
  | inr quiet ↦
      let picked : (next_user o now s.users s).0 ≡ some job = ground (arith, quiet, h) in
      inr (rw quiet (user_turn o now s.users s job picked), quiet)
]

due_at_five :
    (o : Options) (now : ℕ) (es : List QueuedEvent) (s : Scheduler)
    → is_empty es ≡ false
    → is_due o now s es ≡ false
    → s.consecutive_users < 5
unfolding is_due
due_at_five o now [] s h d = absurd (ground arith)
due_at_five o now (e ∷ es) s h d = ground (arith, d)

started_batch :
    (job : AssistantJob) (done : List AssistantJob × Scheduler)
    → any_batch (started (some job) done).0 ≡ (is_batch job || any_batch done.0)
unfolding started
started_batch job done = refl

abbrev jobs_of : Options → List ℕ → Scheduler → List AssistantJob
jobs_of o clocks s = (run o (finished clocks) s).0

jobs_cons :
    (o : Options) (now : ℕ) (clocks : List ℕ) (s s' : Scheduler) (job : AssistantJob)
    → resume o now s ≡ (some job, s')
    → any_batch (jobs_of o (now ∷ clocks) s) ≡ (is_batch job || any_batch (jobs_of o clocks s'))
unfolding run step started
jobs_cons o now clocks s s' job e =
    ap (λ p. any_batch (started p.0 (run o (finished clocks) p.1)).0) e

-- While an event waits and the pump runs, let c be the number of users' jobs that were started in a
-- row already. Among the jobs that the next 6 - c ends of a job start (the next one, where c is five
-- or more) is a batch, or the pump has stopped by then with no user's job left.
pub not_starved :
    (o : Options) (clocks : List ℕ) (s : Scheduler)
    → is_empty s.events ≡ false
    → s.running ≡ true
    → 5 < s.consecutive_users + length clocks
    → 0 < length clocks
    → (any_batch (run o (finished clocks) s).0 ≡ true) ⊎ IsDrained (drained o clocks s)
unfolding should_service_events
not_starved o [] s w on few c = absurd (omega (arith, c))
not_starved o (now ∷ clocks) s w on few c = elim (round o now s) [
  | goes_on job e p ↦
      let cons : any_batch (jobs_of o (now ∷ clocks) s)
          ≡ (is_batch job || any_batch (jobs_of o clocks (next_job o now s).1)) =
        jobs_cons o now clocks s (next_job o now s).1 job (resume_running o now s on ∙ p 0 ∙ e) in
      elim (turn o now s job (ap (λ q. q.0) e)) [
        | inl it ↦ inl (ground (arith, cons, it))
        | inr (u, quiet) ↦
            let s' : Scheduler = (next_job o now s).1 in
            let below : s.consecutive_users < 5 = due_at_five o now s.events s w quiet in
            let rest : (any_batch (jobs_of o clocks s') ≡ true) ⊎ IsDrained (drained o clocks s') =
              not_starved o clocks s' (ap is_empty (u.same_events) ∙ w)
                (next_job-running o now s ∙ on) (omega (arith, u.counted, few))
                (omega (arith, u.counted, below, few)) in
            elim rest [
              | inl later ↦ inl (ground (arith, cons, later))
              | inr done ↦ inr (
                  rw
                    (drained_cons o now clocks s (next_job o now s)
                      (resume_running o now s on ∙ p 0))
                    done)
            ]
      ]
  | ends over p ↦ inr (drained_ends o now clocks s on over (p 0))
]
