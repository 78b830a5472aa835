-- ===== src/Assistant/Scheduler/Rounds.antt =====
-- src/assistant/scheduler.ts: one round of the pump, and that its `finally` never starts it again
-- on the same reading of the clock.
use qiyan_bot.Prelude.{
  ℕ, suc, ◌≡◌, refl, ap, sym, ◌∙◌, false, Option, none, some, List, [], ◌∷◌, arith, inl, inr,
  Bool-cases, Option-cases,
}
use qiyan_bot.Assistant.Scheduler.Jobs.{Options, Scheduler, AssistantJob, UserJob}
use qiyan_bot.Assistant.Scheduler.Pump.{
  next_user, next_job, pumped, pump, end_pump, should_service_events, schedule_event_window,
}

next_user_ends :
    (o : Options) (now : ℕ) (us : List UserJob) (s : Scheduler)
    → (next_user o now us s).0 ≡ none
    → (us ≡ []) × ((next_user o now us s).1 ≡ schedule_event_window o now s)
unfolding next_user
next_user_ends o now [] s h = (refl, refl)
next_user_ends o now (u ∷ us) s h = absurd (ground arith)

-- When the loop is left, no user's job waits and no event is due.
pub record IsOver (o : Options) (now : ℕ) (s : Scheduler) : Type 0 where
  pub no_users : s.users ≡ []
  pub not_due : should_service_events o now s ≡ false
  pub left : (next_job o now s).1 ≡ schedule_event_window o now s

pub next_job-IsOver :
    (o : Options) (now : ℕ) (s : Scheduler) → (next_job o now s).0 ≡ none → IsOver o now s
unfolding next_job
next_job-IsOver o now s h = elim (Bool-cases (should_service_events o now s)) [
  | inl due ↦ absurd (ground (arith, due, h))
  | inr quiet ↦
      let ends : (s.users ≡ []) × ((next_user o now s.users s).1 ≡ schedule_event_window o now s) =
        next_user_ends o now s.users s (ground (arith, quiet, h)) in
      record { no_users = ends.0; not_due = quiet; left = ground (arith, quiet, ends.1) }
]

-- how `pump` comes to its next await, or to its end
pub data Round (o : Options) (now : ℕ) (s : Scheduler) : Type 0 where
  goes_on :
      (job : AssistantJob)
      → next_job o now s ≡ (some job, (next_job o now s).1)
      → ((f : ℕ) → pump o (suc f) now s ≡ next_job o now s)
      → Round o now s
  ends :
      IsOver o now s
      → ((f : ℕ)
          → pump o (suc f) now s ≡ (none, (end_pump o now (schedule_event_window o now s)).1))
      → Round o now s

end_pump_quiet :
    (o : Options) (now : ℕ) (s : Scheduler)
    → IsOver o now s
    → (end_pump o now (schedule_event_window o now s)).0 ≡ false
unfolding end_pump schedule_event_window should_service_events
end_pump_quiet o now s v = rw (v.no_users) (ground (arith, v.not_due))

pumped-some :
    (o : Options) (now : ℕ) (again : Scheduler → Option AssistantJob × Scheduler)
    (p : Option AssistantJob × Scheduler) (job : AssistantJob)
    → p.0 ≡ some job
    → pumped o now again p ≡ p
unfolding pumped
pumped-some o now again (some j, s) job h = refl
pumped-some o now again (none, s) job h = absurd (ground arith)

pumped-none :
    (o : Options) (now : ℕ) (again : Scheduler → Option AssistantJob × Scheduler)
    (p : Option AssistantJob × Scheduler)
    → p.0 ≡ none
    → (end_pump o now p.1).0 ≡ false
    → pumped o now again p ≡ (none, (end_pump o now p.1).1)
unfolding pumped
pumped-none o now again (some j, s) h q = absurd (ground arith)
pumped-none o now again (none, s) h q = rw q refl

pub round : (o : Options) (now : ℕ) (s : Scheduler) → Round o now s
unfolding pump
round o now s = elim (Option-cases (next_job o now s).0) [
  | inl none_ ↦
      let over : IsOver o now s = next_job-IsOver o now s none_ in
      ends over (λ f.
        pumped-none o now (pump o f now) (next_job o now s) none_
          (ap (λ s'. (end_pump o now s').0) (over.left) ∙ end_pump_quiet o now s over)
        ∙ ap (λ s'. (none, (end_pump o now s').1)) (over.left))
  | inr (job, some_) ↦
      goes_on job (ap (λ x. (x, (next_job o now s).1)) some_)
        (λ f. pumped-some o now (pump o f now) (next_job o now s) job some_)
]

-- However often its `finally` may start it again, the pump does what it does with one start: at one
-- reading of the clock it hands over a job or it ends.
pub pump_once :
    (o : Options) (now : ℕ) (s : Scheduler) (f : ℕ) → pump o (suc f) now s ≡ pump o 1 now s
pump_once o now s f = elim (round o now s) [
  | goes_on job e p ↦ p f ∙ sym (p 0)
  | ends over p ↦ p f ∙ sym (p 0)
]
