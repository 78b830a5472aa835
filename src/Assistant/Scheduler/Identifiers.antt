-- ===== src/Assistant/Scheduler/Identifiers.antt =====
-- src/assistant/scheduler.ts: the set of identifiers is that of the queue's events, each once.
use qiyan_bot.Prelude.{
  ℕ, ◌≡◌, refl, Bool, true, false, ◌||◌, ◌&&◌, ◌⊎◌, Option, none, some, List, [], ◌∷◌, ◌++◌, arith,
  inl, inr, Bool-cases, Option-cases, leb, String, is_some, or_else, if◌then◌else◌, str_eq, eq_iff,
  any, not,
}
use qiyan_bot.Assistant.Scheduler.Jobs.{
  Options, Scheduler, AssistantJob, EventJob, QueuedEvent, UserJob, is_empty, add_id, delete_id,
  is_transient, new,
}
use qiyan_bot.Assistant.Scheduler.Pump.{
  next_user, next_job, pump, end_pump, should_service_events, schedule_event_window, kick,
  take_event_batch, cancel_event_timer,
}
use qiyan_bot.Assistant.Scheduler.{
  Call, enqueues_user, enqueues_event, period_completes, waits, timer_fires, job_done, commits,
  resume, enqueue_user, enqueue_event, place_event, append_event, coalesce_event, fire_timer, idle,
  commit_event_batch, commit_candidate, note_conversation_period_completed,
  peek_eligible_event_batch, replace_event, find_event, same_ids, step, run,
}
use qiyan_bot.Assistant.Scheduler.Rounds.{goes_on, ends, round}
use qiyan_bot.Assistant.Scheduler.Batches.{candidate_events, candidate_ids}
use qiyan_bot.Assistant.Scheduler.Drain.{started_state}
use qiyan_bot.Assistant.Scheduler.Sets.{
  Agree, IsConsistent, append-Agree, coalesce-Agree, take_loop-Agree,
}

next_user_keeps :
    (o : Options) (now : ℕ) (us : List UserJob) (s : Scheduler)
    → IsConsistent s
    → IsConsistent (next_user o now us s).1
unfolding IsConsistent next_user schedule_event_window
next_user_keeps o now [] s v = v
next_user_keeps o now (u ∷ us) s v = v

next_job-IsConsistent :
    (o : Options) (now : ℕ) (s : Scheduler) → IsConsistent s → IsConsistent (next_job o now s).1
unfolding IsConsistent next_job take_event_batch schedule_event_window cancel_event_timer
next_job-IsConsistent o now s v = elim (Bool-cases (should_service_events o now s)) [
  | inl due ↦ rw due (take_loop-Agree o 0 0 s.events s.event_ids v)
  | inr quiet ↦ rw quiet (next_user_keeps o now s.users s v)
]

end_pump-IsConsistent :
    (o : Options) (now : ℕ) (s : Scheduler)
    → IsConsistent s
    → IsConsistent (end_pump o now (schedule_event_window o now s)).1
unfolding IsConsistent end_pump schedule_event_window cancel_event_timer
end_pump-IsConsistent o now s v = elim (Bool-cases (is_empty s.users && is_empty s.events)) [
  | inl e ↦ rw e v
  | inr e ↦ rw e v
]

pump-IsConsistent :
    (o : Options) (now : ℕ) (s : Scheduler) → IsConsistent s → IsConsistent (pump o 1 now s).1
pump-IsConsistent o now s v = elim (round o now s) [
  | goes_on job e p ↦ rw (p 0) (next_job-IsConsistent o now s v)
  | ends over p ↦ rw (p 0) (end_pump-IsConsistent o now s v)
]

kick-IsConsistent :
    (o : Options) (now : ℕ) (s : Scheduler) → IsConsistent s → IsConsistent (kick o now s).1
unfolding kick IsConsistent
kick-IsConsistent o now s v = elim (Bool-cases s.running) [
  | inl on ↦ ground (arith, on, v)
  | inr off ↦ rw off (pump-IsConsistent o now (record s { running = true }) v)
]

if-IsConsistent :
    (b : Bool) (p q : Option AssistantJob × Scheduler)
    → IsConsistent p.1
    → IsConsistent q.1
    → IsConsistent (if b then p else q).1
if-IsConsistent true p q h k = h
if-IsConsistent false p q h k = k

append_event-IsConsistent :
    (o : Options) (now : ℕ) (job : EventJob) (s : Scheduler)
    → any (λ x. str_eq x job.id) s.event_ids ≡ false
    → IsConsistent s
    → IsConsistent (append_event o now job s).1
unfolding append_event schedule_event_window IsConsistent
append_event-IsConsistent o now job s h v =
    let e : QueuedEvent = record { job = job; queued_at = or_else job.queued_at now } in
    let v' : Agree (s.events ++ e ∷ []) (add_id job.id s.event_ids) =
      append-Agree e s.events s.event_ids h v in
    let s' : Scheduler = record s {
      events = s.events ++ e ∷ [];
      event_ids = add_id job.id s.event_ids;
    } in
    let s'' : Scheduler = schedule_event_window o now s' in
    if-IsConsistent o.executes
      (if not (is_empty s.users) || leb 5 s.consecutive_users then kick o now s'' else (none, s''))
      (none, s')
      (if-IsConsistent (not (is_empty s.users) || leb 5 s.consecutive_users) (kick o now s'')
        (none, s'') (kick-IsConsistent o now s'' v') v')
      v'

place_event-IsConsistent :
    (o : Options) (now : ℕ) (job : EventJob) (s : Scheduler) (found : Option QueuedEvent)
    → (found ≡ none) ⊎ (found ≡ find_event job s.events)
    → any (λ x. str_eq x job.id) s.event_ids ≡ false
    → IsConsistent s
    → IsConsistent (place_event o now job found s).1
unfolding place_event coalesce_event schedule_event_window IsConsistent
place_event-IsConsistent o now job s none f h v = append_event-IsConsistent o now job s h v
place_event-IsConsistent o now job s (some old) f h v =
    let found : find_event job s.events ≡ some old = ground (arith, f) in
    let v' : Agree (replace_event job s.events) (add_id job.id (delete_id old.job.id s.event_ids)) =
      coalesce-Agree job old s.events s.event_ids found h v in
    elim (Bool-cases o.executes) [ inr x ↦ rw x v' | inl x ↦ rw x v' ]

enqueue_event-IsConsistent :
    (o : Options) (now : ℕ) (job : EventJob) (s : Scheduler)
    → IsConsistent s
    → IsConsistent (enqueue_event o now job s).1
unfolding enqueue_event
enqueue_event-IsConsistent o now job s v =
    elim (Bool-cases (any (λ x. str_eq x job.id) s.event_ids)) [
      | inl known ↦ rw known v
      | inr fresh ↦ rw fresh (
          place_event-IsConsistent o now job s
            (if is_transient job then find_event job s.events else none) (ground arith) fresh v)
    ]

same_ids_eq : (xs ys : List String) → same_ids xs ys ≡ true → xs ≡ ys
unfolding same_ids
same_ids_eq [] [] h = refl
same_ids_eq [] (y ∷ ys) h = absurd (ground (arith, h))
same_ids_eq (x ∷ xs) [] h = absurd (ground (arith, h))
same_ids_eq (x ∷ xs) (y ∷ ys) h =
    ground (arith, h, eq_iff x y, same_ids_eq xs ys (ground (arith, h)))

-- A commit that is accepted is that of the candidate.
commit-IsConsistent :
    (o : Options) (now : ℕ) (b : String) (ids : List String) (s : Scheduler)
    → IsConsistent s
    → IsConsistent (commit_event_batch o now b ids s).1
unfolding commit_event_batch commit_candidate IsConsistent
commit-IsConsistent o now b ids s v = elim (Option-cases (peek_eligible_event_batch o now s)) [
  | inl gone ↦ rw gone v
  | inr (c, here) ↦ elim (Bool-cases (str_eq c.batch_id b && same_ids c.event_ids ids)) [
    | inr stale ↦ rw (here, stale) v
    | inl agreed ↦
        let ids_eq : c.event_ids ≡ ids = same_ids_eq c.event_ids ids (ground (arith, agreed)) in
        rw (here, agreed)
          (rw⁻¹ ids_eq (
            rw (candidate_events o now s c here, candidate_ids o now s c here)
              (take_loop-Agree o 0 0 s.events s.event_ids v)))
  ]
]

step-IsConsistent :
    (o : Options) (now : ℕ) (call : Call) (s : Scheduler)
    → IsConsistent s
    → IsConsistent (step o now call s).1
unfolding step enqueue_user note_conversation_period_completed idle fire_timer resume
    cancel_event_timer IsConsistent
step-IsConsistent o now (enqueues_user job) s v =
    let s' : Scheduler = record s { users = s.users ++ job ∷ [] } in
    if-IsConsistent o.executes (kick o now s') (none, s') (kick-IsConsistent o now s' v) v
step-IsConsistent o now (enqueues_event job) s v = enqueue_event-IsConsistent o now job s v
step-IsConsistent o now period_completes s v = v
step-IsConsistent o now waits s v =
    elim (Bool-cases (not s.running && is_empty s.users && is_empty s.events)) [
      | inl e ↦ rw e v
      | inr e ↦ rw e v
    ]
step-IsConsistent o now timer_fires s v =
    let s' : Scheduler = record s { event_timer = none } in
    if-IsConsistent (is_some s.event_timer) (kick o now s') (none, s) (kick-IsConsistent o now s' v)
      v
step-IsConsistent o now job_done s v =
    if-IsConsistent s.running (pump o 1 now s) (none, s) (pump-IsConsistent o now s v) v
step-IsConsistent o now (commits b ids) s v = commit-IsConsistent o now b ids s v

run_keeps :
    (o : Options) (calls : List (ℕ × Call)) (s : Scheduler)
    → IsConsistent s
    → IsConsistent (run o calls s).1
unfolding run
run_keeps o [] s v = v
run_keeps o ((now, call) ∷ calls) s v =
    rw (started_state (step o now call s).0 (run o calls (step o now call s).1))
      (run_keeps o calls (step o now call s).1 (step-IsConsistent o now call s v))

-- From a new scheduler on, after any calls in any order, the set of identifiers is that of the
-- events in the queue, and no identifier stands there twice.
pub run-new-IsConsistent :
    (o : Options) (calls : List (ℕ × Call)) → IsConsistent (run o calls new).1
unfolding IsConsistent new
run-new-IsConsistent o calls =
    run_keeps o calls new (record { same = λ id. refl; once = λ id. omega arith })
