-- ===== src/Assistant/Scheduler/Batches.antt =====
-- src/assistant/scheduler.ts: what a batch of events holds, and that both ways to take one agree.
use qiyan_bot.Core.{ok}
use qiyan_bot.Prelude.{
  ℕ, suc, ◌+◌, ◌≤◌, ◌≡◌, refl, ap, sym, ◌∙◌, String, true, some, List, [], ◌∷◌, ◌++◌, map, arith,
  inl, inr, Bool-cases, ltb, leb, length, drop, eq_refl, ◌⊎◌,
}
use qiyan_bot.Assistant.Scheduler.Jobs.{
  Options, Scheduler, QueuedEvent, EventJob, EligibleEventBatch, job_of, id_of, size_of, is_full,
  take_loop, peek_loop, peek_event_jobs, delete_id,
}
use qiyan_bot.Assistant.Scheduler.Pump.{take_event_batch, schedule_event_window, cancel_event_timer}
use qiyan_bot.Assistant.Scheduler.{
  delete_ids, same_ids, peek_first, peek_eligible_event_batch, commit_event_batch, commit_candidate,
}

-- the bytes of a batch
abbrev pub total : Options → List EventJob → ℕ
total o [] = 0
total o (job ∷ jobs) = size_of o job + total o jobs

pub take_loop-peek_loop :
    (o : Options) (n b : ℕ) (es : List QueuedEvent) (ids : List String)
    → (take_loop o n b es ids).0 ≡ peek_loop o n b es
unfolding take_loop peek_loop
take_loop-peek_loop o n b [] ids = refl
take_loop-peek_loop o n b (e ∷ es) ids = elim (Bool-cases (is_full o n b e.job)) [
  | inl full ↦ rw full refl
  | inr room ↦ rw room (
      ap (λ jobs. e.job ∷ jobs)
        (take_loop-peek_loop o (suc n) (b + size_of o e.job) es (delete_id e.job.id ids)))
]

pub take_loop-drop :
    (o : Options) (n b : ℕ) (es : List QueuedEvent) (ids : List String)
    → (take_loop o n b es ids).1 ≡ drop (length (peek_loop o n b es)) es
unfolding take_loop peek_loop
take_loop-drop o n b [] ids = refl
take_loop-drop o n b (e ∷ es) ids = elim (Bool-cases (is_full o n b e.job)) [
  | inl full ↦ rw full refl
  | inr room ↦ rw room (take_loop-drop o (suc n) (b + size_of o e.job) es (delete_id e.job.id ids))
]

pub take_loop-delete_ids :
    (o : Options) (n b : ℕ) (es : List QueuedEvent) (ids : List String)
    → (take_loop o n b es ids).2 ≡ delete_ids (map id_of (peek_loop o n b es)) ids
unfolding take_loop peek_loop delete_ids
take_loop-delete_ids o n b [] ids = refl
take_loop-delete_ids o n b (e ∷ es) ids = elim (Bool-cases (is_full o n b e.job)) [
  | inl full ↦ rw full refl
  | inr room ↦
      rw room (take_loop-delete_ids o (suc n) (b + size_of o e.job) es (delete_id e.job.id ids))
]

-- the events that are taken and those that stay are the events, in order
pub take_loop-append :
    (o : Options) (n b : ℕ) (es : List QueuedEvent) (ids : List String)
    → (take_loop o n b es ids).0 ++ map job_of (take_loop o n b es ids).1 ≡ map job_of es
unfolding take_loop
take_loop-append o n b [] ids = refl
take_loop-append o n b (e ∷ es) ids = elim (Bool-cases (is_full o n b e.job)) [
  | inl full ↦ rw full refl
  | inr room ↦ rw room (
      ap (λ jobs. e.job ∷ jobs)
        (take_loop-append o (suc n) (b + size_of o e.job) es (delete_id e.job.id ids)))
]

peek_loop-length :
    (o : Options) (n b : ℕ) (es : List QueuedEvent)
    → n ≤ o.max_batch_events
    → n + length (peek_loop o n b es) ≤ o.max_batch_events
unfolding peek_loop is_full
peek_loop-length o n b [] h = ground (arith, h)
peek_loop-length o n b (e ∷ es) h = elim (Bool-cases (leb o.max_batch_events n)) [
  | inl full ↦ rw full (omega (arith, h))
  | inr room ↦
      ground
        (arith, h, room, peek_loop-length o (suc n) (b + size_of o e.job) es (ground (arith, room)))
]

-- a batch that holds an event already stays as small as it was, or within the limit
peek_loop-total :
    (o : Options) (n b : ℕ) (es : List QueuedEvent)
    → 1 ≤ n
    → (total o (peek_loop o n b es) ≡ 0) ⊎ (b + total o (peek_loop o n b es) ≤ o.max_batch_bytes)
unfolding peek_loop is_full
peek_loop-total o n b [] h = inl refl
peek_loop-total o n b (e ∷ es) h =
    ground (arith, h, peek_loop-total o (suc n) (b + size_of o e.job) es (omega (arith, h)))

pub record IsBatch (o : Options) (jobs : List EventJob) : Type 0 where
  pub few : length jobs ≤ o.max_batch_events
  pub small : (length jobs ≤ 1) ⊎ (total o jobs ≤ o.max_batch_bytes)

total_none :
    (o : Options) (n b : ℕ) (es : List QueuedEvent)
    → 1 ≤ n
    → ltb o.max_batch_bytes b ≡ true
    → length (peek_loop o n b es) ≡ 0
unfolding peek_loop is_full
total_none o n b [] h l = refl
total_none o n b (e ∷ es) h l = ground (arith, h, l)

first_total :
    (o : Options) (e : QueuedEvent) (es : List QueuedEvent) (b : ℕ)
    → b ≡ size_of o e.job
    → (suc (length (peek_loop o 1 b es)) ≤ 1)
      ⊎ (size_of o e.job + total o (peek_loop o 1 b es) ≤ o.max_batch_bytes)
first_total o e es b h = elim (Bool-cases (ltb o.max_batch_bytes b)) [
  | inl large ↦ inl (omega (arith, total_none o 1 b es (omega arith) large))
  | inr fits ↦ ground (arith, h, fits, peek_loop-total o 1 b es (omega arith))
]

peek_loop-IsBatch : (o : Options) (es : List QueuedEvent) → IsBatch o (peek_loop o 0 0 es)
unfolding peek_loop is_full
peek_loop-IsBatch o [] = record { few = omega arith; small = inl (omega arith) }
peek_loop-IsBatch o (e ∷ es) = elim (Bool-cases (leb o.max_batch_events 0)) [
  | inl full ↦ rw full (record { few = omega arith; small = inl (omega arith) })
  | inr room ↦ rw room (record {
    few =
        ground (arith, room, peek_loop-length o 1 (0 + size_of o e.job) es (ground (arith, room)));
    small = first_total o e es (0 + size_of o e.job) (omega arith);
  })
]

same_ids_refl : (ids : List String) → same_ids ids ids ≡ true
unfolding same_ids
same_ids_refl [] = refl
same_ids_refl (x ∷ xs) = ground (arith, eq_refl x, same_ids_refl xs)

peeked_ids :
    (o : Options) (now : ℕ) (es : List QueuedEvent) (s : Scheduler) (c : EligibleEventBatch)
    → peek_first o now es s ≡ some c
    → c.event_ids ≡ map id_of (peek_event_jobs o s)
unfolding peek_first
peeked_ids o now [] s c h = ground arith
peeked_ids o now (first ∷ es) s c h = ground (arith, h)

length-map : {A B : Type 0} (f : A → B) (xs : List A) → length (map f xs) ≡ length xs
length-map f [] = refl
length-map f (x ∷ xs) = omega (arith, length-map f xs)

pub candidate_events :
    (o : Options) (now : ℕ) (s : Scheduler) (c : EligibleEventBatch)
    → peek_eligible_event_batch o now s ≡ some c
    → drop (length c.event_ids) s.events ≡ (take_loop o 0 0 s.events s.event_ids).1
unfolding peek_eligible_event_batch peek_event_jobs
candidate_events o now s c h =
    ap (λ ids. drop (length ids) s.events) (peeked_ids o now s.events s c h)
    ∙ ap (λ n. drop n s.events) (length-map id_of (peek_loop o 0 0 s.events))
    ∙ sym (take_loop-drop o 0 0 s.events s.event_ids)

pub candidate_ids :
    (o : Options) (now : ℕ) (s : Scheduler) (c : EligibleEventBatch)
    → peek_eligible_event_batch o now s ≡ some c
    → delete_ids c.event_ids s.event_ids ≡ (take_loop o 0 0 s.events s.event_ids).2
unfolding peek_eligible_event_batch peek_event_jobs
candidate_ids o now s c h =
    ap (λ ids. delete_ids ids s.event_ids) (peeked_ids o now s.events s c h)
    ∙ sym (take_loop-delete_ids o 0 0 s.events s.event_ids)

-- The candidate that is shown, whatever it is, is committed, and what remains is what the pump
-- would have left by taking its own batch: the two ways to take events agree.
pub commit-peek :
    (o : Options) (now : ℕ) (s : Scheduler) (c : EligibleEventBatch)
    → peek_eligible_event_batch o now s ≡ some c
    → commit_event_batch o now c.batch_id c.event_ids s ≡ (
      ok tt,
      record s {
        events = (take_event_batch o now s).1.events;
        event_ids = (take_event_batch o now s).1.event_ids;
        completed_conversation_periods = 0;
      },
    )
unfolding commit_event_batch commit_candidate take_event_batch peek_event_jobs schedule_event_window
    cancel_event_timer peek_eligible_event_batch
commit-peek o now s c h =
    rw
      (
        h,
        eq_refl c.batch_id,
        same_ids_refl c.event_ids,
        candidate_events o now s c h,
        candidate_ids o now s c h,
      )
      refl

-- A batch that the pump takes holds the events that `peekEligibleEventBatch` would show, within both
-- limits, except that an event that is too large by itself goes alone; those that stay are the
-- others, in order.
pub take-peek :
    (o : Options) (now : ℕ) (s : Scheduler)
    → ((take_event_batch o now s).0 ≡ peek_event_jobs o s)
      × IsBatch o (take_event_batch o now s).0
      × ((take_event_batch o now s).0 ++ map job_of (take_event_batch o now s).1.events
          ≡ map job_of s.events)
unfolding take_event_batch schedule_event_window cancel_event_timer peek_event_jobs
take-peek o now s = (
  take_loop-peek_loop o 0 0 s.events s.event_ids,
  rw (take_loop-peek_loop o 0 0 s.events s.event_ids) (peek_loop-IsBatch o s.events),
  take_loop-append o 0 0 s.events s.event_ids,
)
