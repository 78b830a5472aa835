-- ===== src/Assistant/Scheduler/Sets.antt =====
-- src/assistant/scheduler.ts: the queue and the set of identifiers, which change together.
use qiyan_bot.Prelude.{
  ℕ, suc, ◌+◌, ◌≤◌, ◌≡◌, refl, false, some, List, [], ◌∷◌, ◌++◌, arith, inl, inr, Bool-cases,
  String, if◌then◌else◌, str_eq, eq_iff, eq_refl, count, any, count-append,
}
use qiyan_bot.Assistant.Scheduler.Jobs.{
  Options, Scheduler, EventJob, QueuedEvent, is_full, add_id, delete_id, take_loop, size_of,
}
use qiyan_bot.Assistant.Scheduler.{replace_event, find_event, coalesces}

-- how often an identifier stands in the set, and in the queue
abbrev pub in_set : String → List String → ℕ
in_set id ids = count (λ x. str_eq x id) ids

abbrev pub in_queue : String → List QueuedEvent → ℕ
in_queue id es = count (λ e. str_eq e.job.id id) es

-- the queue and the set agree on every identifier, and none is there twice
pub record Agree (es : List QueuedEvent) (ids : List String) : Type 0 where
  pub same : (id : String) → in_set id ids ≡ in_queue id es
  pub once : (id : String) → in_queue id es ≤ 1

unfoldable pub IsConsistent : Scheduler → Type 0
IsConsistent s = Agree s.events s.event_ids

in_set-delete_id :
    (id x : String) (ids : List String)
    → in_set id (delete_id x ids) ≡ (if str_eq x id then 0 else in_set id ids)
unfolding delete_id
in_set-delete_id id x [] = ground arith
in_set-delete_id id x (y ∷ ys) =
    ground (arith, eq_iff y id, eq_iff x id, eq_iff y x, in_set-delete_id id x ys)

any_count :
    (id : String) (ids : List String) → any (λ x. str_eq x id) ids ≡ false → in_set id ids ≡ 0
any_count id [] h = refl
any_count id (y ∷ ys) h = ground (arith, h, any_count id ys)

any_none :
    (id : String) (ids : List String) → in_set id ids ≡ 0 → any (λ x. str_eq x id) ids ≡ false
any_none id [] h = refl
any_none id (y ∷ ys) h = ground (arith, h, any_none id ys)

in_set-add_id :
    (id x : String) (ids : List String)
    → in_set x ids ≡ 0
    → in_set id (add_id x ids) ≡ in_set id ids + (if str_eq x id then 1 else 0)
unfolding add_id
in_set-add_id id x ids h = rw (any_none x ids h) (count-append (λ y. str_eq y id) x ids)

-- a batch is taken from both
pub take_loop-Agree :
    (o : Options) (n b : ℕ) (es : List QueuedEvent) (ids : List String)
    → Agree es ids
    → Agree (take_loop o n b es ids).1 (take_loop o n b es ids).2
unfolding take_loop
take_loop-Agree o n b [] ids v = v
take_loop-Agree o n b (e ∷ es) ids v = elim (Bool-cases (is_full o n b e.job)) [
  | inl full ↦ rw full v
  | inr room ↦ rw room (
      take_loop-Agree o (suc n) (b + size_of o e.job) es (delete_id e.job.id ids) (record {
        same = λ id.
            ground
              (arith, eq_iff e.job.id id, v.same id, v.once id, in_set-delete_id id e.job.id ids);
        once = λ id. ground (arith, v.once id);
      }))
]

pub append-Agree :
    (e : QueuedEvent) (es : List QueuedEvent) (ids : List String)
    → any (λ x. str_eq x e.job.id) ids ≡ false
    → Agree es ids
    → Agree (es ++ e ∷ []) (add_id e.job.id ids)
append-Agree e es ids h v = record {
  same = λ id. ground (
    arith,
    v.same id,
    in_set-add_id id e.job.id ids (any_count e.job.id ids h),
    count-append (λ e. str_eq e.job.id id) e es,
  );
  once = λ id. ground (
    arith,
    eq_iff e.job.id id,
    v.same id,
    v.once id,
    any_count e.job.id ids h,
    count-append (λ e. str_eq e.job.id id) e es,
  );
}

in_queue-replace_event :
    (id : String) (job : EventJob) (old : QueuedEvent) (es : List QueuedEvent)
    → find_event job es ≡ some old
    → in_queue id (replace_event job es) + (if str_eq old.job.id id then 1 else 0)
      ≡ in_queue id es + (if str_eq job.id id then 1 else 0)
unfolding find_event replace_event
in_queue-replace_event id job old [] h = absurd (ground arith)
in_queue-replace_event id job old (e ∷ es) h = elim (Bool-cases (coalesces job e)) [
  | inl here ↦
      let is_old : some e ≡ some old = ground (arith, here, h) in rw here (ground (arith, is_old))
  | inr later ↦
      let rest : find_event job es ≡ some old = ground (arith, later, h) in
      rw later (ground (arith, in_queue-replace_event id job old es rest))
]

in_queue-find_event :
    (job : EventJob) (old : QueuedEvent) (es : List QueuedEvent)
    → find_event job es ≡ some old
    → 1 ≤ in_queue old.job.id es
unfolding find_event
in_queue-find_event job old [] h = absurd (ground arith)
in_queue-find_event job old (e ∷ es) h = elim (Bool-cases (coalesces job e)) [
  | inl here ↦
      let is_old : some e ≡ some old = ground (arith, here, h) in
      ground (arith, is_old, eq_refl old.job.id)
  | inr later ↦
      let rest : find_event job es ≡ some old = ground (arith, later, h) in
      ground (arith, in_queue-find_event job old es rest)
]

pub coalesce-Agree :
    (job : EventJob) (old : QueuedEvent) (es : List QueuedEvent) (ids : List String)
    → find_event job es ≡ some old
    → any (λ x. str_eq x job.id) ids ≡ false
    → Agree es ids
    → Agree (replace_event job es) (add_id job.id (delete_id old.job.id ids))
coalesce-Agree job old es ids f h v =
    let fresh : in_set job.id (delete_id old.job.id ids) ≡ 0 =
      ground (arith, in_set-delete_id job.id old.job.id ids, any_count job.id ids h) in
    record {
      same = λ id. ground (
        arith,
        eq_iff old.job.id id,
        v.same id,
        v.once id,
        in_set-add_id id job.id (delete_id old.job.id ids) fresh,
        in_set-delete_id id old.job.id ids,
        in_queue-replace_event id job old es f,
        in_queue-find_event job old es f,
      );
      once = λ id. ground (
        arith,
        eq_iff job.id id,
        eq_iff old.job.id id,
        v.same id,
        v.once id,
        any_count job.id ids h,
        in_queue-replace_event id job old es f,
      );
    }
