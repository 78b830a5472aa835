-- ===== src/Scheduling/Service/Recovery.antt =====
-- src/scheduling/scheduling-service.ts: the wakeups after a runtime restart.
use Prim.Native.String.{◌++◌ as str_append}
use qiyan_bot.Prelude.{
  ℕ, ◌≡◌, String, Bool, true, none, some, List, [], ◌∷◌, ◌++◌, arith, any, get, eq_iff,
}
use qiyan_bot.Scheduling.Schedules.{ScheduleRow, NewSchedule, wakeup, id_of, has_armed_spec, create}
use qiyan_bot.Scheduling.Service.{runtime_recovery_spec, enqueue_runtime_recovery}

any-append {ℓ} :
    {A : Type ℓ} (p : A → Bool) (x : A) (xs : List A) → p x ≡ true → any p (xs ++ x ∷ []) ≡ true
any-append p x [] h = ground arith
any-append p x (y ∷ xs) h = ground (arith, any-append p x xs h)

-- A schedule that `create` stores is armed under its session and its spec.
has_armed_spec-create :
    (id : String) (schedule : NewSchedule) (now : ℕ) (rows : List ScheduleRow)
    → get id_of id rows ≡ none
    → has_armed_spec schedule.endpoint_id schedule.thread_id schedule.spec
        (create id schedule now rows).1
      ≡ true
unfolding create has_armed_spec
has_armed_spec-create id schedule now rows h = rw h (
    any-append _ _ rows (
      ground (
        arith,
        eq_iff schedule.endpoint_id schedule.endpoint_id,
        eq_iff schedule.thread_id schedule.thread_id,
        eq_iff schedule.spec schedule.spec,
      )))

enqueue_armed :
    (id nickname endpoint_id thread_id mapping_id message : String) (now : ℕ)
    (rows : List ScheduleRow)
    → get id_of id rows ≡ none
    → has_armed_spec endpoint_id thread_id
        (str_append runtime_recovery_spec mapping_id)
        (enqueue_runtime_recovery id nickname endpoint_id thread_id mapping_id message now rows)
      ≡ true
unfolding enqueue_runtime_recovery
enqueue_armed id nickname endpoint_id thread_id mapping_id message now rows h = ground (
  arith,
  has_armed_spec-create id
      (record {
        nickname = nickname;
        endpoint_id = endpoint_id;
        thread_id = thread_id;
        kind = wakeup;
        spec = str_append runtime_recovery_spec mapping_id;
        message = message;
        next_fire_at = some now;
        interval_ms = none;
      })
      now rows h,
)

-- A session has at most one armed wakeup of its own for a mapping: after one was stored under an
-- unused identifier, further calls for the session and the mapping change nothing.
enqueue_twice :
    (id id' nickname nickname' endpoint_id thread_id mapping_id message message' : String)
    (now now' : ℕ) (rows : List ScheduleRow)
    → get id_of id rows ≡ none
    → enqueue_runtime_recovery id' nickname' endpoint_id thread_id mapping_id message' now'
        (enqueue_runtime_recovery id nickname endpoint_id thread_id mapping_id message now rows)
      ≡ enqueue_runtime_recovery id nickname endpoint_id thread_id mapping_id message now rows
enqueue_twice id id' nickname nickname' endpoint_id thread_id mapping_id message message' now now'
      rows h =
    armed_same id' nickname' endpoint_id thread_id mapping_id message' now' _
      (enqueue_armed id nickname endpoint_id thread_id mapping_id message now rows h)
  where
    armed_same :
        (i n e t m g : String) (at : ℕ) (rs : List ScheduleRow)
        → has_armed_spec e t (str_append runtime_recovery_spec m) rs ≡ true
        → enqueue_runtime_recovery i n e t m g at rs ≡ rs
    armed_same i n e t m g at rs k = unfold enqueue_runtime_recovery in ground arith
