-- ===== src/Scheduling/Schedules.antt =====
-- src/scheduling/schedule-store.ts: the table `session_schedules`. `randomUUID()` and the clock are
-- arguments. SQLite refuses an INSERT whose primary key is taken.
pub mod Due
use qiyan_bot.Core.{Result, ok, error}
use qiyan_bot.Prelude.{
  ℕ, String, str_eq, Bool, true, false, ◌&&◌, Option, none, some, List, [], ◌∷◌, ◌++◌,
  if◌then◌else◌, leb, keep, any, is_some, or_else, get, modify, changes, sort_by,
}

pub data ScheduleKind : Type 0 where
  wakeup cron monitor : ScheduleKind

pub data ScheduleState : Type 0 where
  armed done cancelled : ScheduleState

pub record ScheduleRow : Type 0 where
  pub id : String
  pub nickname : String
  pub endpoint_id : String
  pub thread_id : String
  pub kind : ScheduleKind
  pub spec : String
  pub message : String
  pub state : ScheduleState
  pub next_fire_at : Option ℕ
  pub interval_ms : Option ℕ
  pub created_at : ℕ

pub record NewSchedule : Type 0 where
  pub nickname : String
  pub endpoint_id : String
  pub thread_id : String
  pub kind : ScheduleKind
  pub spec : String
  pub message : String
  pub next_fire_at : Option ℕ
  pub interval_ms : Option ℕ

abbrev pub id_of : ScheduleRow → String
id_of r = r.id

abbrev pub is_armed : ScheduleState → Bool
is_armed armed = true
is_armed _ = false

unfoldable pub create :
    String → NewSchedule → ℕ → List ScheduleRow → Result ScheduleRow × List ScheduleRow
create id schedule now rows =
    if is_some (get id_of id rows) then (error, rows) else (ok row, rows ++ row ∷ [])
  where
    row : ScheduleRow
    row = record {
      id = id;
      nickname = schedule.nickname;
      endpoint_id = schedule.endpoint_id;
      thread_id = schedule.thread_id;
      kind = schedule.kind;
      spec = schedule.spec;
      message = schedule.message;
      state = armed;
      next_fire_at = schedule.next_fire_at;
      interval_ms = schedule.interval_ms;
      created_at = now;
    }

unfoldable pub list_armed : List ScheduleRow → List ScheduleRow
list_armed rows = sort_by (λ r. r.created_at) (keep (λ r. is_armed r.state) rows)

unfoldable pub list_for_session : String → String → List ScheduleRow → List ScheduleRow
list_for_session endpoint_id thread_id rows =
    sort_by (λ r. r.created_at)
      (keep
        (λ r. str_eq r.endpoint_id endpoint_id && str_eq r.thread_id thread_id && is_armed r.state)
        rows)

unfoldable pub has_armed_spec : String → String → String → List ScheduleRow → Bool
has_armed_spec endpoint_id thread_id spec = any (λ r.
    str_eq r.endpoint_id endpoint_id
    && str_eq r.thread_id thread_id
    && str_eq r.spec spec
    && is_armed r.state)

-- `next_fire_at IS NOT NULL AND next_fire_at <= ?`
abbrev pub has_passed : ℕ → Option ℕ → Bool
has_passed now none = false
has_passed now (some t) = leb t now

abbrev pub is_due : ℕ → ScheduleRow → Bool
is_due now r = is_armed r.state && has_passed now r.next_fire_at

unfoldable pub due : ℕ → List ScheduleRow → List ScheduleRow
due now rows = sort_by (λ r. or_else r.next_fire_at 0) (keep (is_due now) rows)

abbrev pub advanced : Option ℕ → ScheduleRow → ScheduleRow
advanced none r = record r { state = done; next_fire_at = none }
advanced (some t) r = record r { next_fire_at = some t }

unfoldable pub advance : String → Option ℕ → List ScheduleRow → List ScheduleRow
advance id next_fire_at = modify id_of id (λ r. is_armed r.state) (advanced next_fire_at)

abbrev pub owned_by : String → String → ScheduleRow → Bool
owned_by endpoint_id thread_id r =
    str_eq r.endpoint_id endpoint_id && str_eq r.thread_id thread_id && is_armed r.state

unfoldable pub cancel : String → String → String → List ScheduleRow → Bool × List ScheduleRow
cancel endpoint_id thread_id id rows = (
  changes id_of id (owned_by endpoint_id thread_id) rows,
  modify id_of id (owned_by endpoint_id thread_id) (λ r. record r { state = cancelled }) rows,
)
