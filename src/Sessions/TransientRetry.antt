-- ===== src/Sessions/TransientRetry.antt =====
-- src/sessions/transient-turn-retry.ts: bounded retries of turns that failed transiently.
-- A session is its key, the text that `keyOf` makes. `setTimeout` is an armed timer with a new
-- handle; the event loop chooses when an armed timer fires. The callbacks of `deps` are a log of
-- effects: none of them comes back into this object.
pub mod Budget
pub mod Timers
pub mod Silence
mod Tests
use qiyan_bot.Prelude.{
  ℕ, suc, ◌+◌, String, str_eq, Bool, true, false, not, ◌&&◌, Option, none, some, List, [], ◌∷◌,
  ◌++◌, if◌then◌else◌, ltb, ◌==◌, any, keep, or_else, is_some, get, put, delete,
}

-- `codexErrorInfo`: a bare text, an object by its keys, or anything else
pub data CodexErrorInfo : Type 0 where
  text : String → CodexErrorInfo
  object : List String → CodexErrorInfo
  other : CodexErrorInfo

-- `error`: null or undefined, a value that is no object, or an object
pub data TurnError : Type 0 where
  absent not_object : TurnError
  failure : CodexErrorInfo → TurnError

abbrev pub retryable_codes : List String
retryable_codes =
    "serverOverloaded" ∷ "internalServerError" ∷ "httpConnectionFailed"
    ∷ "responseStreamConnectionFailed" ∷ []

error_code : CodexErrorInfo → Option String
error_code (text s) = some s
error_code (object []) = none
error_code (object (k ∷ ks)) = some k
error_code other = none

retryable : Option String → Option String
retryable none = none
retryable (some code) = if any (λ c. str_eq c code) retryable_codes then some code else none

unfoldable pub transient_turn_error_code : TurnError → Option String
unfolding error_code retryable
transient_turn_error_code absent = none
transient_turn_error_code not_object = none
transient_turn_error_code (failure info) = retryable (error_code info)

pub data TurnRetryDecision : Type 0 where
  reset retry ignore : TurnRetryDecision

-- `none` is a turn that is null or undefined.
unfoldable pub turn_retry_decision : Option TurnError → TurnRetryDecision
unfolding transient_turn_error_code
turn_retry_decision none = ignore
turn_retry_decision (some absent) = reset
turn_retry_decision (some error) =
    if is_some (transient_turn_error_code error) then retry else ignore

pub record Attempts : Type 0 where
  pub key : String
  pub count : ℕ

pub record Pending : Type 0 where
  pub key : String
  pub handle : ℕ

pub record Timer : Type 0 where
  pub handle : ℕ
  pub key : String
  pub attempt : ℕ

pub data Effect : Type 0 where
  scheduled retried exhausted : String → ℕ → Effect

pub record Retry : Type 0 where
  pub attempts : List Attempts
  pub pending : List Pending
  pub stopped : Bool
  pub timers : List Timer
  pub next_handle : ℕ
  pub effects : List Effect

abbrev pub key_of_attempts : Attempts → String
key_of_attempts a = a.key

abbrev pub key_of_pending : Pending → String
key_of_pending p = p.key

unfoldable pub new : Retry
new = record {
  attempts = [];
  pending = [];
  stopped = false;
  timers = [];
  next_handle = 0;
  effects = [];
}

-- `this.attempts.get(key) ?? 0`
abbrev pub count_or_zero : Option Attempts → ℕ
count_or_zero none = 0
count_or_zero (some a) = a.count

unfoldable pub attempts_for : String → Retry → ℕ
attempts_for key s = count_or_zero (get key_of_attempts key s.attempts)

abbrev pub emit : Effect → List Effect → List Effect
emit e es = e ∷ es

-- the rest of `turnFailed` once the failure is known to be retryable and no retry is pending
unfoldable pub schedule_or_give_up : ℕ → String → ℕ → Retry → Bool × Retry
schedule_or_give_up max_attempts key attempt s =
    if ltb max_attempts attempt
    then (
      false,
      record s {
        attempts = delete key_of_attempts key (λ _. true) s.attempts;
        effects = emit (exhausted key max_attempts) s.effects;
      },
    )
    else (
      true,
      record s {
        attempts = put key_of_attempts (record { key = key; count = attempt }) s.attempts;
        timers = record { handle = s.next_handle; key = key; attempt = attempt } ∷ s.timers;
        next_handle = suc s.next_handle;
        pending = put key_of_pending (record { key = key; handle = s.next_handle }) s.pending;
        effects = emit (scheduled key attempt) s.effects;
      },
    )

-- The result tells whether a code is returned, that is, whether a retry was scheduled.
unfoldable pub turn_failed : ℕ → String → TurnError → Retry → Bool × Retry
unfolding schedule_or_give_up attempts_for
turn_failed max_attempts key error s =
    if s.stopped
    then (false, s)
    else if not (is_some (transient_turn_error_code error))
    then (false, s)
    else if is_some (get key_of_pending key s.pending)
    then (false, s)
    else schedule_or_give_up max_attempts key (suc (attempts_for key s)) s

unfoldable pub turn_observed : String → Retry → Retry
turn_observed key s = record s { attempts = delete key_of_attempts key (λ _. true) s.attempts }

-- `clearTimeout(handle)`; an armed timer that fires is taken off in the same way
unfoldable pub clear_timeout : ℕ → List Timer → List Timer
clear_timeout handle = keep (λ t. not (t.handle == handle))

clear_pending : Option Pending → List Timer → List Timer
clear_pending none ts = ts
clear_pending (some p) ts = clear_timeout p.handle ts

unfoldable pub cancel : String → Retry → Retry
unfolding clear_pending
cancel key s = record s {
  timers = clear_pending (get key_of_pending key s.pending) s.timers;
  pending = delete key_of_pending key (λ _. true) s.pending;
}

clear_all : List Pending → List Timer → List Timer
clear_all [] ts = ts
clear_all (p ∷ ps) ts = clear_all ps (clear_timeout p.handle ts)

unfoldable pub stop : Retry → Retry
unfolding clear_all
stop s = record s {
  stopped = true;
  timers = clear_all s.pending s.timers;
  pending = [];
  attempts = [];
}

unfoldable pub find_timer : ℕ → List Timer → Option Timer
find_timer handle [] = none
find_timer handle (t ∷ ts) = if t.handle == handle then some t else find_timer handle ts

-- the callback that `turnFailed` hands to `setTimeout`
unfoldable pub run_timer : Timer → Retry → Retry
run_timer t s =
    let s' = record s {
      timers = clear_timeout t.handle s.timers;
      pending = delete key_of_pending t.key (λ _. true) s.pending;
    } in
    if s.stopped then s' else record s' { effects = emit (retried t.key t.attempt) s.effects }

fire_found : Option Timer → Retry → Retry
fire_found none s = s
fire_found (some t) s = run_timer t s

unfoldable pub fire : ℕ → Retry → Retry
unfolding fire_found run_timer
fire handle s = fire_found (find_timer handle s.timers) s

pub data Event : Type 0 where
  fails : String → TurnError → Event
  observes cancels : String → Event
  fires : ℕ → Event
  stops : Event

unfoldable pub step : ℕ → Event → Retry → Retry
unfolding turn_failed turn_observed cancel stop fire
step max_attempts (fails key error) s = (turn_failed max_attempts key error s).1
step max_attempts (observes key) s = turn_observed key s
step max_attempts (cancels key) s = cancel key s
step max_attempts (fires handle) s = fire handle s
step max_attempts stops s = stop s

unfoldable pub run : ℕ → List Event → Retry → Retry
run max_attempts [] s = s
run max_attempts (e ∷ es) s = run max_attempts es (step max_attempts e s)
