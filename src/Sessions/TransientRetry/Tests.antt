-- ===== src/Sessions/TransientRetry/Tests.antt =====
-- Transient retries on concrete events, and their theorems at concrete inputs.
use qiyan_bot.Prelude.{
  ◌≡◌, refl, ◌≢◌, String, some, none, List, [], ◌∷◌, arith, eq_iff, get, put, delete,
}
use qiyan_bot.Sessions.TransientRetry.{
  TurnError, failure, absent, text, object, retry, reset, ignore, Retry, Event, fails, fires,
  scheduled, retried, exhausted, transient_turn_error_code, turn_retry_decision, find_timer,
  clear_timeout, cancel, step, run, new,
}
use qiyan_bot.Sessions.TransientRetry.Budget.{Accounts, run-new-Accounts}
use qiyan_bot.Sessions.TransientRetry.Timers.{IsValid, run-new-IsValid}
use qiyan_bot.Sessions.TransientRetry.Silence.{retried_for, run_cancelled}

abbrev overloaded : TurnError
overloaded = failure (object ("serverOverloaded" ∷ []))

decisions :
    (turn_retry_decision (some overloaded) ≡ retry)
    × (turn_retry_decision (some absent) ≡ reset)
    × (turn_retry_decision (some (failure (text "usageLimitExceeded"))) ≡ ignore)
    × (turn_retry_decision none ≡ ignore)
unfolding turn_retry_decision
decisions = (refl, refl, refl, refl)

abbrev twice : List Event
twice = fails "w" overloaded ∷ fails "w" overloaded ∷ fires 0 ∷ fails "w" overloaded ∷ []

-- a failure while a retry is pending schedules nothing, and the second retry spends the budget of 1
twice_effects : (run 1 twice new).effects ≡ exhausted "w" 1 ∷ retried "w" 1 ∷ scheduled "w" 1 ∷ []
unfolding run step new transient_turn_error_code find_timer clear_timeout get put delete
twice_effects = refl

run-new-Accounts_example : Accounts 1 "w" (run 1 twice new)
run-new-Accounts_example = run-new-Accounts 1 "w" twice (refl, (refl, (refl, (refl, tt))))

run-new-IsValid_example : IsValid (run 1 twice new)
run-new-IsValid_example = run-new-IsValid 1 twice

abbrev one_pending : Retry
one_pending = run 3 (fails "w" overloaded ∷ []) new

v_not_w : ◌≢◌ {A = String} "v" "w"
v_not_w = ground (arith, eq_iff "v" "w")

run_cancelled_example :
    retried_for "w" (run 3 (fails "v" overloaded ∷ fires 0 ∷ []) (cancel "w" one_pending)).effects
    ≡ retried_for "w" one_pending.effects
run_cancelled_example =
    run_cancelled 3 "w" (fails "v" overloaded ∷ fires 0 ∷ []) one_pending
      (run-new-IsValid 3 (fails "w" overloaded ∷ [])) (v_not_w, tt)
