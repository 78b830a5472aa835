-- ===== src/Sessions/TransientRetry/Budget.antt =====
-- src/sessions/transient-turn-retry.ts: the budget of retries.
use qiyan_bot.Prelude.{
  ℕ, suc, ◌+◌, ◌*◌, ◌≤◌, ◌≡◌, inl, inr, Bool-cases, Option-cases, ltb, String, str_eq, Bool, true,
  false, List, [], ◌∷◌, arith, if◌then◌else◌, get, get-put, get-delete_all, eq_iff,
}
use qiyan_bot.Sessions.TransientRetry.{
  key_of_attempts, TurnError, Effect, scheduled, retried, exhausted, Retry, Timer, find_timer,
  fire_found, Event, fails, observes, cancels, fires, stops, attempts_for, schedule_or_give_up,
  turn_failed, run_timer, fire, step, run, new,
}

-- how often a retry of this session was scheduled, and how often it was given up
abbrev pub scheduled_for : String → List Effect → ℕ
scheduled_for key [] = 0
scheduled_for key (scheduled k n ∷ es) =
    let rest = scheduled_for key es in if str_eq k key then suc rest else rest
scheduled_for key (retried k n ∷ es) = scheduled_for key es
scheduled_for key (exhausted k n ∷ es) = scheduled_for key es

abbrev pub exhausted_for : String → List Effect → ℕ
exhausted_for key [] = 0
exhausted_for key (exhausted k n ∷ es) =
    let rest = exhausted_for key es in if str_eq k key then suc rest else rest
exhausted_for key (scheduled k n ∷ es) = exhausted_for key es
exhausted_for key (retried k n ∷ es) = exhausted_for key es

-- Each exhaustion that was reported stands for a whole budget.
pub record Accounts (max_attempts : ℕ) (key : String) (s : Retry) : Type 0 where
  pub within : attempts_for key s ≤ max_attempts
  pub paid :
      scheduled_for key s.effects ≡ attempts_for key s + max_attempts * exhausted_for key s.effects

-- no success or refusal of this session, and no shutdown, resets its count
abbrev pub resets : String → Event → Bool
resets key (observes k) = str_eq k key
resets key stops = true
resets key _ = false

one_more : (m n : ℕ) → m * suc n ≡ m + m * n
one_more m n = omega arith

schedule-Accounts :
    (m : ℕ) (key k : String) (s : Retry)
    → Accounts m key s
    → Accounts m key (schedule_or_give_up m k (suc (attempts_for k s)) s).1
unfolding schedule_or_give_up attempts_for
schedule-Accounts m key k s v = elim (Bool-cases (ltb m (suc (attempts_for k s)))) [
  | inl spent ↦ rw spent (
      ground (
        arith,
        eq_iff k key,
        one_more m (exhausted_for key s.effects),
        get-delete_all key_of_attempts key k s.attempts,
      ))
  | inr left ↦ rw left (
      ground (
        arith,
        eq_iff k key,
        get-put key_of_attempts key (record { key = k; count = suc (attempts_for k s) }) s.attempts,
      ))
]

turn_failed-Accounts :
    (m : ℕ) (key k : String) (error : TurnError) (s : Retry)
    → Accounts m key s
    → Accounts m key (turn_failed m k error s).1
unfolding turn_failed
turn_failed-Accounts m key k error s v = ground (arith, v, schedule-Accounts m key k s v)

run_timer-Accounts :
    (m : ℕ) (key : String) (t : Timer) (s : Retry)
    → Accounts m key s
    → Accounts m key (run_timer t s)
unfolding run_timer attempts_for
run_timer-Accounts m key t s v = elim (Bool-cases s.stopped) [
  | inl yes_ ↦ rw yes_ (ground (arith, v))
  | inr no_ ↦ rw no_ (ground (arith, v))
]

fire-Accounts :
    (m : ℕ) (key : String) (h : ℕ) (s : Retry) → Accounts m key s → Accounts m key (fire h s)
unfolding fire fire_found
fire-Accounts m key h s v = elim (Option-cases (find_timer h s.timers)) [
  | inl gone ↦ rw (gone, fire_found) v
  | inr (t, here) ↦ rw (here, fire_found) (run_timer-Accounts m key t s v)
]

step-Accounts :
    (m : ℕ) (key : String) (e : Event) (s : Retry)
    → resets key e ≡ false
    → Accounts m key s
    → Accounts m key (step m e s)
unfolding step attempts_for
step-Accounts m key (fails k error) s r v = turn_failed-Accounts m key k error s v
step-Accounts m key (observes k) s r v =
    ground (arith, v, get-delete_all key_of_attempts key k s.attempts)
step-Accounts m key (cancels k) s r v = ground (arith, v)
step-Accounts m key (fires h) s r v = fire-Accounts m key h s v
step-Accounts m key stops s r v = absurd (ground arith)

abbrev pub NoResets : String → List Event → Type 0
NoResets key [] = Unit
NoResets key (e ∷ es) = (resets key e ≡ false) × NoResets key es

run-Accounts :
    (m : ℕ) (key : String) (es : List Event) (s : Retry)
    → NoResets key es
    → Accounts m key s
    → Accounts m key (run m es s)
unfolding run
run-Accounts m key [] s r v = v
run-Accounts m key (e ∷ es) s r v =
    run-Accounts m key es (step m e s) r.1 (step-Accounts m key e s r.0 v)

new-Accounts : (m : ℕ) (key : String) → Accounts m key new
unfolding new attempts_for get
new-Accounts m key = omega arith

-- From a new object on, and as long as no turn of the session is observed and the object is not
-- stopped: the retries that were scheduled for the session are its current count, which never
-- passes the maximum, and a whole budget for each exhaustion that was reported.
pub run-new-Accounts :
    (m : ℕ) (key : String) (es : List Event) → NoResets key es → Accounts m key (run m es new)
run-new-Accounts m key es r = run-Accounts m key es new r (new-Accounts m key)
