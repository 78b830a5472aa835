-- ===== src/Sessions/TransientRetry/Silence.antt =====
-- src/sessions/transient-turn-retry.ts: after a cancellation or a stop no retry is sent.
use qiyan_bot.Prelude.{
  ℕ, suc, ◌≡◌, refl, ◌≢◌, inl, inr, String, str_eq, true, none, some, List, [], ◌∷◌, arith,
  if◌then◌else◌, ltb, get, get-put, get-delete_all, eq_iff, Bool-cases, Option-cases, Option, ◌∙◌,
}
use qiyan_bot.Sessions.TransientRetry.{
  Timer, Pending, key_of_pending, clear_timeout, clear_pending, clear_all, TurnError, Effect,
  scheduled, retried, exhausted, Retry, Event, fails, observes, cancels, fires, stops, attempts_for,
  schedule_or_give_up, turn_failed, turn_observed, cancel, stop, find_timer, run_timer, fire_found,
  fire, step, run,
}
use qiyan_bot.Sessions.TransientRetry.Timers.{
  IsValid, step-IsValid, Armed-find, cancel-IsValid, timers-stop,
}

-- the retries that were sent for a session
abbrev pub retried_for : String → List Effect → ℕ
retried_for key [] = 0
retried_for key (retried k n ∷ es) =
    let rest = retried_for key es in if str_eq k key then suc rest else rest
retried_for key (scheduled k n ∷ es) = retried_for key es
retried_for key (exhausted k n ∷ es) = retried_for key es

-- no turn of the session fails
abbrev pub NoFailure : String → List Event → Type 0
NoFailure key [] = Unit
NoFailure key (fails k error ∷ es) = (k ≢ key) × NoFailure key es
NoFailure key (_ ∷ es) = NoFailure key es

schedule_quiet :
    (m a : ℕ) (key k : String) (s : Retry)
    → k ≢ key
    → get key_of_pending key s.pending ≡ none
    → (get key_of_pending key (schedule_or_give_up m k a s).1.pending ≡ none)
      × (retried_for key (schedule_or_give_up m k a s).1.effects ≡ retried_for key s.effects)
unfolding schedule_or_give_up
schedule_quiet m a key k s d f = elim (Bool-cases (ltb m a)) [
  | inl spent ↦ rw spent (f, refl)
  | inr left ↦ rw left (
    ground (
      arith,
      eq_iff k key,
      get-put key_of_pending key (record { key = k; handle = s.next_handle }) s.pending,
    ),
    refl,
  )
]

turn_failed_quiet :
    (m : ℕ) (key k : String) (error : TurnError) (s : Retry)
    → k ≢ key
    → get key_of_pending key s.pending ≡ none
    → (get key_of_pending key (turn_failed m k error s).1.pending ≡ none)
      × (retried_for key (turn_failed m k error s).1.effects ≡ retried_for key s.effects)
unfolding turn_failed
turn_failed_quiet m key k error s d f =
    ground (arith, schedule_quiet m (suc (attempts_for k s)) key k s d f)

run_timer_quiet :
    (key : String) (t : Timer) (s : Retry)
    → t.key ≢ key
    → get key_of_pending key s.pending ≡ none
    → (get key_of_pending key (run_timer t s).pending ≡ none)
      × (retried_for key (run_timer t s).effects ≡ retried_for key s.effects)
unfolding run_timer
run_timer_quiet key t s d f = elim (Bool-cases s.stopped) [
  | inl halted ↦
      rw halted (ground (arith, f, get-delete_all key_of_pending key t.key s.pending), refl)
  | inr going ↦ rw going (
    ground (arith, f, get-delete_all key_of_pending key t.key s.pending),
    ground (arith, eq_iff t.key key),
  )
]

fire_quiet :
    (key : String) (h : ℕ) (s : Retry)
    → IsValid s
    → get key_of_pending key s.pending ≡ none
    → (get key_of_pending key (fire h s).pending ≡ none)
      × (retried_for key (fire h s).effects ≡ retried_for key s.effects)
unfolding fire fire_found
fire_quiet key h s v f = elim (Option-cases (find_timer h s.timers)) [
  | inl gone ↦ rw (gone, fire_found) (f, refl)
  | inr (t, here) ↦
      rw (here, fire_found)
        (run_timer_quiet key t s
          (λ same. ground (arith, Armed-find h t s.pending s.timers here v.armed)) f)
]

nothing_pending : (key : String) → get key_of_pending key [] ≡ none
unfolding get
nothing_pending key = refl

cancel_free :
    (key k : String) (s : Retry)
    → get key_of_pending key s.pending ≡ none
    → get key_of_pending key (cancel k s).pending ≡ none
unfolding cancel
cancel_free key k s f = ground (arith, get-delete_all key_of_pending key k s.pending)

step_quiet :
    (m : ℕ) (key : String) (e : Event) (s : Retry)
    → NoFailure key (e ∷ [])
    → IsValid s
    → get key_of_pending key s.pending ≡ none
    → (get key_of_pending key (step m e s).pending ≡ none)
      × (retried_for key (step m e s).effects ≡ retried_for key s.effects)
unfolding step
step_quiet m key (fails k error) s d v f = turn_failed_quiet m key k error s d.0 f
step_quiet m key (observes k) s d v f = unfold turn_observed in (f, refl)
step_quiet m key (cancels k) s d v f = (cancel_free key k s f, unfold cancel in refl)
step_quiet m key (fires h) s d v f = fire_quiet key h s v f
step_quiet m key stops s d v f = unfold stop in (nothing_pending key, refl)

NoFailure-split :
    (key : String) (e : Event) (es : List Event)
    → NoFailure key (e ∷ es)
    → NoFailure key (e ∷ []) × NoFailure key es
NoFailure-split key (fails k error) es h = ((h.0, tt), h.1)
NoFailure-split key (observes k) es h = (tt, h)
NoFailure-split key (cancels k) es h = (tt, h)
NoFailure-split key (fires n) es h = (tt, h)
NoFailure-split key stops es h = (tt, h)

run_quiet :
    (m : ℕ) (key : String) (es : List Event) (s : Retry)
    → NoFailure key es
    → IsValid s
    → get key_of_pending key s.pending ≡ none
    → retried_for key (run m es s).effects ≡ retried_for key s.effects
unfolding run
run_quiet m key [] s d v f = refl
run_quiet m key (e ∷ es) s d v f =
    let (now, later) = NoFailure-split key e es d in
    let (free, same) = step_quiet m key e s now v f in
    run_quiet m key es (step m e s) later (step-IsValid m e s v) free ∙ same

cancel_frees : (key : String) (s : Retry) → get key_of_pending key (cancel key s).pending ≡ none
unfolding cancel
cancel_frees key s = ground (arith, eq_iff key key, get-delete_all key_of_pending key key s.pending)

-- After a cancellation no retry of the session is sent, whatever timers fire and whatever else
-- happens, until a turn of that session fails again.
pub run_cancelled :
    (m : ℕ) (key : String) (es : List Event) (s : Retry)
    → IsValid s
    → NoFailure key es
    → retried_for key (run m es (cancel key s)).effects ≡ retried_for key s.effects
run_cancelled m key es s v d =
    run_quiet m key es (cancel key s) d (cancel-IsValid key s v) (cancel_frees key s)
    ∙ (unfold cancel in refl)

record IsHalted (s : Retry) : Type 0 where
  halted : s.stopped ≡ true
  none_armed : s.timers ≡ []

find_timer-nil : (h : ℕ) (ts : List Timer) → ts ≡ [] → find_timer h ts ≡ none
unfolding find_timer
find_timer-nil h [] e = refl
find_timer-nil h (t ∷ ts) e = cc

clear_timeout-nil : (h : ℕ) (ts : List Timer) → ts ≡ [] → clear_timeout h ts ≡ []
unfolding clear_timeout
clear_timeout-nil h [] e = refl
clear_timeout-nil h (t ∷ ts) e = cc

clear_pending-nil : (o : Option Pending) (ts : List Timer) → ts ≡ [] → clear_pending o ts ≡ []
unfolding clear_pending
clear_pending-nil none ts e = e
clear_pending-nil (some p) ts e = clear_timeout-nil p.handle ts e

clear_all-nil : (ps : List Pending) (ts : List Timer) → ts ≡ [] → clear_all ps ts ≡ []
unfolding clear_all
clear_all-nil [] ts e = e
clear_all-nil (p ∷ ps) ts e = clear_all-nil ps _ (clear_timeout-nil p.handle ts e)

turn_failed_halted :
    (m : ℕ) (key : String) (error : TurnError) (s : Retry)
    → s.stopped ≡ true
    → (turn_failed m key error s).1 ≡ s
unfolding turn_failed
turn_failed_halted m key error s h = ground arith

step-IsHalted :
    (m : ℕ) (e : Event) (s : Retry)
    → IsHalted s
    → IsHalted (step m e s) × ((step m e s).effects ≡ s.effects)
unfolding step turn_observed cancel stop
step-IsHalted m (fails key error) s h = rw (turn_failed_halted m key error s h.halted) (h, refl)
step-IsHalted m (observes key) s h = (record { halted = h.halted; none_armed = h.none_armed }, refl)
step-IsHalted m (cancels key) s h = (
  record {
    halted = h.halted;
    none_armed = clear_pending-nil (get key_of_pending key s.pending) s.timers h.none_armed;
  },
  refl,
)
step-IsHalted m (fires n) s h =
    rw (find_timer-nil n s.timers h.none_armed, fire, fire_found) (h, refl)
step-IsHalted m stops s h =
    (record { halted = refl; none_armed = clear_all-nil s.pending s.timers h.none_armed }, refl)

run_halted : (m : ℕ) (es : List Event) (s : Retry) → IsHalted s → (run m es s).effects ≡ s.effects
unfolding run
run_halted m [] s h = refl
run_halted m (e ∷ es) s h =
    let (still, same) = step-IsHalted m e s h in run_halted m es (step m e s) still ∙ same

-- After `stop` nothing happens any more: no retry is sent or scheduled and no exhaustion is
-- reported, whatever events come.
run_stopped :
    (m : ℕ) (es : List Event) (s : Retry) → IsValid s → (run m es (stop s)).effects ≡ s.effects
run_stopped m es s v =
    run_halted m es (stop s) (record { halted = unfold stop in refl; none_armed = timers-stop s v })
    ∙ (unfold stop in refl)
