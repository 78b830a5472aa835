-- ===== src/Sessions/TransientRetry/Timers.antt =====
-- src/sessions/transient-turn-retry.ts: the timers of pending retries.
use qiyan_bot.Prelude.{
  ℕ, suc, ◌≡◌, refl, ◌≢◌, inl, inr, String, Bool, true, false, none, some, List, [], ◌∷◌, arith,
  ltb, ◌==◌, any, get, put, delete, get-put, get-delete_all, eq_iff, Bool-cases, Option-cases,
}
use qiyan_bot.Sessions.TransientRetry.{
  Pending, Timer, key_of_pending, TurnError, Retry, Event, fails, observes, cancels, fires, stops,
  attempts_for, schedule_or_give_up, turn_failed, turn_observed, clear_timeout, clear_pending,
  clear_all, cancel, stop, find_timer, run_timer, fire_found, fire, step, run, new,
}

-- Every armed timer is the pending retry of its session.
pub Armed : List Pending → List Timer → Type 0
Armed ps [] = Unit
Armed ps (t ∷ ts) =
    (get key_of_pending t.key ps ≡ some (record { key = t.key; handle = t.handle })) × Armed ps ts

-- what a change of the pending retries may do to the timers that stay armed
module _ (ps qs : List Pending) where
  Armed-transfer :
      (ts : List Timer)
      → ((t : Timer)
          → get key_of_pending t.key ps ≡ some (record { key = t.key; handle = t.handle })
          → get key_of_pending t.key qs ≡ some (record { key = t.key; handle = t.handle }))
      → Armed ps ts
      → Armed qs ts
  unfolding Armed
  Armed-transfer [] f a = tt
  Armed-transfer (t ∷ ts) f a = (f t a.0, Armed-transfer ts f a.1)

  -- the same for the timers that `clearTimeout` leaves
  Armed-clear :
      (h : ℕ) (ts : List Timer)
      → ((t : Timer)
          → t.handle ≢ h
          → get key_of_pending t.key ps ≡ some (record { key = t.key; handle = t.handle })
          → get key_of_pending t.key qs ≡ some (record { key = t.key; handle = t.handle }))
      → Armed ps ts
      → Armed qs (clear_timeout h ts)
  unfolding Armed clear_timeout
  Armed-clear h [] f a = tt
  Armed-clear h (t ∷ ts) f a =
      ground (arith, Armed-clear h ts f a.1, λ (d : t.handle ≢ h). f t d a.0)

put_keeps :
    (key : String) (h : ℕ) (ps : List Pending) (t : Timer)
    → get key_of_pending key ps ≡ none
    → get key_of_pending t.key ps ≡ some (record { key = t.key; handle = t.handle })
    → get key_of_pending t.key (put key_of_pending (record { key = key; handle = h }) ps)
      ≡ some (record { key = t.key; handle = t.handle })
put_keeps key h ps t n e =
    ground
      (arith, eq_iff key t.key, get-put key_of_pending t.key (record { key = key; handle = h }) ps)

put_self :
    (key : String) (h : ℕ) (ps : List Pending)
    → get key_of_pending key (put key_of_pending (record { key = key; handle = h }) ps)
      ≡ some (record { key = key; handle = h })
put_self key h ps =
    ground (arith, eq_iff key key, get-put key_of_pending key (record { key = key; handle = h }) ps)

delete_keeps :
    (key : String) (p : Pending) (ps : List Pending) (t : Timer)
    → get key_of_pending key ps ≡ some p
    → t.handle ≢ p.handle
    → get key_of_pending t.key ps ≡ some (record { key = t.key; handle = t.handle })
    → get key_of_pending t.key (delete key_of_pending key (λ _. true) ps)
      ≡ some (record { key = t.key; handle = t.handle })
delete_keeps key p ps t e d a =
    ground (arith, eq_iff key t.key, get-delete_all key_of_pending t.key key ps)

delete_keeps_none :
    (key : String) (ps : List Pending) (t : Timer)
    → get key_of_pending key ps ≡ none
    → get key_of_pending t.key ps ≡ some (record { key = t.key; handle = t.handle })
    → get key_of_pending t.key (delete key_of_pending key (λ _. true) ps)
      ≡ some (record { key = t.key; handle = t.handle })
delete_keeps_none key ps t e a =
    ground (arith, eq_iff key t.key, get-delete_all key_of_pending t.key key ps)

pub record IsValid (s : Retry) : Type 0 where
  pub armed : Armed s.pending s.timers
  pub halted : s.stopped ≡ true → s.timers ≡ []

schedule-IsValid :
    (m n : ℕ) (key : String) (s : Retry)
    → s.stopped ≡ false
    → get key_of_pending key s.pending ≡ none
    → IsValid s
    → IsValid (schedule_or_give_up m key n s).1
unfolding schedule_or_give_up Armed
schedule-IsValid m n key s r p v = elim (Bool-cases (ltb m n)) [
  | inl spent ↦ rw spent (ground (arith, v))
  | inr left ↦ rw left (record {
    armed = (
      put_self key s.next_handle s.pending,
      Armed-transfer s.pending _ s.timers (λ t. put_keeps key s.next_handle s.pending t p) v.armed,
    );
    halted = ground (arith, v);
  })
]

turn_failed-IsValid :
    (m : ℕ) (key : String) (error : TurnError) (s : Retry)
    → IsValid s
    → IsValid (turn_failed m key error s).1
unfolding turn_failed
turn_failed-IsValid m key error s v =
    ground (arith, v, schedule-IsValid m (suc (attempts_for key s)) key s)

clear_timeout-nil : (h : ℕ) (ts : List Timer) → ts ≡ [] → clear_timeout h ts ≡ []
unfolding clear_timeout
clear_timeout-nil h [] e = refl
clear_timeout-nil h (t ∷ ts) e = cc

pub cancel-IsValid : (key : String) (s : Retry) → IsValid s → IsValid (cancel key s)
unfolding cancel clear_pending
cancel-IsValid key s v = elim (Option-cases (get key_of_pending key s.pending)) [
  | inl free ↦ record {
    armed =
        rw (free, clear_pending)
          (Armed-transfer s.pending _ s.timers (λ t. delete_keeps_none key s.pending t free)
            v.armed);
    halted = λ h. rw (free, clear_pending) (v.halted h);
  }
  | inr (p, held) ↦ record {
    armed =
        rw (held, clear_pending)
          (Armed-clear s.pending _ p.handle s.timers (λ t. delete_keeps key p s.pending t held)
            v.armed);
    halted = λ h. rw (held, clear_pending) (clear_timeout-nil p.handle s.timers (v.halted h));
  }
]

holds_handle : ℕ → List Pending → Bool
holds_handle h = any (λ p. p.handle == h)

holds_handle-get :
    (key : String) (p : Pending) (ps : List Pending)
    → get key_of_pending key ps ≡ some p
    → holds_handle p.handle ps ≡ true
unfolding holds_handle get
holds_handle-get key p [] e = absurd (ground arith)
holds_handle-get key p (q ∷ ps) e = ground (arith, holds_handle-get key p ps)

-- every timer's handle is held by a pending retry
Held : List Pending → List Timer → Type 0
Held ps [] = Unit
Held ps (t ∷ ts) = (holds_handle t.handle ps ≡ true) × Held ps ts

Held-of-Armed : (ps : List Pending) (ts : List Timer) → Armed ps ts → Held ps ts
unfolding Armed Held
Held-of-Armed ps [] a = tt
Held-of-Armed ps (t ∷ ts) a = (holds_handle-get t.key _ ps a.0, Held-of-Armed ps ts a.1)

Held-clear :
    (p : Pending) (ps : List Pending) (ts : List Timer)
    → Held (p ∷ ps) ts
    → Held ps (clear_timeout p.handle ts)
unfolding Held clear_timeout holds_handle
Held-clear p ps [] h = tt
Held-clear p ps (t ∷ ts) h = ground (arith, Held-clear p ps ts h.1, h.0)

clear_all-nil : (ps : List Pending) (ts : List Timer) → Held ps ts → clear_all ps ts ≡ []
unfolding clear_all Held holds_handle
clear_all-nil [] [] h = refl
clear_all-nil [] (t ∷ ts) h = absurd (ground (arith, h.0))
clear_all-nil (p ∷ ps) ts h = clear_all-nil ps (clear_timeout p.handle ts) (Held-clear p ps ts h)

pub timers-stop : (s : Retry) → IsValid s → (stop s).timers ≡ []
unfolding stop
timers-stop s v = clear_all-nil s.pending s.timers (Held-of-Armed s.pending s.timers v.armed)

pub stop-IsValid : (s : Retry) → IsValid s → IsValid (stop s)
unfolding stop Armed
stop-IsValid s v = record { armed = rw (timers-stop s v) tt; halted = λ h. timers-stop s v }

pub Armed-find :
    (h : ℕ) (t : Timer) (ps : List Pending) (ts : List Timer)
    → find_timer h ts ≡ some t
    → Armed ps ts
    → get key_of_pending t.key ps ≡ some (record { key = t.key; handle = t.handle })
unfolding find_timer Armed
Armed-find h t ps [] e a = absurd (ground arith)
Armed-find h t ps (u ∷ ts) e a = ground (arith, Armed-find h t ps ts, a.0, a.1)

run_timer-IsValid :
    (t : Timer) (s : Retry)
    → get key_of_pending t.key s.pending ≡ some (record { key = t.key; handle = t.handle })
    → IsValid s
    → IsValid (run_timer t s)
unfolding run_timer
run_timer-IsValid t s e v = ground (
  arith,
  v.halted,
  clear_timeout-nil t.handle s.timers,
  Armed-clear s.pending _ t.handle s.timers
      (λ u d. delete_keeps t.key (record { key = t.key; handle = t.handle }) s.pending u e d)
      v.armed,
)

fire-IsValid : (h : ℕ) (s : Retry) → IsValid s → IsValid (fire h s)
unfolding fire fire_found
fire-IsValid h s v = elim (Option-cases (find_timer h s.timers)) [
  | inl gone ↦ rw (gone, fire_found) v
  | inr (t, here) ↦
      rw (here, fire_found)
        (run_timer-IsValid t s (Armed-find h t s.pending s.timers here v.armed) v)
]

pub step-IsValid : (m : ℕ) (e : Event) (s : Retry) → IsValid s → IsValid (step m e s)
unfolding step turn_observed
step-IsValid m (fails key error) s v = turn_failed-IsValid m key error s v
step-IsValid m (observes key) s v = record { armed = v.armed; halted = v.halted }
step-IsValid m (cancels key) s v = cancel-IsValid key s v
step-IsValid m (fires h) s v = fire-IsValid h s v
step-IsValid m stops s v = stop-IsValid s v

run-IsValid : (m : ℕ) (es : List Event) (s : Retry) → IsValid s → IsValid (run m es s)
unfolding run
run-IsValid m [] s v = v
run-IsValid m (e ∷ es) s v = run-IsValid m es (step m e s) (step-IsValid m e s v)

-- After any events, every armed timer is the one pending retry of its session, and once the object
-- is stopped no timer is armed.
pub run-new-IsValid : (m : ℕ) (es : List Event) → IsValid (run m es new)
unfolding new Armed
run-new-IsValid m es = run-IsValid m es new (record { armed = tt; halted = λ h. refl })
