-- ===== src/ChatApps/DeliveryWorker/Wakeups.antt =====
-- src/chat-apps/shared/delivery-worker.ts: when the worker drains the queue. A drain reads the queue
-- when it starts; whether rows are ready when it ends is an argument of the event.
use qiyan_bot.Prelude.{
  ℕ, suc, ◌-◌, ◌≤◌, ltb, refl, ◌≡◌, Bool, true, false, not, ◌&&◌, List, [], ◌∷◌, if◌then◌else◌,
  arith,
}

pub record Wakeups : Type 0 where
  pub subscribed : Bool
  pub draining : Bool
  pub again : Bool
  pub timer : Bool

abbrev pub new : Wakeups
new = record { subscribed = false; draining = false; again = false; timer = false }

-- whether the call starts a drain, and the state that it leaves
unfoldable pub wake : Wakeups → Bool × Wakeups
wake w =
    if w.draining then (false, record w { again = true }) else (true, record w { draining = true })

unfoldable pub start : Wakeups → Bool × Wakeups
unfolding wake
start w = if w.subscribed then (false, w) else wake (record w { subscribed = true })

-- the listener that `start` gave to the queue
unfoldable pub on_ready : Wakeups → Bool × Wakeups
unfolding wake
on_ready w = if w.subscribed then wake w else (false, w)

unfoldable pub arm_retry : Bool → Wakeups → Wakeups
arm_retry ready w = record w { timer = w.subscribed && ready }

-- the `finally` of a drain
unfoldable pub end_drain : Bool → Wakeups → Bool × Wakeups
unfolding wake arm_retry
end_drain ready w =
    let stopped = record w { draining = false } in
    if w.again then wake (record stopped { again = false }) else (false, arm_retry ready stopped)

unfoldable pub fire_timer : Wakeups → Bool × Wakeups
unfolding wake
fire_timer w = if w.timer then wake (record w { timer = false }) else (false, w)

unfoldable pub stop : Wakeups → Bool × Wakeups
stop w = (false, record w { subscribed = false; timer = false })

pub data Event : Type 0 where
  starts row_ready timer_fires stops : Event
  drain_ends : Bool → Event

-- What happens around the worker, which none of its flags tells: the drains that run, whether the
-- worker was started and not stopped, whether a row became ready since the last drain started, and
-- whether rows were ready when the last one ended.
pub record Watch : Type 0 where
  pub worker : Wakeups
  pub drains : ℕ
  pub started : Bool
  pub unseen : Bool
  pub left_ready : Bool

abbrev pub begin : Watch
begin = record { worker = new; drains = 0; started = false; unseen = false; left_ready = false }

-- a drain that starts reads the rows that are ready
abbrev after : Bool × Wakeups → Watch → Watch
after done s = record s {
  worker = done.1;
  drains = if done.0 then suc s.drains else s.drains;
  unseen = s.unseen && not done.0;
}

unfoldable pub step : Event → Watch → Watch
unfolding start on_ready end_drain fire_timer stop
step starts s = after (start s.worker) (record s { started = true })
step row_ready s = after (on_ready s.worker) (record s { unseen = true })
step timer_fires s = after (fire_timer s.worker) s
step stops s = after (stop s.worker) (record s { started = false })
step (drain_ends ready) s =
    if ltb 0 s.drains
    then after (end_drain ready s.worker) (record s { drains = s.drains - 1; left_ready = ready })
    else s

unfoldable pub run : List Event → Watch → Watch
unfolding step
run [] s = s
run (e ∷ es) s = run es (step e s)

-- a started worker misses no row, and drains never overlap
pub record IsAwake (s : Watch) : Type 0 where
  pub single : s.drains ≤ 1
  pub seen : s.started ≡ true → s.unseen ≡ true → (s.drains ≡ 1) × (s.worker.again ≡ true)
  pub retried : s.started ≡ true → s.drains ≡ 0 → s.left_ready ≡ true → s.worker.timer ≡ true

-- with the flags that the worker keeps of it
record IsSound (s : Watch) : Type 0 where
  flag : s.drains ≡ (if s.worker.draining then 1 else 0)
  listens : s.worker.subscribed ≡ s.started
  sees : s.started ≡ true → s.unseen ≡ true → s.worker.draining && s.worker.again ≡ true
  arms : s.started ≡ true → s.worker.draining ≡ false → s.left_ready ≡ true → s.worker.timer ≡ true

step-IsSound : (e : Event) (s : Watch) → IsSound s → IsSound (step e s)
unfolding step start on_ready end_drain fire_timer stop wake arm_retry
step-IsSound starts s h = record {
  flag = ground (arith, h.flag, h.listens);
  listens = ground (arith, h.flag, h.listens);
  sees = λ a b. ground (arith, h.flag, h.listens, h.sees, h.arms);
  arms = λ a b c. ground (arith, h.flag, h.listens, h.sees, h.arms);
}
step-IsSound row_ready s h = record {
  flag = ground (arith, h.flag, h.listens);
  listens = ground (arith, h.flag, h.listens);
  sees = λ a b. ground (arith, h.flag, h.listens, h.sees, h.arms);
  arms = λ a b c. ground (arith, h.flag, h.listens, h.sees, h.arms);
}
step-IsSound timer_fires s h = record {
  flag = ground (arith, h.flag, h.listens);
  listens = ground (arith, h.flag, h.listens);
  sees = λ a b. ground (arith, h.flag, h.listens, h.sees, h.arms);
  arms = λ a b c. ground (arith, h.flag, h.listens, h.sees, h.arms);
}
step-IsSound stops s h = record {
  flag = ground (arith, h.flag, h.listens);
  listens = ground (arith, h.flag, h.listens);
  sees = λ a b. ground (arith, h.flag, h.listens, h.sees, h.arms);
  arms = λ a b c. ground (arith, h.flag, h.listens, h.sees, h.arms);
}
step-IsSound (drain_ends ready) s h = record {
  flag = ground (arith, h.flag, h.listens);
  listens = ground (arith, h.flag, h.listens);
  sees = λ a b. ground (arith, h.flag, h.listens, h.sees, h.arms);
  arms = λ a b c. ground (arith, h.flag, h.listens, h.sees, h.arms);
}

run-IsSound : (es : List Event) (s : Watch) → IsSound s → IsSound (run es s)
unfolding run
run-IsSound [] s h = h
run-IsSound (e ∷ es) s h = run-IsSound es (step e s) (step-IsSound e s h)

sound-IsAwake : (s : Watch) → IsSound s → IsAwake s
sound-IsAwake s h = record {
  single = ground (arith, h.flag);
  seen = λ a b. (ground (arith, h.flag, h.sees a b), ground (arith, h.sees a b));
  retried = λ a b c. ground (arith, h.flag, h.arms a);
}

-- No wakeup is lost. After any events at most one drain runs, and while the worker is started: a row
-- that became ready since the last drain started will be seen, since a drain runs and is to run
-- again; and where no drain runs but rows were ready when the last one ended, the retry timer is
-- armed.
pub run-begin-IsAwake : (es : List Event) → IsAwake (run es begin)
run-begin-IsAwake es = sound-IsAwake (run es begin) (
    run-IsSound es begin (record {
      flag = refl;
      listens = refl;
      sees = λ a b. ground arith;
      arms = λ a b c. ground arith;
    }))
