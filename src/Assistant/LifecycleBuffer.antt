-- ===== src/Assistant/LifecycleBuffer.antt =====
-- src/assistant/lifecycle-buffer.ts: notifications of the assistant's turns that arrive before the
-- assistant can handle them. The handler is the log of the calls that it got, in the order in which
-- they began; it is taken not to throw. `activate` awaits the handler once for each notification:
-- `drain` is its code from one await to the next, so calls may come in between.
pub mod Order
mod Tests
use qiyan_bot.Core.{Result, ok, error}
use qiyan_bot.Prelude.{
  ℕ, suc, ◌-◌, String, Bool, true, false, List, [], ◌∷◌, ◌++◌, if◌then◌else◌, leb, ltb, length,
}

pub data Method : Type 0 where
  turn_started turn_completed : Method

pub record Notification : Type 0 where
  pub method : Method
  pub params : String

-- `awaited` is the number of calls of `activate` that await the handler
pub record Buffer : Type 0 where
  pub pending : List Notification
  pub ready : Bool
  pub handled : List Notification
  pub awaited : ℕ

abbrev pub new : Buffer
new = record { pending = []; ready = false; handled = []; awaited = 0 }

unfoldable pub accept : ℕ → Notification → Buffer → Result (Unit {0}) × Buffer
accept max_pending n b =
    if b.ready
    then (ok tt, record b { handled = b.handled ++ n ∷ [] })
    else if leb max_pending (length b.pending)
    then (error, b)
    else (ok tt, record b { pending = b.pending ++ n ∷ [] })

-- the test of the `while` loop, and either the next call of the handler or the end of `activate`
unfoldable pub drain : List Notification → Buffer → Buffer
drain [] b = record b { ready = true }
drain (n ∷ ns) b = record b { pending = ns; handled = b.handled ++ n ∷ []; awaited = suc b.awaited }

unfoldable pub activate : Buffer → Buffer
unfolding drain
activate b = drain b.pending b

-- the handler's promise settles, and the loop of `activate` goes on
unfoldable pub resume : Buffer → Buffer
unfolding drain
resume b = if ltb 0 b.awaited then drain b.pending (record b { awaited = b.awaited - 1 }) else b

unfoldable pub clear : Buffer → Buffer
clear b = record b { pending = []; ready = false }

pub data Call : Type 0 where
  accepts : Notification → Call
  activates handler_done clears : Call

unfoldable pub step : ℕ → Call → Buffer → Buffer
unfolding accept activate resume clear
step limit (accepts n) b = (accept limit n b).1
step limit activates b = activate b
step limit handler_done b = resume b
step limit clears b = clear b

unfoldable pub run : ℕ → List Call → Buffer → Buffer
unfolding step
run limit [] b = b
run limit (call ∷ calls) b = run limit calls (step limit call b)
