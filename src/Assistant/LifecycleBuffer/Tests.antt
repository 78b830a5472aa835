-- ===== src/Assistant/LifecycleBuffer/Tests.antt =====
-- The lifecycle buffer on concrete notifications.
use qiyan_bot.Prelude.{◌≡◌, refl, List, [], ◌∷◌}
use qiyan_bot.Assistant.LifecycleBuffer.{
  Notification, Call, accepts, activates, handler_done, turn_started, turn_completed, new, run,
  step, accept, activate, resume, drain,
}
use qiyan_bot.Assistant.LifecycleBuffer.Order.{InOrder, accepted, run-new-InOrder}

abbrev first : Notification
first = record { method = turn_started; params = "1" }

abbrev second : Notification
second = record { method = turn_completed; params = "1" }

abbrev third : Notification
third = record { method = turn_started; params = "2" }

-- the second arrives while the handler has the first, the third when the buffer is ready
abbrev calls : List Call
calls =
    accepts first ∷ activates ∷ accepts second ∷ handler_done ∷ handler_done ∷ accepts third ∷ []

all_handled : (run 64 calls new).handled ≡ first ∷ second ∷ third ∷ []
unfolding run step accept activate resume drain
all_handled = refl

run-new-InOrder_example : InOrder 64 (accepted 64 calls new []) (run 64 calls new)
run-new-InOrder_example = run-new-InOrder 64 calls
