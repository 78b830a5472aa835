-- ===== src/AppServer/RpcClient/Tests.antt =====
-- The client on concrete events, and its theorems at concrete inputs.
use qiyan_bot.Prelude.{◌≡◌, refl, true, false, List, [], ◌∷◌, arith}
use qiyan_bot.AppServer.RpcClient.Messages.{
  resolved, rejected, timed_out, request_aborted, closed_with, new, is_pending,
}
use qiyan_bot.AppServer.RpcClient.{
  Event, requests, receives, times_out, aborts, closes, live, absent, response, number, run, step,
  request, start_request, entered, written, write, receive, received, receive_response, settle,
  finish_reject, fire_timeout, find_timeout, timed, fire_abort, close, reject_all, drop_requests,
  drop_listeners,
}
use qiyan_bot.AppServer.RpcClient.Settling.{in_map, in_settled}
use qiyan_bot.AppServer.RpcClient.Closing.{settled_once}

-- four requests: one is answered, twice, one times out, one is aborted, and one is open at the end
abbrev events : List Event
events =
    requests absent false "a" "{}"
    ∷ requests absent false "b" "{}"
    ∷ requests live false "c" "{}"
    ∷ requests absent false "d" "{}"
    ∷ receives (response (number 1) (resolved "1"))
    ∷ receives (response (number 1) (resolved "2"))
    ∷ times_out 2
    ∷ aborts 3
    ∷ closes "gone" true
    ∷ times_out 4
    ∷ []

events_settle :
    (run events new).settled
    ≡ record { id = 4; outcome = rejected (closed_with "gone") }
      ∷ record { id = 3; outcome = rejected request_aborted }
      ∷ record { id = 2; outcome = rejected (timed_out "b") }
      ∷ record { id = 1; outcome = resolved "1" }
      ∷ []
unfolding run step new request start_request entered written write receive received receive_response
    settle is_pending finish_reject fire_timeout find_timeout timed fire_abort close reject_all
    drop_requests drop_listeners
events_settle = refl

settled_once_example :
    (in_settled 4 (run events new).settled ≡ 1) × (in_map 4 (run events new).timeouts ≡ 0)
unfolding run step new request start_request entered written write receive received receive_response
    settle is_pending finish_reject fire_timeout find_timeout timed fire_abort close
settled_once_example = settled_once events 4 refl (omega arith) (omega arith)
