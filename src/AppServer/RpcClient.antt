-- ===== src/AppServer/RpcClient.antt =====
-- src/app-server/rpc-client.ts: the requests over one wire, and how each promise of a request
-- settles. `JSON.parse` and the shape of a message are taken as done: a message is a response, a
-- request of the server, a notification or anything else. JSON values are their texts. A timeout and
-- an abort listener are named by the request that they belong to. The wire does not call back while
-- it sends; whether a send throws is an argument.
pub mod Messages
pub mod Settling
pub mod Closing
mod Tests
use qiyan_bot.Core.{Result, ok, error}
use qiyan_bot.Prelude.{
  ℕ, suc, ◌+◌, String, str_append, Bool, true, false, not, ◌&&◌, ◌||◌, Option, none, some, List, [],
  ◌∷◌, ◌++◌, map, if◌then◌else◌, ◌==◌, keep, any, is_some,
}
use qiyan_bot.AppServer.RpcClient.Messages.{
  Client, Failure, Message, Outcome, Pending, Settled, answer_message, client_closed, closed_with,
  is_not, is_pending, is_request, new, notification_message, rejected, request_aborted,
  request_message, resolved, response_error, timed_out, write_failed,
}

-- `write`: the error that it throws, or the message is sent
unfoldable pub write : Bool → Message → Client → Bool × Client
write send_fails message s =
    if s.closed || send_fails then (false, s) else (true, record s { sent = message ∷ s.sent })

-- the request leaves the map, its timeout is cleared and its listener removed, and it settles
unfoldable pub settle : ℕ → Outcome → Client → Client
settle id outcome s =
    if is_pending id s
    then record s {
      pending = keep (is_not id) s.pending;
      timeouts = keep (is_not id) s.timeouts;
      abort_listeners = keep (λ x. not (x == id)) s.abort_listeners;
      settled = record { id = id; outcome = outcome } ∷ s.settled;
    }
    else s

unfoldable pub finish_reject : ℕ → Failure → Client → Client
finish_reject id failure = settle id (rejected failure)

-- the signal of a request: none, one that may abort later, or one that has aborted
pub data Signal : Type 0 where
  absent live aborted : Signal

abbrev pub listening : Signal → ℕ → List ℕ → List ℕ
listening live id ids = id ∷ ids
listening _ id ids = ids

abbrev pub is_aborted : Signal → Bool
is_aborted aborted = true
is_aborted _ = false

unfoldable pub written : ℕ → Bool × Client → Client
written id (true, s) = s
written id (false, s) = finish_reject id write_failed s

-- the promise's body up to the write
unfoldable pub entered : Signal → String → Client → Client
entered signal method s = record s {
  next_id = suc s.next_id;
  timeouts = record { id = s.next_id; method = method } ∷ s.timeouts;
  abort_listeners = listening signal s.next_id s.abort_listeners;
  pending = record { id = s.next_id; method = method } ∷ s.pending;
}

unfoldable pub start_request : Signal → Bool → String → String → Client → Client
start_request signal send_fails method params s =
    if is_aborted signal
    then record s {
      next_id = suc s.next_id;
      settled = record { id = s.next_id; outcome = rejected request_aborted } ∷ s.settled;
    }
    else written s.next_id
        (write send_fails (request_message s.next_id method params) (entered signal method s))

-- The result is the number of the request, or the rejection of a closed client.
unfoldable pub request : Signal → Bool → String → String → Client → Option ℕ × Client
unfolding start_request written
request signal send_fails method params s =
    if s.closed
    then (none, s)
    else (some s.next_id, start_request signal send_fails method params s)

unfoldable pub notify : Bool → String → String → Client → Result {0} Unit × Client
notify send_fails method params s =
    let done = write send_fails (notification_message method params) s in
    if done.0 then (ok tt, done.1) else (error, s)

-- the set of listeners, each by its number
unfoldable pub on_notification : ℕ → Client → Client
on_notification listener s =
    if any (λ l. l == listener) s.notification_listeners
    then s
    else record s { notification_listeners = s.notification_listeners ++ listener ∷ [] }

unfoldable pub off_notification : ℕ → Client → Client
off_notification listener s = record s {
  notification_listeners = keep (λ l. not (l == listener)) s.notification_listeners;
}

unfoldable pub on_server_request : ℕ → Client → Client
on_server_request handler s = record s { server_request_handler = some handler }

abbrev is_handler : ℕ → Option ℕ → Bool
is_handler handler none = false
is_handler handler (some h) = h == handler

unfoldable pub off_server_request : ℕ → Client → Client
off_server_request handler s =
    if is_handler handler s.server_request_handler
    then record s { server_request_handler = none }
    else s

unfoldable pub find_timeout : ℕ → List Pending → Option Pending
find_timeout id [] = none
find_timeout id (p ∷ ps) = let rest = find_timeout id ps in if p.id == id then some p else rest

unfoldable pub timed : ℕ → Option Pending → Client → Client
timed id none s = s
timed id (some p) s =
    finish_reject id (timed_out p.method) (record s { timeouts = keep (is_not id) s.timeouts })

-- an armed timeout fires
unfoldable pub fire_timeout : ℕ → Client → Client
unfolding find_timeout
fire_timeout id s = timed id (find_timeout id s.timeouts) s

-- the listener of a signal is called once
unfoldable pub fire_abort : ℕ → Client → Client
fire_abort id s =
    if any (λ x. x == id) s.abort_listeners
    then finish_reject id request_aborted
        (record s { abort_listeners = keep (λ x. not (x == id)) s.abort_listeners })
    else s

pub data MessageId : Type 0 where
  number : ℕ → MessageId
  text : String → MessageId

pub data Received : Type 0 where
  response : MessageId → Outcome → Received
  server_request : MessageId → String → Received
  notification : String → Received
  unreadable : Received

-- only numbers are ever keys of the map
unfoldable pub receive_response : MessageId → Outcome → Client → Client
receive_response (number id) outcome s = settle id outcome s
receive_response (text id) outcome s = s

unfoldable pub received : Received → Client → Client
received (response id outcome) s = receive_response id outcome s
received (server_request id method) s = s
received (notification method) s = record s {
  notified = map (λ l. (l, method)) s.notification_listeners ++ s.notified;
}
received unreadable s = s

-- A closed client has taken its listeners off the wire. A request of the server is answered later,
-- by `answer`.
unfoldable pub receive : Received → Client → Client
unfolding receive_response received
receive message s = if s.closed then s else received message s

-- the end of `handleServerRequest`, with what the handler came to; no handler is an error
unfoldable pub answer : Bool → String → Result String → Client → Client
answer send_fails id outcome s =
    if s.closed then s else (write send_fails (answer_message id outcome) s).1

unfoldable pub reject_all : String → List Pending → List Settled → List Settled
reject_all why [] done = done
reject_all why (p ∷ ps) done =
    reject_all why ps (record { id = p.id; outcome = rejected (closed_with why) } ∷ done)

unfoldable pub drop_requests : List Pending → List Pending → List Pending
drop_requests [] ts = ts
drop_requests (p ∷ ps) ts = drop_requests ps (keep (is_not p.id) ts)

unfoldable pub drop_listeners : List Pending → List ℕ → List ℕ
drop_listeners [] ids = ids
drop_listeners (p ∷ ps) ids = drop_listeners ps (keep (λ x. not (x == p.id)) ids)

unfoldable pub close : String → Bool → Client → Client
unfolding reject_all drop_requests drop_listeners
close why close_wire s = if s.closed then s else record s {
  closed = true;
  timeouts = drop_requests s.pending s.timeouts;
  abort_listeners = drop_listeners s.pending s.abort_listeners;
  settled = reject_all why s.pending s.settled;
  pending = [];
  wire_closed = s.wire_closed || close_wire;
}

pub data Event : Type 0 where
  requests : Signal → Bool → String → String → Event
  notifies : Bool → String → String → Event
  listens unlistens handles unhandles times_out aborts : ℕ → Event
  receives : Received → Event
  answers : Bool → String → Result String → Event
  closes : String → Bool → Event

unfoldable pub step : Event → Client → Client
step (requests signal send_fails method params) s = (request signal send_fails method params s).1
step (notifies send_fails method params) s = (notify send_fails method params s).1
step (listens l) s = on_notification l s
step (unlistens l) s = off_notification l s
step (handles h) s = on_server_request h s
step (unhandles h) s = off_server_request h s
step (times_out id) s = fire_timeout id s
step (aborts id) s = fire_abort id s
step (receives message) s = receive message s
step (answers send_fails id outcome) s = answer send_fails id outcome s
step (closes why close_wire) s = close why close_wire s

unfoldable pub run : List Event → Client → Client
run [] s = s
run (e ∷ es) s = run es (step e s)
