-- ===== src/AppServer/RpcClient/Closing.antt =====
-- src/app-server/rpc-client.ts: every run of the client, and what closing leaves.
use qiyan_bot.Prelude.{
  ℕ, ◌≤◌, ◌<◌, ◌≡◌, refl, String, Bool, true, false, List, [], ◌∷◌, if◌then◌else◌, arith, inl, inr,
  Bool-cases,
}
use qiyan_bot.AppServer.RpcClient.Messages.{
  Client, Message, new, notification_message, answer_message,
}
use qiyan_bot.AppServer.RpcClient.{
  number, text, Received, response, server_request, notification, unreadable, Event, requests,
  notifies, listens, unlistens, handles, unhandles, times_out, aborts, receives, answers, closes,
  write, notify, on_notification, off_notification, on_server_request, off_server_request,
  receive_response, received, receive, answer, step, run,
}
use qiyan_bot.AppServer.RpcClient.Settling.{
  in_map, in_settled, Accounts, settle-Accounts, write-Accounts, request-Accounts,
  fire_timeout-Accounts, fire_abort-Accounts, close-Accounts,
}

same-Accounts :
    (id : ℕ) (s t : Client)
    → t.next_id ≡ s.next_id
    → t.pending ≡ s.pending
    → t.timeouts ≡ s.timeouts
    → t.settled ≡ s.settled
    → t.closed ≡ s.closed
    → Accounts id s
    → Accounts id t
same-Accounts id s t n p m d c v = record {
  total = rw (n, p, d) (v.total);
  timed = rw (m, p) (v.timed);
  positive = rw n (v.positive);
  drained = rw (c, p) (v.drained);
}

received-Accounts :
    (id : ℕ) (m : Received) (s : Client) → Accounts id s → Accounts id (received m s)
unfolding received receive_response
received-Accounts id (response (number k) o) s v = settle-Accounts id k o s v
received-Accounts id (response (text k) o) s v = v
received-Accounts id (server_request k method) s v = v
received-Accounts id (notification method) s v = same-Accounts id s _ refl refl refl refl refl v
received-Accounts id unreadable s v = v

if-Accounts :
    (id : ℕ) (b : Bool) (s t : Client)
    → Accounts id s
    → Accounts id t
    → Accounts id (if b then s else t)
if-Accounts id true s t v w = v
if-Accounts id false s t v w = w

notify-Accounts :
    (id : ℕ) (fails : Bool) (method params : String) (s : Client)
    → Accounts id s
    → Accounts id (notify fails method params s).1
unfolding notify
notify-Accounts id fails method params s v =
    let message : Message = notification_message method params in
    elim (Bool-cases (write fails message s).0) [
      | inl out ↦ rw out (write-Accounts id fails message s v)
      | inr lost ↦ rw lost v
    ]

step-Accounts :
    (e : Event) (s : Client) → ((id : ℕ) → Accounts id s) → (id : ℕ) → Accounts id (step e s)
unfolding step on_notification off_notification on_server_request off_server_request receive answer
step-Accounts (requests signal fails method params) s v id =
    request-Accounts id signal fails method params s (v id)
step-Accounts (notifies fails method params) s v id =
    notify-Accounts id fails method params s (v id)
step-Accounts (listens l) s v id =
    if-Accounts id _ s _ (v id) (same-Accounts id s _ refl refl refl refl refl (v id))
step-Accounts (unlistens l) s v id = same-Accounts id s _ refl refl refl refl refl (v id)
step-Accounts (handles h) s v id = same-Accounts id s _ refl refl refl refl refl (v id)
step-Accounts (unhandles h) s v id =
    if-Accounts id _ _ s (same-Accounts id s _ refl refl refl refl refl (v id)) (v id)
step-Accounts (times_out k) s v id = fire_timeout-Accounts id k s (v id) (v k)
step-Accounts (aborts k) s v id = fire_abort-Accounts id k s (v id)
step-Accounts (receives m) s v id =
    if-Accounts id s.closed s (received m s) (v id) (received-Accounts id m s (v id))
step-Accounts (answers fails k o) s v id =
    if-Accounts id s.closed s (write fails (answer_message k o) s).1 (v id)
      (write-Accounts id fails (answer_message k o) s (v id))
step-Accounts (closes why wire) s v id = close-Accounts id why wire s (v id)

run-Accounts :
    (es : List Event) (s : Client) → ((id : ℕ) → Accounts id s) → (id : ℕ) → Accounts id (run es s)
unfolding run
run-Accounts [] s v id = v id
run-Accounts (e ∷ es) s v id = run-Accounts es (step e s) (step-Accounts e s v) id

new-Accounts : (id : ℕ) → Accounts id new
unfolding new
new-Accounts id = record {
  total = ground arith;
  timed = refl;
  positive = omega arith;
  drained = λ c. refl;
}

-- After any calls, responses, timeouts, aborts and closings of a new client: a request that was
-- made is waiting, with one armed timeout, or has settled, and it settles only once.
run-new-Accounts : (es : List Event) (id : ℕ) → Accounts id (run es new)
run-new-Accounts es id = run-Accounts es new new-Accounts id

-- Once the client is closed, however that came about, every request that was ever made has settled
-- exactly once, and no timeout of it is left.
pub settled_once :
    (es : List Event) (id : ℕ)
    → (run es new).closed ≡ true
    → 1 ≤ id
    → id < (run es new).next_id
    → (in_settled id (run es new).settled ≡ 1) × (in_map id (run es new).timeouts ≡ 0)
settled_once es id shut low high =
    let v : Accounts id (run es new) = run-new-Accounts es id in
    (ground (arith, v.total, v.drained shut, low, high), ground (arith, v.timed, v.drained shut))
