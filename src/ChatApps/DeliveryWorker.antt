-- ===== src/ChatApps/DeliveryWorker.antt =====
-- src/chat-apps/shared/delivery-worker.ts: `processOne`, which sends a delivery through its chat
-- adapter and settles it, and `drain`. A chat adapter and the attachment store are arguments; their
-- answers may depend on the number of sends made so far. The sends are a log, and so are the two
-- callbacks. No other code writes the delivery's row while a send is awaited.
pub mod Warnings
pub mod Wakeups
pub mod Calm
pub mod Sends
pub mod AtMostOnce
mod Tests
use text.Mathlib.Text.{get?, find?, starts_with}
use Prim.Native.String.{len, ◌++◌ as str_append}
use qiyan_bot.Core.{ErrorCode, Result, ok, app_error, error, delivery_uncertain, attachment_invalid}
use qiyan_bot.Prelude.{
  ℕ, ◌+◌, zero, suc, String, str_eq, Bool, true, false, not, ◌&&◌, ◌||◌, Option, none, some, List,
  [], ◌∷◌, ◌++◌, if◌then◌else◌, ◌==◌, ltb, or_else, is_some, length,
}
use qiyan_bot.Storage.Deliveries.Rows.{
  DeliveryRecord, DeliveryState, DeliveryStore, NewDelivery, prepared, uncertain, is_ready,
  is_uncertain, find,
}
use qiyan_bot.Storage.Deliveries.{
  prepare, mark_dispatched, confirm, fail_in_transaction, mark_uncertain, resume_uncertain,
  abandon_uncertain, mark_prepared, list_ready,
}
use qiyan_bot.ChatApps.DeliveryWorker.Warnings.{
  ChatDeliveryAdapter, Deps, SendError, SendLog, Sending, UncertainDeliveryResolution, World,
  is_safe, logged, notify, notify_operational_failure, prepare_uncertain_warning, raised,
  receipt_of, reconcile_threw, recovery_envelope, resolved, resume_safe, split_head, thrown,
  unresolved, warning_id, warning_of,
}

abbrev pub is_retried : ChatDeliveryAdapter → Sending → Bool
is_retried adapter (receipt_of receipt) = false
is_retried adapter (raised e) = is_safe adapter e

abbrev pub error_in : SendError → Sending → SendError
error_in last (receipt_of receipt) = last
error_in last (raised e) = e

-- the loop of `sendAttachment`, with the attempts that are left; `adapter.sendDocument` is `send`
unfoldable pub send_document_times :
    ℕ
    → ChatDeliveryAdapter
    → (ℕ → DeliveryRecord → String → Sending)
    → (ℕ → Option SendError)
    → DeliveryRecord
    → String
    → SendError
    → World
    → Sending × World
send_document_times zero adapter send upload d body last w = (raised last, w)
send_document_times (suc n) adapter send upload d body last w =
    let refusal = upload (length w.sends) in
    let outcome = send (length w.sends) d body in
    let rest =
      send_document_times n adapter send upload d body (error_in last outcome)
        (logged d body outcome w) in
    if is_some refusal
    then (raised (or_else refusal last), w)
    else if is_retried adapter outcome && ltb 0 n
    then rest
    else (outcome, logged d body outcome w)

abbrev pub not_configured : SendError
not_configured = record {
  code = some attachment_invalid;
  is_rate_limit = false;
  is_deterministic = false;
}

-- an empty identifier is as good as none
abbrev pub is_given : Option String → Bool
is_given none = false
is_given (some text) = not (str_eq text "")

unfoldable pub send_attachment :
    Deps → ChatDeliveryAdapter → DeliveryRecord → String → World → Sending × World
unfolding send_document_times
send_attachment deps adapter d body w = configured deps.open_for_upload adapter.send_document
  where
    configured :
        Option (ℕ → Option SendError)
        → Option (ℕ → DeliveryRecord → String → Sending)
        → Sending × World
    configured (some upload) (some send) =
        if is_given d.attachment_scope_id
        then send_document_times 4 adapter send upload d body not_configured w
        else (raised not_configured, w)
    configured none send = (raised not_configured, w)
    configured (some upload) none = (raised not_configured, w)

unfoldable pub send : Deps → ChatDeliveryAdapter → DeliveryRecord → String → World → Sending × World
unfolding send_attachment
send deps adapter d body w =
    if is_given d.attachment_id
    then send_attachment deps adapter d body w
    else let outcome = adapter.send_message (length w.sends) d body in
      (outcome, logged d body outcome w)

-- the `catch` of `processOne`: where the row goes, then the warning, then the callbacks
unfoldable pub after_error : ChatDeliveryAdapter → DeliveryRecord → SendError → ℕ → World → World
unfolding is_safe prepare_uncertain_warning
after_error adapter d e now w =
    let safe = is_safe adapter e in
    let s = w.store in
    let moved =
      if safe
      then mark_prepared d.id now s
      else if e.is_deterministic
      then (fail_in_transaction d.id now s).1
      else mark_uncertain d.id now s in
    let warned =
      if not d.mandatory && not safe && not (is_some adapter.reconcile_uncertain)
      then prepare_uncertain_warning d now (abandon_uncertain d.id moved)
      else moved in
    let told = notify_operational_failure d.id (record w { store = warned }) in
    if safe then told else notify d.id (some e) told

unfoldable pub settle_send :
    ChatDeliveryAdapter → DeliveryRecord → ℕ → Sending → World → Result (Unit {0}) × World
unfolding after_error
settle_send adapter d now (receipt_of receipt) w =
    (ok tt, notify d.id none (record w { store = confirm d.id receipt now w.store }))
settle_send adapter d now (raised e) w = (thrown e, after_error adapter d e now w)

-- markDispatched, the send and what becomes of it
unfoldable pub dispatch :
    Deps → ChatDeliveryAdapter → DeliveryRecord → String → ℕ → World → Result (Unit {0}) × World
unfolding send settle_send
dispatch deps adapter d body now w =
    let (changed, store) = mark_dispatched d.id now w.store in
    let (outcome, sent) = send deps adapter d body (record w { store = store }) in
    if changed then settle_send adapter d now outcome sent else (ok tt, w)

-- an uncertain delivery whose adapter can look it up
unfoldable pub reconcile :
    UncertainDeliveryResolution → DeliveryRecord → ℕ → World → Result (Unit {0}) × World
reconcile (resolved receipt) d now w =
    (ok tt, notify d.id none (record w { store = confirm d.id receipt now w.store }))
reconcile resume_safe d now w =
    let (resumed, store) = resume_uncertain d.id now w.store in
    if resumed
    then (ok tt, notify d.id none (record w { store = store }))
    else (app_error delivery_uncertain, w)
reconcile unresolved d now w = (app_error delivery_uncertain, w)
reconcile reconcile_threw d now w = (error, w)

-- an uncertain delivery whose adapter cannot
unfoldable pub retry_uncertain :
    Deps → ChatDeliveryAdapter → DeliveryRecord → ℕ → World → Result (Unit {0}) × World
unfolding dispatch recovery_envelope prepare_uncertain_warning
retry_uncertain deps adapter d now w =
    if d.mandatory
    then dispatch deps adapter d (recovery_envelope deps.leading_space d.body d.id) now w
    else (
      app_error delivery_uncertain,
      record w { store = prepare_uncertain_warning d now (abandon_uncertain d.id w.store) },
    )

unfoldable pub process_uncertain :
    Option (ℕ → DeliveryRecord → UncertainDeliveryResolution)
    → Deps
    → ChatDeliveryAdapter
    → DeliveryRecord
    → ℕ
    → World
    → Result (Unit {0}) × World
unfolding reconcile retry_uncertain
process_uncertain (some look_up) deps adapter d now w =
    reconcile (look_up (length w.sends) d) d now w
process_uncertain none deps adapter d now w = retry_uncertain deps adapter d now w

unfoldable pub process_found : Deps → Option DeliveryRecord → ℕ → World → Result (Unit {0}) × World
unfolding process_uncertain dispatch
process_found deps none now w = (ok tt, w)
process_found deps (some d) now w =
    let adapter = deps.adapters d.binding.adapter_id in
    if is_uncertain d.state
    then process_uncertain adapter.reconcile_uncertain deps adapter d now w
    else if is_ready d.state
    then dispatch deps adapter d d.body now w
    else (ok tt, w)

unfoldable pub process_one : Deps → String → ℕ → World → Result (Unit {0}) × World
unfolding process_found
process_one deps id now w = process_found deps (find id w.store) now w

abbrev pub is_prepared_row : Option DeliveryRecord → Bool
is_prepared_row none = false
is_prepared_row (some d) = is_ready d.state && not (is_uncertain d.state)

-- what the loop of `drain` does after a delivery: go on, send the warning, or stop
unfoldable pub after_one : Deps → String → ℕ → Result (Unit {0}) × World → Result (Unit {0}) × World
unfolding process_one
after_one deps id now (ok _, w) = (ok tt, w)
after_one deps id now (error, w) = (error, w)
after_one deps id now (app_error delivery_uncertain, w) =
    if is_prepared_row (find (warning_id id) w.store)
    then process_one deps (warning_id id) now w
    else (ok tt, w)
after_one deps id now (app_error code, w) = (app_error code, w)

unfoldable pub drain_next :
    Result (Unit {0}) × World → (World → Result (Unit {0}) × World) → Result (Unit {0}) × World
drain_next (ok _, w) rest = rest w
drain_next (error, w) rest = (error, w)
drain_next (app_error code, w) rest = (app_error code, w)

unfoldable pub drain_list : Deps → List DeliveryRecord → ℕ → World → Result (Unit {0}) × World
unfolding after_one drain_next process_one
drain_list deps [] now w = (ok tt, w)
drain_list deps (d ∷ ds) now w =
    drain_next (after_one deps d.id now (process_one deps d.id now w))
      (λ w'. drain_list deps ds now w')

unfoldable pub drain : Deps → ℕ → World → Result (Unit {0}) × World
unfolding drain_list list_ready
drain deps now w = drain_list deps (list_ready w.store) now w
