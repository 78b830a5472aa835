-- ===== src/ChatApps/DeliveryWorker/Sends.antt =====
-- src/chat-apps/shared/delivery-worker.ts: what one send adds to the log, and where a
-- send that failed leaves the delivery's row.
use qiyan_bot.Prelude.{
  count-append, ℕ, ◌+◌, ◌≤◌, zero, suc, ◌≡◌, refl, inl, inr, String, str_eq, Bool, true, false, not,
  ◌&&◌, Option, arith, if◌then◌else◌, is_some, count, length, Bool-cases, Option-cases,
}
use qiyan_bot.Storage.Deliveries.Rows.{DeliveryStore, DeliveryRecord}
use qiyan_bot.Storage.Deliveries.{
  fail_in_transaction, abandon_uncertain, mark_prepared, mark_uncertain,
}
use qiyan_bot.ChatApps.DeliveryWorker.Warnings.{
  World, Deps, ChatDeliveryAdapter, SendLog, SendError, Sending, raised, is_safe, logged,
  prepare_uncertain_warning,
}
use qiyan_bot.ChatApps.DeliveryWorker.{
  is_retried, is_given, error_in, not_configured, send_document_times, send_attachment, send,
  after_error,
}
use qiyan_bot.ChatApps.DeliveryWorker.Calm.{
  Calm, Calm-trans, Calm-fail, Calm-mark_uncertain, Calm-abandon, Calm-warning, Calm-mark_prepared,
}

-- a send of the delivery after which the adapter does not allow another one: it was confirmed, or
-- the message may have arrived
abbrev pub is_last_send : ChatDeliveryAdapter → String → SendLog → Bool
is_last_send adapter j l = str_eq l.delivery j && not (is_retried adapter l.outcome)

abbrev pub last_sends : ChatDeliveryAdapter → String → World → ℕ
last_sends adapter j w = count (is_last_send adapter j) w.sends

-- `mine` sends `d`; where `d` is the delivery that is counted, it retries as `adapter` does
module _ (adapter mine : ChatDeliveryAdapter) (j : String) (d : DeliveryRecord)
    (agree : (o : Sending) → str_eq d.id j ≡ true → is_retried mine o ≡ is_retried adapter o) where
  -- what a send adds to the count
  unfoldable pub Adds : World → Sending × World → Type 0
  Adds w r =
      (r.1.store ≡ w.store)
      × (last_sends adapter j r.1
          ≤ last_sends adapter j w
            + (if str_eq d.id j && not (is_retried adapter r.0) then 1 else 0))

  Adds-logged :
      (body : String) (outcome : Sending) (w : World) → Adds w (outcome, logged d body outcome w)
  unfolding Adds
  Adds-logged body outcome w = (
    refl,
    ground (
      arith,
      count-append (is_last_send adapter j)
          (record { delivery = d.id; sent_body = body; outcome = outcome }) w.sends,
    ),
  )

  Adds-times :
      (n : ℕ) (sender : ℕ → DeliveryRecord → String → Sending) (upload : ℕ → Option SendError)
      (body : String) (last : SendError) (w : World)
      → Adds w (send_document_times n mine sender upload d body last w)
  unfolding send_document_times Adds
  Adds-times zero sender upload body last w = (refl, ground arith)
  Adds-times (suc n) sender upload body last w =
      let outcome = sender (length w.sends) d body in
      let rest =
        Adds-times n sender upload body (error_in last outcome) (logged d body outcome w) in
      let here = Adds-logged body outcome w in
      (ground (arith, rest.0), ground (arith, rest.1, here.1, agree outcome))

  Adds-nothing : (e : SendError) (w : World) → Adds w (raised e, w)
  unfolding Adds
  Adds-nothing e w = (refl, ground arith)

  Adds-attachment :
      (deps : Deps) (body : String) (w : World) → Adds w (send_attachment deps mine d body w)
  unfolding send_attachment is_safe Adds
  Adds-attachment deps body w = elim (Option-cases deps.open_for_upload) [
    | inl missing ↦ rw missing (Adds-nothing not_configured w)
    | inr (upload, found) ↦ elim (Option-cases mine.send_document) [
      | inl missing ↦ rw (found, missing) (Adds-nothing not_configured w)
      | inr (sender, able) ↦ elim (Bool-cases (is_given d.attachment_scope_id)) [
        | inl given ↦ rw (found, able, given) (Adds-times 4 sender upload body not_configured w)
        | inr none_given ↦ rw (found, able, none_given) (Adds-nothing not_configured w)
      ]
    ]
  ]

  pub Adds-send : (deps : Deps) (body : String) (w : World) → Adds w (send deps mine d body w)
  unfolding send
  Adds-send deps body w = elim (Bool-cases (is_given d.attachment_id)) [
    | inl attached ↦ rw attached (Adds-attachment deps body w)
    | inr plain ↦ rw plain (Adds-logged body (mine.send_message (length w.sends) d body) w)
  ]

-- the `catch` branch keeps a delivery from being sent anew, unless the adapter says that it is safe
pub sends-after_error :
    (adapter : ChatDeliveryAdapter) (d : DeliveryRecord) (e : SendError) (now : ℕ) (w : World)
    → (after_error adapter d e now w).sends ≡ w.sends
unfolding after_error
sends-after_error adapter d e now w = ground arith

pub Calm-warned :
    (j : String) (d : DeliveryRecord) (now : ℕ) (s : DeliveryStore)
    → Calm j s (prepare_uncertain_warning d now (abandon_uncertain d.id s))
Calm-warned j d now s =
    Calm-trans j s (abandon_uncertain d.id s)
      (prepare_uncertain_warning d now (abandon_uncertain d.id s)) (Calm-abandon j d.id s)
      (Calm-warning j d now (abandon_uncertain d.id s))

module _ (adapter : ChatDeliveryAdapter) (d : DeliveryRecord) (e : SendError) (now : ℕ) where
  pub store-safe :
      (w : World)
      → is_safe adapter e ≡ true
      → (after_error adapter d e now w).store ≡ mark_prepared d.id now w.store
  unfolding after_error
  store-safe w safe = ground arith

module _ (j : String) (adapter : ChatDeliveryAdapter) (d : DeliveryRecord) (e : SendError)
    (now : ℕ) where
  Calm-if :
      (b : Bool) (s t u : DeliveryStore) → Calm j s t → Calm j s u → Calm j s (if b then t else u)
  Calm-if true s t u h k = h
  Calm-if false s t u h k = k

  pub Calm-unsafe :
      (w : World) → is_safe adapter e ≡ false → Calm j w.store (after_error adapter d e now w).store
  unfolding after_error
  Calm-unsafe w unsafe =
      let s = w.store in
      let moved =
        if e.is_deterministic
        then (fail_in_transaction d.id now s).1
        else mark_uncertain d.id now s in
      let calm : Calm j s moved =
        Calm-if e.is_deterministic s (fail_in_transaction d.id now s).1 (mark_uncertain d.id now s)
          (Calm-fail j d.id now s) (Calm-mark_uncertain j d.id now s) in
      let warned = prepare_uncertain_warning d now (abandon_uncertain d.id moved) in
      rw unsafe (
        Calm-if (not d.mandatory && true && not (is_some adapter.reconcile_uncertain)) s warned
          moved (Calm-trans j s moved warned calm (Calm-warned j d now moved)) calm)

  pub Calm-after_other :
      (w : World) → str_eq d.id j ≡ false → Calm j w.store (after_error adapter d e now w).store
  Calm-after_other w other = elim (Bool-cases (is_safe adapter e)) [
    | inl safe ↦
        rw (store-safe adapter d e now w safe) (Calm-mark_prepared j d.id now w.store other)
    | inr unsafe ↦ Calm-unsafe w unsafe
  ]
