-- ===== src/ChatApps/DeliveryWorker/AtMostOnce.antt =====
-- src/chat-apps/shared/delivery-worker.ts: an optional delivery is sent at most once.
use qiyan_bot.Prelude.{
  ℕ, ◌≤◌, ◌≡◌, refl, inl, inr, ap, ◌∙◌, String, str_eq, Bool, true, false, Option, none, some, List,
  [], ◌∷◌, arith, if◌then◌else◌, key-get, is_some, eq_iff, length, Bool-cases, Option-cases,
}
use qiyan_bot.Storage.Deliveries.Rows.{DeliveryRecord, id_of, find, is_ready, is_uncertain}
use qiyan_bot.Storage.Deliveries.{mark_dispatched, resume_uncertain, abandon_uncertain}
use qiyan_bot.ChatApps.DeliveryWorker.Warnings.{
  World, Deps, ChatDeliveryAdapter, Sending, receipt_of, raised, UncertainDeliveryResolution,
  resolved, resume_safe, unresolved, reconcile_threw, is_safe, notify, prepare_uncertain_warning,
  recovery_envelope,
}
use qiyan_bot.ChatApps.DeliveryWorker.{
  is_prepared_row, is_retried, send, after_error, settle_send, dispatch, reconcile, retry_uncertain,
  process_uncertain, process_found, process_one,
}
use qiyan_bot.ChatApps.DeliveryWorker.Calm.{
  facts, Calm, Calm-confirm, Calm-mark_dispatched, Calm-resume, facts-mark_prepared, dispatched_row,
}
use qiyan_bot.ChatApps.DeliveryWorker.Sends.{
  last_sends, Adds, Adds-send, sends-after_error, Calm-unsafe, Calm-after_other, store-safe,
  Calm-warned,
}

-- calls of `processOne` for any deliveries, one after the other; one that throws keeps its writes
unfoldable pub process_all : Deps → List (String × ℕ) → World → World
unfolding process_one
process_all deps [] w = w
process_all deps ((id, now) ∷ calls) w = process_all deps calls (process_one deps id now w).1

module _ (deps : Deps) (j a : String) (blind : (deps.adapters a).reconcile_uncertain ≡ none) where
  -- the delivery is optional, was sent at most once, and not at all while it is `prepared`
  Once : World → Type 0
  Once w =
      (facts (find j w.store) ≡ some (false, a))
      × (last_sends (deps.adapters a) j w ≤ 1)
      × (is_prepared_row (find j w.store) ≡ true → last_sends (deps.adapters a) j w ≡ 0)

  Once-Calm : (w u : World) → u.sends ≡ w.sends → Calm j w.store u.store → Once w → Once u
  unfolding Once Calm
  Once-Calm w u same calm h =
      let c = calm (false, a) h.0 in
      (c.0, ground (arith, same, h.1), λ p. ground (arith, same, h.2 (c.1 p)))

  Once-if :
      (b : Bool) (u v : World)
      → (b ≡ true → Once u)
      → (b ≡ false → Once v)
      → Once (if b then u else v)
  Once-if true u v h k = h refl
  Once-if false u v h k = k refl

  Once-settle_other :
      (mine : ChatDeliveryAdapter) (d : DeliveryRecord) (now : ℕ) (outcome : Sending) (w : World)
      → str_eq d.id j ≡ false
      → Once w
      → Once (settle_send mine d now outcome w).1
  unfolding settle_send
  Once-settle_other mine d now (receipt_of receipt) w other h =
      Once-Calm w _ refl (Calm-confirm j d.id receipt now w.store) h
  Once-settle_other mine d now (raised e) w other h =
      Once-Calm w _ (sends-after_error mine d e now w) (Calm-after_other j mine d e now w other) h

  -- the writes of `dispatch`, where the row was ready
  sent : ChatDeliveryAdapter → DeliveryRecord → String → ℕ → World → Sending × World
  sent mine d body now w =
      send deps mine d body (record w { store = (mark_dispatched d.id now w.store).1 })

  dispatch_lem :
      (mine : ChatDeliveryAdapter) (d : DeliveryRecord) (body : String) (now : ℕ) (w : World)
      → (dispatch deps mine d body now w).1 ≡ (
          if (mark_dispatched d.id now w.store).0
          then (settle_send mine d now (sent mine d body now w).0 (sent mine d body now w).1).1
          else w)
  unfolding dispatch sent
  dispatch_lem mine d body now w = ground arith

  Once-dispatch_other :
      (mine : ChatDeliveryAdapter) (d : DeliveryRecord) (body : String) (now : ℕ) (w : World)
      → str_eq d.id j ≡ false
      → Once w
      → Once (dispatch deps mine d body now w).1
  unfolding sent Once Adds
  Once-dispatch_other mine d body now w other h =
      let marked = record w { store = (mark_dispatched d.id now w.store).1 } in
      let before = Once-Calm w marked refl (Calm-mark_dispatched j d.id now w.store) h in
      let adds =
        Adds-send (deps.adapters a) mine j d (λ o same. absurd (ground arith)) deps body marked in
      let after : Once (sent mine d body now w).1 = (
        rw adds.0 before.0,
        ground (arith, adds.1, before.1),
        λ p. ground (arith, adds.0, adds.1, before.2),
      ) in
      rw (dispatch_lem mine d body now w) (elim (Bool-cases (mark_dispatched d.id now w.store).0) [
        | inl changed ↦ rw changed (
            Once-settle_other mine d now (sent mine d body now w).0 (sent mine d body now w).1 other
              after)
        | inr same ↦ rw same h
      ])

  -- the same for the delivery itself, which was `dispatched` just before
  Once-settle_own :
      (d : DeliveryRecord) (now : ℕ) (outcome : Sending) (w : World)
      → d.id ≡ j
      → facts (find j w.store) ≡ some (false, a)
      → is_prepared_row (find j w.store) ≡ false
      → last_sends (deps.adapters a) j w ≤ (if is_retried (deps.adapters a) outcome then 0 else 1)
      → Once (settle_send (deps.adapters a) d now outcome w).1
  unfolding settle_send Once Calm
  Once-settle_own d now (receipt_of receipt) w own h spent few =
      let c = Calm-confirm j d.id receipt now w.store (false, a) h in
      (c.0, few, λ p. absurd (ground (arith, c.1 p)))
  Once-settle_own d now (raised e) w own h spent few =
      elim (Bool-cases (is_safe (deps.adapters a) e)) [
        | inl safe ↦
            let few' : last_sends (deps.adapters a) j (after_error (deps.adapters a) d e now w)
                ≡ 0 =
              ground (arith, sends-after_error (deps.adapters a) d e now w) in
            (
              rw (store-safe (deps.adapters a) d e now w safe)
                  (facts-mark_prepared j d.id now w.store ∙ h),
              ground (arith, few'),
              λ p. few',
            )
        | inr unsafe ↦
            let c = Calm-unsafe j (deps.adapters a) d e now w unsafe (false, a) h in
            (
              c.0,
              ground (arith, sends-after_error (deps.adapters a) d e now w),
              λ p. absurd (ground (arith, c.1 p)),
            )
      ]

  Once-dispatch_own :
      (d : DeliveryRecord) (body : String) (now : ℕ) (w : World)
      → find j w.store ≡ some d
      → d.id ≡ j
      → is_prepared_row (some d) ≡ true
      → Once w
      → Once (dispatch deps (deps.adapters a) d body now w).1
  unfolding sent Once Adds Calm
  Once-dispatch_own d body now w found own ready h =
      let mine = deps.adapters a in
      let marked = record w { store = (mark_dispatched d.id now w.store).1 } in
      let before = Calm-mark_dispatched j d.id now w.store (false, a) h.0 in
      let adds = Adds-send mine mine j d (λ o same. refl) deps body marked in
      let none_yet : last_sends mine j w ≡ 0 = h.2 (ground (arith, found)) in
      rw (dispatch_lem mine d body now w) (elim (Bool-cases (mark_dispatched d.id now w.store).0) [
        | inl changed ↦ rw changed (
            Once-settle_own d now (sent mine d body now w).0 (sent mine d body now w).1 own
              (rw adds.0 before.0) (rw adds.0 (dispatched_row j d now w.store found own changed))
              (ground (arith, adds.1, none_yet)))
        | inr same ↦ rw same h
      ])

  Once-warned :
      (d : DeliveryRecord) (now : ℕ) (w : World)
      → Once w
      → Once (record w { store = prepare_uncertain_warning d now (abandon_uncertain d.id w.store) })
  Once-warned d now w h = Once-Calm w _ refl (Calm-warned j d now w.store) h

  retry_lem :
      (mine : ChatDeliveryAdapter) (d : DeliveryRecord) (now : ℕ) (w : World)
      → (retry_uncertain deps mine d now w).1 ≡ (
          if d.mandatory
          then (dispatch deps mine d (recovery_envelope deps.leading_space d.body d.id) now w).1
          else record w {
            store = prepare_uncertain_warning d now (abandon_uncertain d.id w.store);
          })
  unfolding retry_uncertain
  retry_lem mine d now w = ground arith

  Once-retry :
      (mine : ChatDeliveryAdapter) (d : DeliveryRecord) (now : ℕ) (w : World)
      → (d.mandatory ≡ true → str_eq d.id j ≡ false)
      → Once w
      → Once (retry_uncertain deps mine d now w).1
  Once-retry mine d now w other h = rw (retry_lem mine d now w) (
      Once-if d.mandatory _ _
        (λ m.
          Once-dispatch_other mine d (recovery_envelope deps.leading_space d.body d.id) now w
            (other m) h)
        (λ m. Once-warned d now w h))

  Once-reconcile :
      (answer : UncertainDeliveryResolution) (d : DeliveryRecord) (now : ℕ) (w : World)
      → str_eq d.id j ≡ false
      → Once w
      → Once (reconcile answer d now w).1
  unfolding reconcile
  Once-reconcile (resolved receipt) d now w other h =
      Once-Calm w _ refl (Calm-confirm j d.id receipt now w.store) h
  Once-reconcile resume_safe d now w other h =
      let resumed = notify d.id none (record w { store = (resume_uncertain d.id now w.store).1 }) in
      let calm = Once-Calm w resumed refl (Calm-resume j d.id now w.store other) h in
      elim (Bool-cases (resume_uncertain d.id now w.store).0) [
        | inl changed ↦ rw changed calm
        | inr same ↦ rw same h
      ]
  Once-reconcile unresolved d now w other h = h
  Once-reconcile reconcile_threw d now w other h = h

  Once-uncertain :
      (o : Option (ℕ → DeliveryRecord → UncertainDeliveryResolution)) (mine : ChatDeliveryAdapter)
      (d : DeliveryRecord) (now : ℕ) (w : World)
      → (d.mandatory ≡ true → str_eq d.id j ≡ false)
      → (is_some o ≡ true → str_eq d.id j ≡ false)
      → Once w
      → Once (process_uncertain o deps mine d now w).1
  unfolding process_uncertain
  Once-uncertain none mine d now w optional sighted h = Once-retry mine d now w optional h
  Once-uncertain (some look_up) mine d now w optional sighted h =
      Once-reconcile (look_up (length w.sends) d) d now w (sighted refl) h

  process_lem :
      (d : DeliveryRecord) (now : ℕ) (w : World)
      → (process_found deps (some d) now w).1 ≡ (
          if is_uncertain d.state
          then (process_uncertain
              (deps.adapters d.binding.adapter_id).reconcile_uncertain
              deps
              (deps.adapters d.binding.adapter_id)
              d
              now
              w).1
          else if is_ready d.state
          then (dispatch deps (deps.adapters d.binding.adapter_id) d d.body now w).1
          else w)
  unfolding process_found
  process_lem d now w = ground arith

  own_facts :
      (d : DeliveryRecord) (w : World)
      → find d.id w.store ≡ some d
      → str_eq d.id j ≡ true
      → Once w
      → (d.mandatory ≡ false) × (d.binding.adapter_id ≡ a)
  unfolding Once
  own_facts d w found same h =
      let mine : find j w.store ≡ some d = ground (arith, eq_iff d.id j) in
      (ground (arith, h.0), ground (arith, h.0))

  Once-dispatch_mine :
      (mine : ChatDeliveryAdapter) (d : DeliveryRecord) (now : ℕ) (w : World)
      → mine ≡ deps.adapters a
      → find d.id w.store ≡ some d
      → str_eq d.id j ≡ true
      → is_prepared_row (some d) ≡ true
      → Once w
      → Once (dispatch deps mine d d.body now w).1
  Once-dispatch_mine mine d now w e found same ready h = rw e (
      Once-dispatch_own d d.body now w (ground (arith, eq_iff d.id j))
        (ground (arith, eq_iff d.id j)) ready h)

  Once-dispatch :
      (d : DeliveryRecord) (now : ℕ) (w : World)
      → find d.id w.store ≡ some d
      → is_prepared_row (some d) ≡ true
      → Once w
      → Once (dispatch deps (deps.adapters d.binding.adapter_id) d d.body now w).1
  Once-dispatch d now w found ready h = elim (Bool-cases (str_eq d.id j)) [
    | inl same ↦
        Once-dispatch_mine (deps.adapters d.binding.adapter_id) d now w
          (ap deps.adapters (own_facts d w found same h).1) found same ready h
    | inr other ↦ Once-dispatch_other (deps.adapters d.binding.adapter_id) d d.body now w other h
  ]

  Once-found :
      (d : DeliveryRecord) (now : ℕ) (w : World)
      → find d.id w.store ≡ some d
      → Once w
      → Once (process_found deps (some d) now w).1
  Once-found d now w found h =
      let mine = deps.adapters d.binding.adapter_id in
      let own = own_facts d w found in
      rw (process_lem d now w) (
        Once-if (is_uncertain d.state) _ _
          (λ u.
            Once-uncertain mine.reconcile_uncertain mine d now w
              (λ m. elim (Bool-cases (str_eq d.id j)) [
                | inl same ↦ absurd (ground (arith, (own same h).0))
                | inr other ↦ other
              ])
              (λ sees. elim (Bool-cases (str_eq d.id j)) [
                | inl same ↦ absurd (
                    ground (
                      arith,
                      blind,
                      ap (λ x. is_some (deps.adapters x).reconcile_uncertain) (own same h).1,
                    ))
                | inr other ↦ other
              ])
              h)
          (λ u.
            Once-if (is_ready d.state) _ _ (λ r. Once-dispatch d now w found (ground arith) h)
              (λ r. h)))

  Once-process : (id : String) (now : ℕ) (w : World) → Once w → Once (process_one deps id now w).1
  unfolding process_one
  Once-process id now w h = elim (Option-cases (find id w.store)) [
    | inl missing ↦ rw missing (unfold process_found in h)
    | inr (d, found) ↦ rw found (
        Once-found d now w
          (ap (λ k. find k w.store) (key-get id_of id d w.store.deliveries found) ∙ found) h)
  ]

  Once-all : (calls : List (String × ℕ)) (w : World) → Once w → Once (process_all deps calls w)
  unfolding process_all
  Once-all [] w h = h
  Once-all ((id, now) ∷ calls) w h =
      Once-all calls (process_one deps id now w).1 (Once-process id now w h)

-- An optional delivery whose adapter cannot look up an uncertain one, and that was not sent so far,
-- is sent at most once by any number of calls of `processOne`, for it and for other deliveries: at
-- most one of its sends was confirmed or ended in an error after which a retry is not safe.
pub sent_once :
    (deps : Deps) (j a : String) (calls : List (String × ℕ)) (w : World)
    → (deps.adapters a).reconcile_uncertain ≡ none
    → facts (find j w.store) ≡ some (false, a)
    → last_sends (deps.adapters a) j w ≡ 0
    → last_sends (deps.adapters a) j (process_all deps calls w) ≤ 1
unfolding Once
sent_once deps j a calls w blind optional unsent = (Once-all deps j a blind calls w start).1
  where
    start : Once deps j a blind w
    start = (optional, ground (arith, unsent), λ p. unsent)
