-- ===== src/ChatApps/DeliveryWorker/Calm.antt =====
-- src/chat-apps/shared/delivery-worker.ts and src/storage/delivery-store.ts: writes that never make a
-- delivery ready to send as if it were new.
use qiyan_bot.Prelude.{
  ℕ, ◌+◌, ◌≡◌, refl, inl, inr, ◌∙◌, String, str_eq, Bool, true, false, not, Option, none, some,
  arith, get-append, eq_iff, Bool-cases, Option-cases,
}
use qiyan_bot.Storage.Deliveries.Rows.{
  DeliveryStore, DeliveryRecord, NewDelivery, id_of, find, update, updates, is_settled, is_ready,
  prepared, dispatched, is_uncertain,
}
use qiyan_bot.Storage.Deliveries.{
  prepare, prepare_found, insert, mark_dispatched, confirm, fail_in_transaction, resume_uncertain,
  abandon_uncertain, mark_prepared, mark_uncertain, release_attachment_once,
}
use qiyan_bot.Storage.Deliveries.Calls.{find-update, find-release, fail_lem}
use qiyan_bot.ChatApps.DeliveryWorker.Warnings.{prepare_uncertain_warning, warning_id, warning_of}
use qiyan_bot.ChatApps.DeliveryWorker.{is_prepared_row}

-- what the worker's choices read of a row, its state apart
abbrev pub facts : Option DeliveryRecord → Option (Bool × String)
facts none = none
facts (some d) = some (d.mandatory, d.binding.adapter_id)

-- a delivery that is there stays, with its facts, and does not become `prepared`
unfoldable pub Calm : String → DeliveryStore → DeliveryStore → Type 0
Calm j s t =
    (x : Bool × String)
    → facts (find j s) ≡ some x
    → (facts (find j t) ≡ some x)
      × (is_prepared_row (find j t) ≡ true → is_prepared_row (find j s) ≡ true)

module _ (j : String) where
  pub Calm-refl : (s : DeliveryStore) → Calm j s s
  unfolding Calm
  Calm-refl s x h = (h, λ p. p)

  pub Calm-trans : (s t u : DeliveryStore) → Calm j s t → Calm j t u → Calm j s u
  unfolding Calm
  Calm-trans s t u h k x e = ((k x (h x e).0).0, λ p. (h x e).1 ((k x (h x e).0).1 p))

  pub Calm-same : (s t : DeliveryStore) → find j t ≡ find j s → Calm j s t
  unfolding Calm
  Calm-same s t e x h = rw e (h, λ p. p)

  Calm-update :
      (id : String) (guard : DeliveryRecord → Bool) (f : DeliveryRecord → DeliveryRecord)
      (s : DeliveryStore)
      → ((d : DeliveryRecord) → (f d).id ≡ d.id)
      → ((d : DeliveryRecord) → facts (some (f d)) ≡ facts (some d))
      → ((d : DeliveryRecord)
          → guard d ≡ true
          → is_prepared_row (some (f d)) ≡ true
          → is_prepared_row (some d) ≡ true)
      → Calm j s (update id guard f s)
  unfolding Calm
  Calm-update id guard f s same keeps calm x h = elim (Option-cases (find j s)) [
    | inl missing ↦ absurd (ground arith)
    | inr (d, found) ↦ (
      ground (arith, eq_iff id j, find-update j id guard f s same, keeps d),
      λ p. ground (arith, eq_iff id j, find-update j id guard f s same, calm d),
    )
  ]

  Calm-release : (id : String) (s : DeliveryStore) → Calm j s (release_attachment_once id s)
  Calm-release id s = Calm-same s (release_attachment_once id s) (find-release j id s)

  Calm-settle :
      (id : String) (f : DeliveryRecord → DeliveryRecord) (s : DeliveryStore)
      → ((d : DeliveryRecord) → (f d).id ≡ d.id)
      → ((d : DeliveryRecord) → facts (some (f d)) ≡ facts (some d))
      → ((d : DeliveryRecord) → is_prepared_row (some (f d)) ≡ false)
      → Calm j s (release_attachment_once id (update id (λ _. true) f s))
  Calm-settle id f s same keeps moved =
      Calm-trans s (update id (λ _. true) f s)
        (release_attachment_once id (update id (λ _. true) f s))
        (Calm-update id (λ _. true) f s same keeps (λ d g p. absurd (ground (arith, moved d))))
        (Calm-release id (update id (λ _. true) f s))

  pub Calm-confirm :
      (id receipt : String) (now : ℕ) (s : DeliveryStore) → Calm j s (confirm id receipt now s)
  unfolding confirm
  Calm-confirm id receipt now s = elim (Bool-cases (updates id (λ d. not (is_settled d.state)) s)) [
    | inl live ↦ rw live (Calm-settle id _ s (λ d. refl) (λ d. refl) (λ d. refl))
    | inr closed ↦ rw closed (Calm-refl s)
  ]

  pub Calm-fail :
      (id : String) (now : ℕ) (s : DeliveryStore) → Calm j s (fail_in_transaction id now s).1
  Calm-fail id now s =
      rw (fail_lem id now s) (elim (Bool-cases (updates id (λ d. not (is_settled d.state)) s)) [
        | inl live ↦ rw live (Calm-settle id _ s (λ d. refl) (λ d. refl) (λ d. refl))
        | inr closed ↦ rw closed (Calm-refl s)
      ])

  pub Calm-mark_uncertain :
      (id : String) (now : ℕ) (s : DeliveryStore) → Calm j s (mark_uncertain id now s)
  unfolding mark_uncertain
  Calm-mark_uncertain id now s =
      Calm-update id _ _ s (λ d. refl) (λ d. refl) (λ d g p. absurd (ground arith))

  pub Calm-mark_dispatched :
      (id : String) (now : ℕ) (s : DeliveryStore) → Calm j s (mark_dispatched id now s).1
  unfolding mark_dispatched
  Calm-mark_dispatched id now s =
      Calm-update id _ _ s (λ d. refl) (λ d. refl) (λ d g p. absurd (ground arith))

  pub Calm-abandon : (id : String) (s : DeliveryStore) → Calm j s (abandon_uncertain id s)
  unfolding abandon_uncertain
  Calm-abandon id s = elim (Bool-cases (updates id (λ d. is_uncertain d.state) s)) [
    | inl live ↦ rw live (Calm-release id s)
    | inr closed ↦ rw closed (Calm-refl s)
  ]

  Calm-prepare :
      (id : String) (input : NewDelivery) (now : ℕ) (s : DeliveryStore)
      → Calm j s (prepare id input now s).1
  unfolding prepare Calm
  Calm-prepare id input now s = elim (Option-cases (find id s)) [
    | inl missing ↦ rw missing (inserted missing)
    | inr (d, found) ↦ rw found (unfold prepare_found in Calm-refl s)
  ]
    where
      inserted : find id s ≡ none → Calm j s (prepare_found none id input now s).1
      inserted missing x h =
          unfold Calm prepare_found insert in
          let kept : find j (insert id input now s).1 ≡ find j s =
            ground (arith, get-append id_of j (insert id input now s).0 s.deliveries) in
          Calm-same s (insert id input now s).1 kept x h

  pub Calm-warning :
      (d : DeliveryRecord) (now : ℕ) (s : DeliveryStore)
      → Calm j s (prepare_uncertain_warning d now s)
  unfolding prepare_uncertain_warning
  Calm-warning d now s = Calm-prepare (warning_id d.id) (warning_of d) now s

  -- a row of another delivery may be written in any way
  Calm-other :
      (id : String) (guard : DeliveryRecord → Bool) (f : DeliveryRecord → DeliveryRecord)
      (s : DeliveryStore)
      → ((d : DeliveryRecord) → (f d).id ≡ d.id)
      → str_eq id j ≡ false
      → Calm j s (update id guard f s)
  Calm-other id guard f s same other =
      Calm-same s (update id guard f s) (find-update j id guard f s same ∙ rw other refl)

  pub Calm-mark_prepared :
      (id : String) (now : ℕ) (s : DeliveryStore)
      → str_eq id j ≡ false
      → Calm j s (mark_prepared id now s)
  unfolding mark_prepared
  Calm-mark_prepared id now s other = Calm-other id _ _ s (λ d. refl) other

  pub Calm-resume :
      (id : String) (now : ℕ) (s : DeliveryStore)
      → str_eq id j ≡ false
      → Calm j s (resume_uncertain id now s).1
  unfolding resume_uncertain
  Calm-resume id now s other = Calm-other id _ _ s (λ d. refl) other

  pub facts-mark_prepared :
      (id : String) (now : ℕ) (s : DeliveryStore)
      → facts (find j (mark_prepared id now s)) ≡ facts (find j s)
  unfolding mark_prepared
  facts-mark_prepared id now s = elim (Option-cases (find j s)) [
    | inl missing ↦ ground (
      arith,
      eq_iff id j,
      find-update j id (λ _. true) (λ d. record d { state = prepared; updated_at = now }) s
          (λ d. refl),
    )
    | inr (d, found) ↦ ground (
      arith,
      eq_iff id j,
      find-update j id (λ _. true) (λ d. record d { state = prepared; updated_at = now }) s
          (λ d. refl),
    )
  ]

  -- a row that is dispatched is not `prepared` any more
  pub dispatched_row :
      (d : DeliveryRecord) (now : ℕ) (s : DeliveryStore)
      → find j s ≡ some d
      → d.id ≡ j
      → (mark_dispatched d.id now s).0 ≡ true
      → is_prepared_row (find j (mark_dispatched d.id now s).1) ≡ false
  unfolding mark_dispatched
  dispatched_row d now s found own changed = ground (
    arith,
    eq_iff d.id j,
    find-update j d.id (λ d. is_ready d.state)
        (λ d. record d {
          state = dispatched;
          attempt_count = d.attempt_count + 1;
          updated_at = now;
        })
        s (λ d. refl),
  )
