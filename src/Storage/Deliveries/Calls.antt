-- ===== src/Storage/Deliveries/Calls.antt =====
-- src/storage/delivery-store.ts: the guarded writes as calls in any order, and what they leave of a
-- delivery that has settled.
use qiyan_bot.Prelude.{
  ℕ, ◌≡◌, refl, String, str_eq, Bool, true, false, not, Option, none, some, List, [], ◌∷◌, map,
  arith, if◌then◌else◌, get, get-modify, get-append, eq_iff, written, Bool-cases, Option-cases, inl,
  inr, ap, ◌∙◌, ◌&&◌,
}
use qiyan_bot.Storage.Deliveries.Rows.{
  DeliveryStore, DeliveryRecord, NewDelivery, id_of, find, update, updates, is_settled, is_ready,
  is_uncertain, DeliveryState, failed,
}
use qiyan_bot.Storage.Deliveries.{
  prepare, prepare_found, insert, append_to_body, mark_dispatched, confirm, fail_in_transaction,
  resume_uncertain, abandon_uncertain, recover_after_crash, recover_row, release_attachment_once,
  release_row, release_handle, prepare_attachment, prepare_attachment_found, mark_uncertain,
  mark_prepared,
}

-- every call that writes the table
pub data Call : Type 0 where
  call_prepare : String → NewDelivery → Call
  call_prepare_attachment : String → NewDelivery → String → String → Call
  call_append call_confirm : String → String → Call
  call_dispatch call_fail call_resume call_abandon : String → Call
  call_recover : Call
  call_uncertain call_prepared : String → Call

-- `mark_uncertain` and `mark_prepared` take a settled row too: they are not called for this one
abbrev pub spares : String → Call → Bool
spares j (call_uncertain id) = not (str_eq id j)
spares j (call_prepared id) = not (str_eq id j)
spares j _ = true

abbrev pub all_spare : String → List (ℕ × Call) → Bool
all_spare j [] = true
all_spare j ((now, call) ∷ calls) = spares j call && all_spare j calls

unfoldable pub step : ℕ → Call → DeliveryStore → DeliveryStore
step now (call_prepare id input) s = (prepare id input now s).1
step now (call_append id suffix) s = append_to_body id suffix now s
step now (call_confirm id receipt) s = confirm id receipt now s
step now (call_dispatch id) s = (mark_dispatched id now s).1
step now (call_fail id) s = (fail_in_transaction id now s).1
step now (call_resume id) s = (resume_uncertain id now s).1
step now (call_abandon id) s = abandon_uncertain id s
step now call_recover s = recover_after_crash now s
step now (call_prepare_attachment id input handle scope_id) s =
    (prepare_attachment id input handle scope_id now s).1
step now (call_uncertain id) s = mark_uncertain id now s
step now (call_prepared id) s = mark_prepared id now s

unfoldable pub run : List (ℕ × Call) → DeliveryStore → DeliveryStore
unfolding step
run [] s = s
run ((now, call) ∷ calls) s = run calls (step now call s)

abbrev pub state_of : Option DeliveryRecord → Option DeliveryState
state_of none = none
state_of (some d) = some d.state

pub deliveries-release :
    (id : String) (s : DeliveryStore) → (release_attachment_once id s).deliveries ≡ s.deliveries
unfolding release_attachment_once
deliveries-release id s = release_row_same (find id s)
  where
    release_handle_same : (h : Option String) → (release_handle id h s).deliveries ≡ s.deliveries
    release_handle_same none = unfold release_handle in refl
    release_handle_same (some h) = unfold release_handle in ground arith

    release_row_same : (o : Option DeliveryRecord) → (release_row id o s).deliveries ≡ s.deliveries
    release_row_same none = unfold release_row in refl
    release_row_same (some d) = unfold release_row in release_handle_same d.attachment_id

pub fail_lem :
    (id : String) (now : ℕ) (s : DeliveryStore)
    → (fail_in_transaction id now s).1 ≡ (
        if updates id (λ d. not (is_settled d.state)) s
        then release_attachment_once id
            (update id (λ _. true) (λ d. record d { state = failed; updated_at = now }) s)
        else s)
unfolding fail_in_transaction
fail_lem id now s = ground arith

pub find-update :
    (j id : String) (guard : DeliveryRecord → Bool) (f : DeliveryRecord → DeliveryRecord)
    (s : DeliveryStore)
    → ((d : DeliveryRecord) → (f d).id ≡ d.id)
    → find j (update id guard f s) ≡ (if str_eq id j then written guard f (find id s) else find j s)
find-update j id guard f s h = get-modify id_of j id guard f s.deliveries h

-- an update that leaves the state of the rows it writes alone where they have settled
settled-update :
    (j id : String) (guard : DeliveryRecord → Bool) (f : DeliveryRecord → DeliveryRecord)
    (s : DeliveryStore) (st : DeliveryState)
    → ((d : DeliveryRecord) → (f d).id ≡ d.id)
    → ((d : DeliveryRecord) → guard d ≡ true → is_settled d.state ≡ true → (f d).state ≡ d.state)
    → is_settled st ≡ true
    → state_of (find j s) ≡ some st
    → state_of (find j (update id guard f s)) ≡ some st
settled-update j id guard f s st same keeps settled h = elim (Option-cases (find j s)) [
  | inl missing ↦ absurd (ground arith)
  | inr (d, found) ↦ ground (arith, eq_iff id j, find-update j id guard f s same, keeps d)
]

settled-recover_rows :
    (j : String) (now : ℕ) (rows : List DeliveryRecord) (st : DeliveryState)
    → is_settled st ≡ true
    → state_of (get id_of j rows) ≡ some st
    → state_of (get id_of j (map (recover_row now) rows)) ≡ some st
unfolding get recover_row
settled-recover_rows j now [] st settled h = absurd (ground arith)
settled-recover_rows j now (r ∷ rows) st settled h = elim (Bool-cases (str_eq r.id j)) [
  | inl same ↦ ground arith
  | inr other ↦ ground (arith, settled-recover_rows j now rows st settled)
]

settled-prepare :
    (j id : String) (input : NewDelivery) (now : ℕ) (s : DeliveryStore) (st : DeliveryState)
    → state_of (find j s) ≡ some st
    → state_of (find j (prepare id input now s).1) ≡ some st
unfolding prepare
settled-prepare j id input now s st h = elim (Option-cases (find id s)) [
  | inl missing ↦ rw missing (
      unfold prepare_found insert in
      ground (arith, get-append id_of j (insert id input now s).0 s.deliveries))
  | inr (d, found) ↦ rw found (unfold prepare_found in h)
]

settled-prepare_attachment_found :
    (o : Option DeliveryRecord) (j id : String) (input : NewDelivery) (handle scope_id : String)
    (now : ℕ) (s : DeliveryStore) (st : DeliveryState)
    → state_of (find j s) ≡ some st
    → state_of (find j (prepare_attachment_found o id input handle scope_id now s).1) ≡ some st
unfolding prepare_attachment_found insert
settled-prepare_attachment_found (some d) j id input handle scope_id now s st h = h
settled-prepare_attachment_found none j id input handle scope_id now s st h =
    ground (arith, get-append id_of j (insert id input now s).0 s.deliveries)

-- an update of another row
other_update :
    (j id : String) (guard : DeliveryRecord → Bool) (f : DeliveryRecord → DeliveryRecord)
    (s : DeliveryStore)
    → ((d : DeliveryRecord) → (f d).id ≡ d.id)
    → not (str_eq id j) ≡ true
    → find j (update id guard f s) ≡ find j s
other_update j id guard f s same other = ground (arith, find-update j id guard f s same)

pub find-release :
    (j id : String) (s : DeliveryStore) → find j (release_attachment_once id s) ≡ find j s
find-release j id s = rw (deliveries-release id s) refl

-- a row that can be settled is not one that has settled
other_row :
    (j id : String) (s : DeliveryStore) (st : DeliveryState)
    → updates id (λ d. not (is_settled d.state)) s ≡ true
    → is_settled st ≡ true
    → state_of (find j s) ≡ some st
    → str_eq id j ≡ false
other_row j id s st live settled h = elim (Option-cases (find j s)) [
  | inl missing ↦ absurd (ground arith)
  | inr (d, found) ↦ ground (arith, eq_iff id j)
]

-- `confirm` and `fail`, which settle a row that has not settled
settled-settle :
    (j id : String) (f : DeliveryRecord → DeliveryRecord) (s : DeliveryStore) (st : DeliveryState)
    → ((d : DeliveryRecord) → (f d).id ≡ d.id)
    → is_settled st ≡ true
    → state_of (find j s) ≡ some st
    → updates id (λ d. not (is_settled d.state)) s ≡ true
    → state_of (find j (release_attachment_once id (update id (λ _. true) f s))) ≡ some st
settled-settle j id f s st same settled h live = ground (
  arith,
  other_row j id s st live settled h,
  find-release j id (update id (λ _. true) f s),
  find-update j id (λ _. true) f s same,
)

ready_settled : (st : DeliveryState) → is_ready st ≡ true → is_settled st ≡ true → ⊥
ready_settled st r k = ground arith

uncertain_settled : (st : DeliveryState) → is_uncertain st ≡ true → is_settled st ≡ true → ⊥
uncertain_settled st r k = ground arith

settled-step :
    (now : ℕ) (j : String) (call : Call) (s : DeliveryStore) (st : DeliveryState)
    → spares j call ≡ true
    → is_settled st ≡ true
    → state_of (find j s) ≡ some st
    → state_of (find j (step now call s)) ≡ some st
unfolding step append_to_body confirm mark_dispatched resume_uncertain abandon_uncertain
    recover_after_crash prepare_attachment mark_uncertain mark_prepared
settled-step now j (call_prepare id input) s st spared settled h =
    settled-prepare j id input now s st h
settled-step now j (call_append id suffix) s st spared settled h =
    settled-update j id _ _ s st (λ d. refl) (λ d g k. refl) settled h
settled-step now j (call_confirm id receipt) s st spared settled h =
    elim (Bool-cases (updates id (λ d. not (is_settled d.state)) s)) [
      | inl live ↦ rw live (settled-settle j id _ s st (λ d. refl) settled h live)
      | inr closed ↦ rw closed h
    ]
settled-step now j (call_dispatch id) s st spared settled h =
    settled-update j id _ _ s st (λ d. refl) (λ d g k. absurd (ready_settled d.state g k)) settled h
settled-step now j (call_fail id) s st spared settled h =
    rw (fail_lem id now s) (elim (Bool-cases (updates id (λ d. not (is_settled d.state)) s)) [
      | inl live ↦ rw live (settled-settle j id _ s st (λ d. refl) settled h live)
      | inr closed ↦ rw closed h
    ])
settled-step now j (call_resume id) s st spared settled h =
    settled-update j id _ _ s st (λ d. refl) (λ d g k. absurd (uncertain_settled d.state g k))
      settled h
settled-step now j (call_abandon id) s st spared settled h = ground (arith, find-release j id s)
settled-step now j call_recover s st spared settled h =
    settled-recover_rows j now s.deliveries st settled h
settled-step now j (call_prepare_attachment id input handle scope_id) s st spared settled h =
    settled-prepare_attachment_found (find id s) j id _ handle scope_id now s st h
settled-step now j (call_uncertain id) s st spared settled h =
    ap state_of (other_update j id _ _ s (λ d. refl) spared) ∙ h
settled-step now j (call_prepared id) s st spared settled h =
    ap state_of (other_update j id _ _ s (λ d. refl) spared) ∙ h

-- A delivery that was confirmed or failed keeps that state through every sequence of calls of the
-- store, on itself and on other deliveries, recoveries after a crash included, as long as
-- `markUncertain` and `markPrepared`, which take a settled row too, are called for others only.
pub settled_stays :
    (calls : List (ℕ × Call)) (j : String) (s : DeliveryStore) (st : DeliveryState)
    → all_spare j calls ≡ true
    → is_settled st ≡ true
    → state_of (find j s) ≡ some st
    → state_of (find j (run calls s)) ≡ some st
unfolding run
settled_stays [] j s st spared settled h = h
settled_stays ((now, call) ∷ calls) j s st spared settled h =
    settled_stays calls j (step now call s) st (ground arith) settled
      (settled-step now j call s st (ground arith) settled h)
