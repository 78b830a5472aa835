-- ===== src/Storage/Operations/Ledger.antt =====
-- src/storage/operation-store.ts: the state machine of an operation, and the fences that guard it.
use qiyan_bot.Core.{Result, ok, app_error, error}
use qiyan_bot.Prelude.{
  ℕ, ◌≡◌, refl, inl, inr, String, str_eq, Bool, true, false, Option, none, some, List, [], ◌∷◌, map,
  arith, get, modify, get-modify, get-append, eq_iff, Bool-cases, Option-cases,
}
use qiyan_bot.Storage.Operations.Rows.{
  OperationStore, OperationRecord, OperationState, id_of, find, is_live, is_running, is_in_doubt,
  is_dispatched, is_prepared,
}
use qiyan_bot.Storage.Operations.Writes.{
  NewOperation, write, prepare, prepare_found, find_operation, new_row,
}
use qiyan_bot.Storage.Operations.{
  mark_dispatched, checkpoint, succeed, fail, fail_and_unbind, fail_and_unbind_with_reconciliation,
  and_unbind, unbind_directive, bind_directive, bind_replayed, replay_directive,
  record_recovery_attempt, clear_recovery_attempts, mark_attempt_operations_uncertain,
  mark_row_uncertain,
}

-- every call that writes the ledger
pub data Call : Type 0 where
  call_prepare : String → NewOperation → Option ℕ → Call
  call_dispatch : String → Option ℕ → Call
  call_checkpoint call_succeed call_fail_and_unbind call_reconcile :
      String → String → Option ℕ → Call
  call_fail : String → String → Bool → Option ℕ → Call
  call_recovery call_clear call_attempt_ended call_unbind : String → Call
  call_bind : String → String → String → String → Call

unfoldable pub step : (String → String) → ℕ → Call → OperationStore → OperationStore
step hash now (call_prepare id input fence) s = (prepare hash id input fence now s).1
step hash now (call_dispatch id fence) s = (mark_dispatched id fence now s).1
step hash now (call_checkpoint id receipt fence) s = (checkpoint id receipt fence now s).1
step hash now (call_succeed id receipt fence) s = (succeed id receipt fence now s).1
step hash now (call_fail id reason is_uncertain fence) s =
    (fail id reason is_uncertain fence now s).1
step hash now (call_fail_and_unbind id reason fence) s = (fail_and_unbind id reason fence now s).1
step hash now (call_reconcile id reason fence) s =
    (fail_and_unbind_with_reconciliation id reason fence now s).1
step hash now (call_recovery id) s = (record_recovery_attempt id now s).1
step hash now (call_clear id) s = clear_recovery_attempts id s
step hash now (call_attempt_ended attempt_id) s =
    (mark_attempt_operations_uncertain attempt_id now s).1
step hash now (call_unbind id) s = unbind_directive id s
step hash now (call_bind context_id kind binding operation_id) s =
    (bind_directive hash context_id kind binding operation_id s).1

unfoldable pub run : (String → String) → List (ℕ × Call) → OperationStore → OperationStore
unfolding step
run hash [] s = s
run hash ((now, call) ∷ calls) s = run hash calls (step hash now call s)

-- what the operation came to
abbrev pub outcome_of :
    Option OperationRecord → Option (OperationState × Option String × Option String)
outcome_of none = none
outcome_of (some r) = some (r.state, r.receipt, r.error_json)

abbrev pub Final : String → OperationState → Option String → Option String → OperationStore → Type 0
Final j st receipt reason s = outcome_of (find j s) ≡ some (st, receipt, reason)

module _ (j : String) (st : OperationState) (receipt reason : Option String)
    (settled : is_live st ≡ false) where
  -- an UPDATE that writes a final row, if at all, without touching what it came to
  Final-modify :
      (id : String) (guard : OperationRecord → Bool) (f : OperationRecord → OperationRecord)
      (s : OperationStore)
      → ((r : OperationRecord) → (f r).id ≡ r.id)
      → ((r : OperationRecord)
          → guard r ≡ true
          → is_live r.state ≡ false
          → outcome_of (some (f r)) ≡ outcome_of (some r))
      → Final j st receipt reason s
      → Final j st receipt reason (record s { operations = modify id_of id guard f s.operations })
  Final-modify id guard f s same keeps h = elim (Option-cases (find j s)) [
    | inl missing ↦ absurd (ground arith)
    | inr (r, found) ↦
        ground (arith, eq_iff id j, get-modify id_of j id guard f s.operations same, keeps r)
  ]

  Final-write :
      (id : String) (free fenced : OperationState → Bool) (fence : Option ℕ)
      (f : OperationRecord → OperationRecord) (s : OperationStore)
      → ((r : OperationRecord) → (f r).id ≡ r.id)
      → ((x : OperationState) → free x ≡ true → is_live x ≡ true)
      → ((x : OperationState) → fenced x ≡ true → is_live x ≡ true)
      → Final j st receipt reason s
      → Final j st receipt reason (write id free fenced fence f s).1
  unfolding write
  Final-write id free fenced none f s same live live' h =
      Final-modify id _ f s same (λ r g k. absurd (ground (arith, live r.state g))) h
  Final-write id free fenced (some n) f s same live live' h =
      Final-modify id _ f s same (λ r g k. absurd (ground (arith, live' r.state))) h

  Final-and_unbind :
      (id : String) (a : Result (Unit {0})) (t s : OperationStore)
      → Final j st receipt reason t
      → Final j st receipt reason s
      → Final j st receipt reason (and_unbind id (a, t) s).1
  unfolding and_unbind unbind_directive
  Final-and_unbind id (ok _) t s h k = h
  Final-and_unbind id (app_error code) t s h k = k
  Final-and_unbind id error t s h k = k

  Final-fail :
      (id text : String) (is_uncertain : Bool) (fence : Option ℕ) (now : ℕ) (s : OperationStore)
      → Final j st receipt reason s
      → Final j st receipt reason (fail id text is_uncertain fence now s).1
  unfolding fail
  Final-fail id text is_uncertain fence now s h =
      Final-write id is_live is_running fence _ s (λ r. refl) (λ x g. g) (λ x g. ground arith) h

  Final-prepare_found :
      (hash : String → String) (o : Option OperationRecord) (id : String) (input : NewOperation)
      (now : ℕ) (s : OperationStore)
      → Final j st receipt reason s
      → Final j st receipt reason (prepare_found hash o id input now s).1
  unfolding prepare_found
  Final-prepare_found hash (some r) id input now s h = ground arith
  Final-prepare_found hash none id input now s h =
      ground (arith, get-append id_of j (new_row hash id input now s) s.operations)

  Final-bind_replayed :
      (hash : String → String) (a : Result (Option OperationRecord))
      (context_id kind binding operation_id : String) (s : OperationStore)
      → Final j st receipt reason s
      → Final j st receipt reason (bind_replayed hash a context_id kind binding operation_id s).1
  unfolding bind_replayed
  Final-bind_replayed hash (app_error code) context_id kind binding operation_id s h = h
  Final-bind_replayed hash error context_id kind binding operation_id s h = h
  Final-bind_replayed hash (ok (some r)) context_id kind binding operation_id s h = h
  Final-bind_replayed hash (ok none) context_id kind binding operation_id s h = ground arith

  Final-attempt_ended :
      (attempt_id : String) (now : ℕ) (rows : List OperationRecord)
      → outcome_of (get id_of j rows) ≡ some (st, receipt, reason)
      → outcome_of (get id_of j (map (mark_row_uncertain attempt_id now) rows))
        ≡ some (st, receipt, reason)
  unfolding get mark_row_uncertain
  Final-attempt_ended attempt_id now [] h = absurd (ground arith)
  Final-attempt_ended attempt_id now (r ∷ rows) h = elim (Bool-cases (str_eq r.id j)) [
    | inl same ↦ ground arith
    | inr other ↦ ground (arith, Final-attempt_ended attempt_id now rows)
  ]

  Final-step :
      (hash : String → String) (now : ℕ) (call : Call) (s : OperationStore)
      → Final j st receipt reason s
      → Final j st receipt reason (step hash now call s)
  unfolding step prepare mark_dispatched checkpoint succeed fail_and_unbind
      fail_and_unbind_with_reconciliation record_recovery_attempt clear_recovery_attempts
      mark_attempt_operations_uncertain unbind_directive bind_directive
  Final-step hash now (call_prepare id input fence) s h =
      ground (arith, Final-prepare_found hash (find_operation input s.operations) id input now s h)
  Final-step hash now (call_dispatch id fence) s h =
      Final-write id is_prepared is_prepared fence _ s (λ r. refl) (λ x g. ground arith)
        (λ x g. ground arith) h
  Final-step hash now (call_checkpoint id text fence) s h =
      Final-write id is_in_doubt is_dispatched fence _ s (λ r. refl) (λ x g. ground arith)
        (λ x g. ground arith) h
  Final-step hash now (call_succeed id text fence) s h =
      Final-write id is_live is_running fence _ s (λ r. refl) (λ x g. g) (λ x g. ground arith) h
  Final-step hash now (call_fail id text is_uncertain fence) s h =
      Final-fail id text is_uncertain fence now s h
  Final-step hash now (call_fail_and_unbind id text fence) s h =
      Final-and_unbind id _ _ s (Final-fail id text false fence now s h) h
  Final-step hash now (call_reconcile id text fence) s h =
      Final-and_unbind id _ _ s (Final-fail id _ false fence now s h) h
  Final-step hash now (call_recovery id) s h = Final-modify id _ _ s (λ r. refl) (λ r g k. refl) h
  Final-step hash now (call_clear id) s h = Final-modify id _ _ s (λ r. refl) (λ r g k. refl) h
  Final-step hash now (call_attempt_ended attempt_id) s h =
      Final-attempt_ended attempt_id now s.operations h
  Final-step hash now (call_unbind id) s h = h
  Final-step hash now (call_bind context_id kind binding operation_id) s h =
      Final-bind_replayed hash (replay_directive hash context_id kind binding s) context_id kind
        binding operation_id s h

-- An operation that succeeded or failed keeps its state, its receipt and its error through every
-- sequence of calls of the ledger, fenced or not, a later success or failure included.
pub run_final :
    (hash : String → String) (calls : List (ℕ × Call)) (j : String) (st : OperationState)
    (receipt reason : Option String) (s : OperationStore)
    → is_live st ≡ false
    → outcome_of (find j s) ≡ some (st, receipt, reason)
    → outcome_of (find j (run hash calls s)) ≡ some (st, receipt, reason)
unfolding run
run_final hash [] j st receipt reason s settled h = h
run_final hash ((now, call) ∷ calls) j st receipt reason s settled h =
    run_final hash calls j st receipt reason (step hash now call s) settled
      (Final-step j st receipt reason settled hash now call s h)
