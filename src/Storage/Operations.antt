-- ===== src/Storage/Operations.antt =====
-- src/storage/operation-store.ts: the ledger of tool operations, with the fences of the assistant's
-- attempts and the authorizations that an operation consumes. JSON texts are strings; the arguments
-- of an operation come as their canonical text, and `hash` (SHA-256 of it) is an argument, as are
-- `Date.now()` and the random identifiers.
pub mod Writes
pub mod Rows
pub mod Ledger
pub mod Fences
mod Tests
pub mod Directives
use qiyan_bot.Core.{
  Result, ok, app_error, error, operation_uncertain, operation_conflict, directive_already_consumed,
}
use Prim.Native.String.{◌++◌ as str_append}
use qiyan_bot.Prelude.{
  ℕ, ◌+◌, max, String, str_eq, Bool, true, false, not, ◌&&◌, ◌||◌, Option, none, some, List, [],
  ◌∷◌, ◌++◌, if◌then◌else◌, ◌==◌, any, keep, map, count, get, modify, changes, sort_by, or_else,
  is_some,
}
use qiyan_bot.Storage.Operations.Rows.{
  Attempt, Consumption, EffectClass, OperationRecord, OperationState, OperationStore, attempt_of,
  context_of, current_recovery_protocol, dispatched, failed, find, id_of, is_dispatched,
  is_in_doubt, is_live, is_prepared, is_read_only_kind, is_running, prepared, read_only,
  same_effect, side_effecting, succeeded, uncertain,
}
use qiyan_bot.Storage.Operations.Writes.{
  NewOperation, accepts, assert_tool_fence, effect_of, fence_holds, find_operation, is_same_call,
  max_sequence, may_write, new_row, prepare, prepare_found, write,
}

unfoldable pub mark_dispatched :
    String → Option ℕ → ℕ → OperationStore → Result (Unit {0}) × OperationStore
unfolding write
mark_dispatched id fence now =
    write id is_prepared is_prepared fence (λ r. record r { state = dispatched; updated_at = now })

unfoldable pub checkpoint :
    String → String → Option ℕ → ℕ → OperationStore → Result (Unit {0}) × OperationStore
unfolding write
checkpoint id receipt fence now =
    write id is_in_doubt is_dispatched fence
      (λ r. record r { receipt = some receipt; updated_at = now })

unfoldable pub succeed :
    String → String → Option ℕ → ℕ → OperationStore → Result (Unit {0}) × OperationStore
unfolding write
succeed id receipt fence now = write id is_live is_running fence (λ r. record r {
  state = succeeded;
  receipt = some receipt;
  error_json = none;
  updated_at = now;
})

unfoldable pub fail :
    String → String → Bool → Option ℕ → ℕ → OperationStore → Result (Unit {0}) × OperationStore
unfolding write
fail id reason is_uncertain fence now = write id is_live is_running fence (λ r. record r {
  state = if is_uncertain then uncertain else failed;
  error_json = some reason;
  updated_at = now;
})

abbrev pub update : String → (OperationRecord → OperationRecord) → OperationStore → OperationStore
update id f s = record s { operations = modify id_of id (λ _. true) f s.operations }

abbrev pub recovery_report : ℕ → Option OperationRecord → ℕ × ℕ
recovery_report now none = (0, now)
recovery_report now (some r) = (r.recovery_attempts, or_else r.recovery_started_at now)

unfoldable pub record_recovery_attempt : String → ℕ → OperationStore → (ℕ × ℕ) × OperationStore
record_recovery_attempt id now s =
    let after =
      update id
        (λ r. record r {
          recovery_attempts = r.recovery_attempts + 1;
          recovery_started_at = some (or_else r.recovery_started_at now);
        })
        s in
    (recovery_report now (find id after), after)

unfoldable pub clear_recovery_attempts : String → OperationStore → OperationStore
clear_recovery_attempts id =
    update id (λ r. record r { recovery_attempts = 0; recovery_started_at = none })

abbrev pub is_in_flight_for : String → OperationRecord → Bool
is_in_flight_for attempt_id r = str_eq r.attempt_id attempt_id && is_dispatched r.state

unfoldable pub mark_row_uncertain : String → ℕ → OperationRecord → OperationRecord
mark_row_uncertain attempt_id now r =
    if is_in_flight_for attempt_id r then record r { state = uncertain; updated_at = now } else r

unfoldable pub mark_attempt_operations_uncertain : String → ℕ → OperationStore → ℕ × OperationStore
unfolding mark_row_uncertain
mark_attempt_operations_uncertain attempt_id now s = (
  count (is_in_flight_for attempt_id) s.operations,
  record s { operations = map (mark_row_uncertain attempt_id now) s.operations },
)

unfoldable pub list_for_attempt : String → OperationStore → List OperationRecord
list_for_attempt attempt_id s =
    sort_by (λ r. r.sequence) (keep (λ r. str_eq r.attempt_id attempt_id) s.operations)

-- The directive's authorization: `get` of the operation that consumed it may find none.
unfoldable pub replay_found :
    (String → String)
    → String
    → String
    → Option Consumption
    → OperationStore
    → Result (Option OperationRecord)
replay_found hash kind binding none s = ok none
replay_found hash kind binding (some c) s =
    if not (str_eq c.consumed_kind kind) || not (str_eq c.binding_hash (hash binding))
    then app_error directive_already_consumed
    else ok (find c.operation_id s)

unfoldable pub replay_directive :
    (String → String) → String → String → String → OperationStore → Result (Option OperationRecord)
unfolding replay_found
replay_directive hash context_id kind binding s =
    replay_found hash kind binding (get context_of context_id s.consumptions) s

-- INSERT INTO directive_consumptions fails on a context that has one, and where its foreign key names
-- no operation. That the context is stored is taken for granted.
unfoldable pub bind_replayed :
    (String → String)
    → Result (Option OperationRecord)
    → String
    → String
    → String
    → String
    → OperationStore
    → Result (Unit {0}) × OperationStore
bind_replayed hash (app_error code) context_id kind binding operation_id s = (app_error code, s)
bind_replayed hash error context_id kind binding operation_id s = (error, s)
bind_replayed hash (ok (some r)) context_id kind binding operation_id s = (ok tt, s)
bind_replayed hash (ok none) context_id kind binding operation_id s =
    if changes context_of context_id (λ _. true) s.consumptions
      || not (is_some (find operation_id s))
    then (error, s)
    else (
      ok tt,
      record s {
        consumptions =
            s.consumptions
            ++ record {
              context = context_id;
              consumed_kind = kind;
              binding_hash = hash binding;
              operation_id = operation_id;
            }
              ∷ [];
      },
    )

unfoldable pub bind_directive :
    (String → String)
    → String
    → String
    → String
    → String
    → OperationStore
    → Result (Unit {0}) × OperationStore
unfolding replay_directive bind_replayed
bind_directive hash context_id kind binding operation_id s =
    bind_replayed hash (replay_directive hash context_id kind binding s) context_id kind binding
      operation_id s

unfoldable pub unbind_directive : String → OperationStore → OperationStore
unbind_directive operation_id s = record s {
  consumptions = keep (λ c. not (str_eq c.operation_id operation_id)) s.consumptions;
}

-- the rest of a transaction whose first write may have thrown, which takes everything back
unfoldable pub and_unbind :
    String
    → Result (Unit {0}) × OperationStore
    → OperationStore
    → Result (Unit {0}) × OperationStore
unfolding unbind_directive
and_unbind id (ok _, after) s = (ok tt, unbind_directive id after)
and_unbind id (app_error code, after) s = (app_error code, s)
and_unbind id (error, after) s = (error, s)

unfoldable pub fail_and_unbind :
    String → String → Option ℕ → ℕ → OperationStore → Result (Unit {0}) × OperationStore
unfolding fail and_unbind
fail_and_unbind id reason fence now s = and_unbind id (fail id reason false fence now s) s

unfoldable pub reconciled_error : Option OperationRecord → String → String
reconciled_error none reason = reason
reconciled_error (some r) reason = reconciled_reason r.error_json
  where
    reconciled_reason : Option String → String
    reconciled_reason none = reason
    reconciled_reason (some dispatch) =
        str_append "{\"dispatch\":"
          (str_append dispatch (str_append ",\"reconciliation\":" (str_append reason "}")))

unfoldable pub fail_and_unbind_with_reconciliation :
    String → String → Option ℕ → ℕ → OperationStore → Result (Unit {0}) × OperationStore
unfolding fail and_unbind reconciled_error
fail_and_unbind_with_reconciliation id reason fence now s =
    and_unbind id (fail id (reconciled_error (find id s) reason) false fence now s) s
