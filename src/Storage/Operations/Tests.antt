-- ===== src/Storage/Operations/Tests.antt =====
-- The operation ledger on concrete rows, and its theorems at concrete inputs.
use qiyan_bot.Core.{ok, app_error, operation_uncertain, directive_already_consumed}
use qiyan_bot.Prelude.{
  ℕ, ◌≡◌, ◌⊎◌, refl, String, str_eq, true, false, none, some, List, [], ◌∷◌, ◌&&◌, if◌then◌else◌,
  any, get, arith,
}
use qiyan_bot.Storage.Operations.Rows.{
  OperationRecord, OperationStore, OperationState, prepared, dispatched, succeeded, failed,
  side_effecting, find, context_of, attempt_of,
}
use qiyan_bot.Storage.Operations.Writes.{NewOperation, prepare, find_operation, assert_tool_fence}
use qiyan_bot.Storage.Operations.{
  mark_dispatched, checkpoint, succeed, fail, fail_and_unbind, bind_directive,
}
use qiyan_bot.Storage.Operations.Ledger.{
  Call, call_fail, call_attempt_ended, call_succeed, run, outcome_of, run_final,
}
use qiyan_bot.Storage.Operations.Fences.{HasLost, moved, lost_fence, prepare_again}
use qiyan_bot.Storage.Operations.Directives.{bind_once, fail_and_unbind_lem, state_of}

abbrev row : String → OperationState → OperationRecord
row id state = record {
  id = id;
  context_id = "c";
  attempt_id = "t";
  call_id = id;
  kind = "send_to_session";
  args_hash = "{}";
  args_json = "{}";
  effect_class = side_effecting;
  state = state;
  receipt = some "r";
  error_json = none;
  created_at = 1;
  updated_at = 1;
  sequence = 1;
  recovery_protocol = 1;
  recovery_attempts = 0;
  recovery_started_at = none;
}

-- the attempt accepts tools under fence 2
abbrev ledger : OperationStore
ledger = record {
  operations = row "a" succeeded ∷ row "b" dispatched ∷ [];
  attempts =
      record { attempt = "t"; is_active = true; accepting_tools = true; tool_fence = 2 } ∷ [];
  consumptions = [];
}

abbrev same_text : String → String
same_text text = text

succeeded_row : outcome_of (find "a" ledger) ≡ some (succeeded, some "r", none)
unfolding get
succeeded_row = refl

abbrev late_calls : List (ℕ × Call)
late_calls =
    (5, call_fail "a" "late" true none)
    ∷ (6, call_attempt_ended "t")
    ∷ (7, call_succeed "a" "other" (some 2))
    ∷ []

run_final_example :
    outcome_of (find "a" (run same_text late_calls ledger)) ≡ some (succeeded, some "r", none)
run_final_example =
    run_final same_text late_calls "a" succeeded (some "r") none ledger refl succeeded_row

dispatched_row : find "b" ledger ≡ some (row "b" dispatched)
unfolding get
dispatched_row = refl

old_fence : HasLost 1 (get attempt_of "t" ledger.attempts)
unfolding get
old_fence = moved (λ e. ground (arith, e))

lost_fence_example :
    (mark_dispatched "b" (some 1) 9 ledger ≡ (app_error operation_uncertain, ledger))
    × (checkpoint "b" "x" (some 1) 9 ledger ≡ (app_error operation_uncertain, ledger))
    × (succeed "b" "x" (some 1) 9 ledger ≡ (app_error operation_uncertain, ledger))
    × (fail "b" "x" false (some 1) 9 ledger ≡ (app_error operation_uncertain, ledger))
    × (fail_and_unbind "b" "x" (some 1) 9 ledger ≡ (app_error operation_uncertain, ledger))
lost_fence_example =
    lost_fence "b" "x" false 1 9 ledger (row "b" dispatched) dispatched_row old_fence

abbrev call : NewOperation
call = record {
  new_context = "c";
  new_attempt = "t";
  new_call = "d";
  new_kind = "send_to_session";
  new_args = "{}";
  new_effect = none;
}

abbrev new_row : OperationRecord
new_row = record (row "d" prepared) { receipt = none; created_at = 9; updated_at = 9; sequence = 2 }

first_time : (prepare same_text "d" call (some 2) 9 ledger).0 ≡ ok new_row
unfolding prepare assert_tool_fence find_operation get
first_time = refl

prepare_again_example :
    prepare same_text "e" call (some 2) 10 (prepare same_text "d" call (some 2) 9 ledger).1
    ≡ (ok new_row, (prepare same_text "d" call (some 2) 9 ledger).1)
prepare_again_example = prepare_again same_text "d" "e" call (some 2) 9 10 ledger new_row first_time

not_consumed : get context_of "c" ledger.consumptions ≡ none
unfolding get
not_consumed = refl

bind_once_example :
    bind_directive same_text "c" "to" "y" "b" (bind_directive same_text "c" "to" "x" "b" ledger).1
    ≡ (
      if str_eq "to" "to" && str_eq "x" "y" then ok tt else app_error directive_already_consumed,
      (bind_directive same_text "c" "to" "x" "b" ledger).1,
    )
bind_once_example =
    bind_once same_text "c" "to" "x" "b" "to" "y" "b" ledger (row "b" dispatched) not_consumed
      dispatched_row

fail_and_unbind_lem_example :
    ((fail_and_unbind "b" "x" (some 2) 9 ledger).0 ≡ ok tt)
      × (state_of (find "b" (fail_and_unbind "b" "x" (some 2) 9 ledger).1) ≡ some failed)
      × (any
            (λ c. str_eq c.operation_id "b")
            (fail_and_unbind "b" "x" (some 2) 9 ledger).1.consumptions
          ≡ false)
    ⊎ (fail_and_unbind "b" "x" (some 2) 9 ledger ≡ (app_error operation_uncertain, ledger))
fail_and_unbind_lem_example = fail_and_unbind_lem "b" "x" (some 2) 9 ledger
