-- ===== src/Storage/Operations/Writes.antt =====
-- src/storage/operation-store.ts: the UPDATE of a row with its fence, and `prepare`.
use qiyan_bot.Core.{Result, ok, app_error, error, operation_uncertain, operation_conflict}
use qiyan_bot.Prelude.{
  ℕ, ◌+◌, max, String, str_eq, Bool, true, not, ◌&&◌, ◌||◌, Option, none, some, List, [], ◌∷◌, ◌++◌,
  if◌then◌else◌, ◌==◌, any, modify, changes, or_else,
}
use qiyan_bot.Storage.Operations.Rows.{
  EffectClass, OperationRecord, OperationState, OperationStore, attempt_of,
  current_recovery_protocol, id_of, is_read_only_kind, prepared, read_only, same_effect,
  side_effecting,
}

-- EXISTS (SELECT 1 FROM assistant_attempts WHERE id AND accepting_tools = 1 AND tool_fence = ?)
abbrev pub accepts : String → ℕ → OperationStore → Bool
accepts attempt_id fence s =
    changes attempt_of attempt_id (λ a. a.accepting_tools && (a.tool_fence == fence)) s.attempts

-- an UPDATE of one operation: `free` are the states it takes without a fence and `fenced` those it
-- takes with one, where the attempt must still hold the fence
abbrev pub may_write :
    (OperationState → Bool)
    → (OperationState → Bool)
    → Option ℕ
    → OperationStore
    → OperationRecord
    → Bool
may_write free fenced none s r = free r.state
may_write free fenced (some fence) s r = fenced r.state && accepts r.attempt_id fence s

-- the UPDATE, and `uncertainTransition` where it changed no row
unfoldable pub write :
    String
    → (OperationState → Bool)
    → (OperationState → Bool)
    → Option ℕ
    → (OperationRecord → OperationRecord)
    → OperationStore
    → Result (Unit {0}) × OperationStore
write id free fenced fence f s =
    let guard = may_write free fenced fence s in
    (
      if changes id_of id guard s.operations then ok tt else app_error operation_uncertain,
      record s { operations = modify id_of id guard f s.operations },
    )

unfoldable pub assert_tool_fence : String → ℕ → OperationStore → Bool
assert_tool_fence attempt_id fence s =
    changes attempt_of attempt_id (λ a. a.is_active && a.accepting_tools && (a.tool_fence == fence))
      s.attempts

abbrev pub fence_holds : String → Option ℕ → OperationStore → Bool
fence_holds attempt_id none s = true
fence_holds attempt_id (some fence) s = assert_tool_fence attempt_id fence s

pub record NewOperation : Type 0 where
  pub new_context : String
  pub new_attempt : String
  pub new_call : String
  pub new_kind : String
  pub new_args : String
  pub new_effect : Option EffectClass

abbrev pub effect_of : NewOperation → EffectClass
effect_of input =
    or_else input.new_effect
      (if is_read_only_kind input.new_kind then read_only else side_effecting)

abbrev pub is_same_call : NewOperation → OperationRecord → Bool
is_same_call input r =
    str_eq r.attempt_id input.new_attempt
    && str_eq r.call_id input.new_call
    && str_eq r.kind input.new_kind

unfoldable pub find_operation : NewOperation → List OperationRecord → Option OperationRecord
find_operation input [] = none
find_operation input (r ∷ rs) =
    let rest = find_operation input rs in
    if str_eq r.context_id input.new_context && is_same_call input r then some r else rest

abbrev pub max_sequence : List OperationRecord → ℕ
max_sequence [] = 0
max_sequence (r ∷ rs) = max r.sequence (max_sequence rs)

abbrev pub new_row :
    (String → String) → String → NewOperation → ℕ → OperationStore → OperationRecord
new_row hash id input now s = record {
  id = id;
  context_id = input.new_context;
  attempt_id = input.new_attempt;
  call_id = input.new_call;
  kind = input.new_kind;
  args_hash = hash input.new_args;
  args_json = input.new_args;
  effect_class = effect_of input;
  state = prepared;
  receipt = none;
  error_json = none;
  created_at = now;
  updated_at = now;
  sequence = max_sequence s.operations + 1;
  recovery_protocol = current_recovery_protocol;
  recovery_attempts = 0;
  recovery_started_at = none;
}

-- The INSERT fails on the unique key of a call in another context; the savepoint is rolled back.
unfoldable pub prepare_found :
    (String → String)
    → Option OperationRecord
    → String
    → NewOperation
    → ℕ
    → OperationStore
    → Result OperationRecord × OperationStore
prepare_found hash (some r) id input now s =
    if not (str_eq r.args_hash (hash input.new_args))
      || not (same_effect r.effect_class (effect_of input))
    then (app_error operation_conflict, s)
    else (ok r, s)
prepare_found hash none id input now s =
    let row = new_row hash id input now s in
    if any (is_same_call input) s.operations
    then (error, s)
    else (ok row, record s { operations = s.operations ++ row ∷ [] })

unfoldable pub prepare :
    (String → String)
    → String
    → NewOperation
    → Option ℕ
    → ℕ
    → OperationStore
    → Result OperationRecord × OperationStore
unfolding prepare_found find_operation
prepare hash id input fence now s =
    if fence_holds input.new_attempt fence s
    then prepare_found hash (find_operation input s.operations) id input now s
    else (app_error operation_uncertain, s)
