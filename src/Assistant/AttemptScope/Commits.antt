-- ===== src/Assistant/AttemptScope/Commits.antt =====
-- src/assistant/attempt-scope.ts: a directive authorizes one call.
use qiyan_bot.Core.{Result, ok, app_error, error}
use qiyan_bot.Prelude.{ℕ, String, Bool, true, false, Option, none, some, List, [], ◌∷◌, ◌&&◌}
use qiyan_bot.Storage.Operations.Rows.{OperationRecord}
use qiyan_bot.Storage.Operations.Ledger.{
  Call, call_fail_and_unbind, call_reconcile, call_unbind, run,
}
use qiyan_bot.Assistant.AttemptScope.Sources.{Scope}

-- whether the call returned a value
abbrev pub is_ok {ℓ} : {A : Type ℓ} → Result A → Bool
is_ok (ok a) = true
is_ok (app_error code) = false
is_ok error = false

-- whether a commit returned an operation
abbrev pub is_given : Result (Option OperationRecord) → Bool
is_given (ok (some r)) = true
is_given (ok none) = false
is_given (app_error code) = false
is_given error = false

-- the calls of the ledger that do not take the authorization of a directive back
abbrev pub keeps_bound : Call → Bool
keeps_bound (call_unbind id) = false
keeps_bound (call_fail_and_unbind id reason fence) = false
keeps_bound (call_reconcile id reason fence) = false
keeps_bound _ = true

abbrev pub all_keep_bound : List (ℕ × Call) → Bool
all_keep_bound [] = true
all_keep_bound ((now, call) ∷ calls) = keeps_bound call && all_keep_bound calls

-- the scope after these calls of the ledger
abbrev pub later : (String → String) → List (ℕ × Call) → Scope → Scope
later hash calls s = record s { store = run hash calls s.store }
