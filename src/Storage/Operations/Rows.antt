-- ===== src/Storage/Operations/Rows.antt =====
-- src/storage/operation-store.ts: the tables of the ledger and the tests on the state of a row.
use qiyan_bot.Prelude.{ℕ, String, str_eq, Bool, true, false, ◌||◌, Option, List, get}

pub data OperationState : Type 0 where
  prepared dispatched succeeded failed uncertain : OperationState

pub data EffectClass : Type 0 where
  read_only side_effecting : EffectClass

pub record OperationRecord : Type 0 where
  pub id : String
  pub context_id : String
  pub attempt_id : String
  pub call_id : String
  pub kind : String
  pub args_hash : String
  pub args_json : String
  pub effect_class : EffectClass
  pub state : OperationState
  pub receipt : Option String
  pub error_json : Option String
  pub created_at : ℕ
  pub updated_at : ℕ
  pub sequence : ℕ
  pub recovery_protocol : ℕ
  pub recovery_attempts : ℕ
  pub recovery_started_at : Option ℕ

pub record Attempt : Type 0 where
  pub attempt : String
  pub is_active : Bool
  pub accepting_tools : Bool
  pub tool_fence : ℕ

pub record Consumption : Type 0 where
  pub context : String
  pub consumed_kind : String
  pub binding_hash : String
  pub operation_id : String

pub record OperationStore : Type 0 where
  pub operations : List OperationRecord
  pub attempts : List Attempt
  pub consumptions : List Consumption

abbrev pub id_of : OperationRecord → String
id_of r = r.id

abbrev pub attempt_of : Attempt → String
attempt_of a = a.attempt

abbrev pub context_of : Consumption → String
context_of c = c.context

abbrev pub find : String → OperationStore → Option OperationRecord
find id s = get id_of id s.operations

abbrev pub current_recovery_protocol : ℕ
current_recovery_protocol = 1

abbrev pub is_read_only_kind : String → Bool
is_read_only_kind kind =
    str_eq kind "list_managed_sessions"
    || str_eq kind "discover_sessions"
    || str_eq kind "get_session_status"
    || str_eq kind "read_worker_message"
    || str_eq kind "list_models"
    || str_eq kind "get_goal"

abbrev pub same_effect : EffectClass → EffectClass → Bool
same_effect read_only read_only = true
same_effect side_effecting side_effecting = true
same_effect _ _ = false

abbrev pub is_prepared : OperationState → Bool
is_prepared prepared = true
is_prepared _ = false

abbrev pub is_dispatched : OperationState → Bool
is_dispatched dispatched = true
is_dispatched _ = false

-- state IN ('dispatched', 'uncertain')
abbrev pub is_in_doubt : OperationState → Bool
is_in_doubt dispatched = true
is_in_doubt uncertain = true
is_in_doubt _ = false

-- state IN ('prepared', 'dispatched')
abbrev pub is_running : OperationState → Bool
is_running prepared = true
is_running dispatched = true
is_running _ = false

-- state IN ('prepared', 'dispatched', 'uncertain')
abbrev pub is_live : OperationState → Bool
is_live prepared = true
is_live dispatched = true
is_live uncertain = true
is_live _ = false
