-- ===== src/Storage/Deliveries/Rows.antt =====
-- src/storage/delivery-store.ts: the rows of the outbox, the tests on them, and how they are found.
use qiyan_bot.Prelude.{ℕ, String, Bool, true, false, Option, List, get, modify, changes}

pub data DeliveryState : Type 0 where
  prepared dispatched confirmed failed uncertain : DeliveryState

pub record ConversationBinding : Type 0 where
  pub adapter_id : String
  pub conversation_key : String
  pub destination : String
  pub reply : Option String

pub record DeliveryRecord : Type 0 where
  pub id : String
  pub kind : String
  pub binding : ConversationBinding
  pub body : String
  pub attachment_id : Option String
  pub attachment_scope_id : Option String
  pub mandatory : Bool
  pub state : DeliveryState
  pub receipt : Option String
  pub attempt_count : ℕ
  pub created_at : ℕ
  pub updated_at : ℕ

pub record Attachment : Type 0 where
  pub handle : String
  pub scope_id : String
  pub ref_count : ℕ

pub record DeliveryStore : Type 0 where
  pub deliveries : List DeliveryRecord
  pub attachments : List Attachment
  pub releases : List String
  pub announcing : Bool

pub record NewDelivery : Type 0 where
  pub new_kind : String
  pub new_binding : ConversationBinding
  pub new_body : String
  pub new_attachment_id : Option String
  pub new_attachment_scope_id : Option String
  pub new_mandatory : Bool

abbrev pub id_of : DeliveryRecord → String
id_of d = d.id

abbrev pub handle_of : Attachment → String
handle_of a = a.handle

abbrev pub is_dispatched : DeliveryState → Bool
is_dispatched dispatched = true
is_dispatched _ = false

abbrev pub is_uncertain : DeliveryState → Bool
is_uncertain uncertain = true
is_uncertain _ = false

-- state IN ('prepared', 'uncertain')
abbrev pub is_ready : DeliveryState → Bool
is_ready prepared = true
is_ready uncertain = true
is_ready _ = false

-- state IN ('confirmed', 'failed')
abbrev pub is_settled : DeliveryState → Bool
is_settled confirmed = true
is_settled failed = true
is_settled _ = false

-- UPDATE deliveries SET ... WHERE id = ? AND guard
abbrev pub update :
    String
    → (DeliveryRecord → Bool)
    → (DeliveryRecord → DeliveryRecord)
    → DeliveryStore
    → DeliveryStore
update id guard f s = record s { deliveries = modify id_of id guard f s.deliveries }

abbrev pub updates : String → (DeliveryRecord → Bool) → DeliveryStore → Bool
updates id guard s = changes id_of id guard s.deliveries

abbrev pub find : String → DeliveryStore → Option DeliveryRecord
find id s = get id_of id s.deliveries
