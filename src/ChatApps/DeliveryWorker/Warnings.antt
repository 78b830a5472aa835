-- ===== src/ChatApps/DeliveryWorker/Warnings.antt =====
-- src/chat-apps/shared/delivery-worker.ts: the state of the worker, and what it warns of.
use text.Mathlib.Text.{get?, find?, starts_with}
use Prim.Native.String.{len, ◌++◌ as str_append}
use qiyan_bot.Core.{ErrorCode, Result, app_error, error}
use qiyan_bot.Prelude.{
  ℕ, ◌+◌, String, Bool, true, Option, none, some, List, [], ◌∷◌, ◌++◌, if◌then◌else◌, ltb, or_else,
}
use qiyan_bot.Storage.Deliveries.Rows.{DeliveryRecord, DeliveryStore, NewDelivery, find}
use qiyan_bot.Storage.Deliveries.{prepare}

pub data UncertainDeliveryResolution : Type 0 where
  resolved : String → UncertainDeliveryResolution
  resume_safe unresolved reconcile_threw : UncertainDeliveryResolution

-- what the worker reads of a thrown error
pub record SendError : Type 0 where
  pub code : Option ErrorCode
  pub is_rate_limit : Bool
  pub is_deterministic : Bool

pub data Sending : Type 0 where
  receipt_of : String → Sending
  raised : SendError → Sending

pub record ChatDeliveryAdapter : Type 0 where
  pub reconcile_uncertain : Option (ℕ → DeliveryRecord → UncertainDeliveryResolution)
  pub send_message : ℕ → DeliveryRecord → String → Sending
  pub send_document : Option (ℕ → DeliveryRecord → String → Sending)
  pub is_safe_to_retry : Option (SendError → Bool)

pub record SendLog : Type 0 where
  pub delivery : String
  pub sent_body : String
  pub outcome : Sending

pub record World : Type 0 where
  pub store : DeliveryStore
  pub sends : List SendLog
  pub state_changes : List (Option DeliveryRecord × Option SendError)
  pub operational_failures : List (Option DeliveryRecord)

-- the constructor's arguments, and what `\s?` takes off the front of a text: the number of bytes
pub record Deps : Type 0 where
  pub adapters : String → ChatDeliveryAdapter
  pub open_for_upload : Option (ℕ → Option SendError)
  pub leading_space : String → ℕ

unfoldable pub is_safe : ChatDeliveryAdapter → SendError → Bool
is_safe adapter e = or_else (adapter_says adapter.is_safe_to_retry) e.is_rate_limit
  where
    adapter_says : Option (SendError → Bool) → Option Bool
    adapter_says none = none
    adapter_says (some says) = some (says e)

abbrev pub thrown : SendError → Result (Unit {0})
thrown e = throw_code e.code
  where
    throw_code : Option ErrorCode → Result (Unit {0})
    throw_code none = error
    throw_code (some c) = app_error c

-- `[head] tail` with a head of at least one character: the match of /^\[([^\]]+)\]\s?(.*)$/su
unfoldable pub split_head : (String → ℕ) → String → Option (String × String)
split_head leading_space body = if starts_with body "[" then head_before (find? body "]") else none
  where
    after_space : String → String
    after_space rest = or_else (get? rest (leading_space rest) (len rest)) ""

    head_before : Option ℕ → Option (String × String)
    head_before none = none
    head_before (some at) =
        if ltb 1 at
        then some
            (or_else (get? body 1 at) "", after_space (or_else (get? body (at + 1) (len body)) ""))
        else none

unfoldable pub recovery_envelope : (String → ℕ) → String → String → String
unfolding split_head
recovery_envelope leading_space body id = enveloped (split_head leading_space body)
  where
    enveloped : Option (String × String) → String
    enveloped none = str_append "[recovery retry " (str_append id (str_append "] " body))
    enveloped (some (head, tail)) =
        str_append "["
          (str_append head (str_append " · recovery retry " (str_append id (str_append "] " tail))))

abbrev pub warning_id : String → String
warning_id id = str_append "delivery-warning:" id

abbrev pub warning_of : DeliveryRecord → NewDelivery
warning_of d = record {
  new_kind = "delivery_warning";
  new_binding = d.binding;
  new_body =
      str_append "[system] delivery "
        (str_append d.id " could not be confirmed and was not automatically retried");
  new_attachment_id = none;
  new_attachment_scope_id = none;
  new_mandatory = true;
}

unfoldable pub prepare_uncertain_warning : DeliveryRecord → ℕ → DeliveryStore → DeliveryStore
prepare_uncertain_warning d now s = (prepare (warning_id d.id) (warning_of d) now s).1

-- `notify` and `notifyOperationalFailure`; what the callbacks throw is swallowed
abbrev pub notify : String → Option SendError → World → World
notify id e w = record w { state_changes = w.state_changes ++ (find id w.store, e) ∷ [] }

abbrev pub notify_operational_failure : String → World → World
notify_operational_failure id w = record w {
  operational_failures = w.operational_failures ++ find id w.store ∷ [];
}

abbrev pub logged : DeliveryRecord → String → Sending → World → World
logged d body outcome w = record w {
  sends = w.sends ++ record { delivery = d.id; sent_body = body; outcome = outcome } ∷ [];
}
