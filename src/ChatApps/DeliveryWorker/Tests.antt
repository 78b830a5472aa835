-- ===== src/ChatApps/DeliveryWorker/Tests.antt =====
-- The delivery worker with a concrete adapter, and its theorem at a concrete input.
use qiyan_bot.Prelude.{
  ℕ, ◌≤◌, ◌≡◌, refl, String, true, false, none, some, List, [], ◌∷◌, get, zero, suc,
}
use qiyan_bot.Storage.Deliveries.Rows.{DeliveryRecord, prepared, find}
use qiyan_bot.ChatApps.DeliveryWorker.Warnings.{
  World, Deps, ChatDeliveryAdapter, Sending, raised, recovery_envelope,
}
use qiyan_bot.ChatApps.DeliveryWorker.{DeliveryRecord}
use qiyan_bot.ChatApps.DeliveryWorker.Sends.{last_sends}
use qiyan_bot.ChatApps.DeliveryWorker.Calm.{facts}
use qiyan_bot.ChatApps.DeliveryWorker.Wakeups.{
  Event, starts, row_ready, drain_ends, run, begin, IsAwake, run-begin-IsAwake,
}
use qiyan_bot.ChatApps.DeliveryWorker.AtMostOnce.{process_all, sent_once}

abbrev leading_space : String → ℕ
leading_space text = 1

retried_text :
    recovery_envelope leading_space "[final] done" "d1" ≡ "[final · recovery retry d1] done"
unfolding recovery_envelope
retried_text = refl

-- a rate limit, and then a connection that broke
abbrev outcome_at : ℕ → Sending
outcome_at zero = raised (record { code = none; is_rate_limit = true; is_deterministic = false })
outcome_at (suc n) =
    raised (record { code = none; is_rate_limit = false; is_deterministic = false })

abbrev telegram : ChatDeliveryAdapter
telegram = record {
  reconcile_uncertain = none;
  send_message = λ n d body. outcome_at n;
  send_document = none;
  is_safe_to_retry = none;
}

abbrev deps : Deps
deps = record { adapters = λ id. telegram; open_for_upload = none; leading_space = leading_space }

abbrev note : DeliveryRecord
note = record {
  id = "n";
  kind = "progress";
  binding = record {
    adapter_id = "telegram";
    conversation_key = "k";
    destination = "1";
    reply = none;
  };
  body = "working";
  attachment_id = none;
  attachment_scope_id = none;
  mandatory = false;
  state = prepared;
  receipt = none;
  attempt_count = 0;
  created_at = 1;
  updated_at = 1;
}

abbrev start : World
start = record {
  store = record { deliveries = note ∷ []; attachments = []; releases = []; announcing = false };
  sends = [];
  state_changes = [];
  operational_failures = [];
}

abbrev calls : List (String × ℕ)
calls = ("n", 2) ∷ ("n", 3) ∷ ("n", 4) ∷ ("delivery-warning:n", 5) ∷ []

optional : facts (find "n" start.store) ≡ some (false, "telegram")
unfolding get
optional = refl

sent_once_example : last_sends telegram "n" (process_all deps calls start) ≤ 1
sent_once_example = sent_once deps "n" "telegram" calls start refl optional refl

-- a row that becomes ready during a drain, and one that the next drain leaves ready
abbrev events : List Event
events = starts ∷ row_ready ∷ drain_ends true ∷ drain_ends true ∷ []

run-begin-IsAwake_example : IsAwake (run events begin)
run-begin-IsAwake_example = run-begin-IsAwake events
