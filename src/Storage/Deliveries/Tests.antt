-- ===== src/Storage/Deliveries/Tests.antt =====
-- The delivery store on concrete rows, and its theorems at concrete inputs.
use qiyan_bot.Prelude.{
  ℕ, ◌≤◌, suc, ◌≡◌, refl, String, true, false, none, some, List, [], ◌∷◌, get, modify,
}
use qiyan_bot.Storage.Deliveries.Rows.{
  DeliveryRecord, DeliveryStore, DeliveryState, ConversationBinding, NewDelivery, find, dispatched,
  confirmed,
}
use qiyan_bot.Storage.Deliveries.{confirm, abandon_uncertain, mark_uncertain}
use qiyan_bot.Storage.Deliveries.Calls.{
  Call, call_confirm, call_fail, call_recover, call_dispatch, call_uncertain, run, state_of,
  settled_stays,
}
use qiyan_bot.Storage.Deliveries.Releases.{
  Write, write_uncertain, write_abandon, write_confirm, apply_all, ref_count_of, released_once,
}

abbrev chat : ConversationBinding
chat = record { adapter_id = "telegram"; conversation_key = "k"; destination = "1"; reply = none }

abbrev row : String → DeliveryState → DeliveryRecord
row id state = record {
  id = id;
  kind = "final";
  binding = chat;
  body = "done";
  attachment_id = some "file";
  attachment_scope_id = some "scope";
  mandatory = false;
  state = state;
  receipt = none;
  attempt_count = 1;
  created_at = 1;
  updated_at = 1;
}

abbrev outbox : DeliveryStore
outbox = record {
  deliveries = row "a" confirmed ∷ row "b" dispatched ∷ [];
  attachments = record { handle = "file"; scope_id = "scope"; ref_count = 2 } ∷ [];
  releases = [];
  announcing = false;
}

abbrev note : NewDelivery
note = record {
  new_kind = "file";
  new_binding = chat;
  new_body = "";
  new_attachment_id = none;
  new_attachment_scope_id = none;
  new_mandatory = true;
}

is_confirmed : state_of (find "a" outbox) ≡ some confirmed
unfolding get
is_confirmed = refl

abbrev late_calls : List (ℕ × Call)
late_calls =
    (5, call_fail "a")
    ∷ (6, call_recover)
    ∷ (7, call_dispatch "b")
    ∷ (8, call_confirm "b" "{}")
    ∷ (9, call_uncertain "b")
    ∷ []

settled_stays_example : state_of (find "a" (run late_calls outbox)) ≡ some confirmed
settled_stays_example = settled_stays late_calls "a" outbox confirmed refl refl is_confirmed

-- an uncertain delivery is abandoned, and then confirmed by a late receipt
abbrev writes : List (ℕ × Write)
writes =
    (5, write_uncertain) ∷ (6, write_abandon) ∷ (7, write_abandon) ∷ (8, write_confirm "{}") ∷ []

one_release : ref_count_of "file" (apply_all "b" writes outbox) ≡ 1
unfolding apply_all get modify mark_uncertain abandon_uncertain confirm
one_release = refl

released_once_example :
    ref_count_of "file" outbox ≤ suc (ref_count_of "file" (apply_all "b" writes outbox))
released_once_example = released_once "file" "b" writes outbox

is_dispatched_row : find "b" outbox ≡ some (row "b" dispatched)
unfolding get
is_dispatched_row = refl

is_new : find "c" outbox ≡ none
unfolding get
is_new = refl
