-- ===== src/Storage/Deliveries.antt =====
-- src/storage/delivery-store.ts: the outbox of chat deliveries, with the attachments that it retains.
-- JSON texts are strings, `Date.now()` is an argument, and the identifier that `prepare` draws is the
-- argument `id`. The subscribers' wakeup is the flag `announcing`, which the deferred callback clears.
pub mod Rows
pub mod Releases
pub mod Recovery
pub mod Calls
mod Tests
use qiyan_bot.Core.{Result, ok, error}
use qiyan_bot.Prelude.{
  ℕ, ◌+◌, ◌-◌, String, str_eq, Bool, true, false, not, ◌&&◌, ◌||◌, Option, none, some, List, [],
  ◌∷◌, ◌++◌, if◌then◌else◌, any, keep, map, get, modify, changes, sort_by,
}
use Prim.Native.String.{◌++◌ as str_append}
use qiyan_bot.Storage.Deliveries.Rows.{
  Attachment, ConversationBinding, DeliveryRecord, DeliveryState, DeliveryStore, NewDelivery,
  confirmed, dispatched, failed, find, handle_of, id_of, is_dispatched, is_ready, is_settled,
  is_uncertain, prepared, uncertain, update, updates,
}

unfoldable pub insert : String → NewDelivery → ℕ → DeliveryStore → DeliveryRecord × DeliveryStore
insert id input now s =
    let row : DeliveryRecord = record {
      id = id;
      kind = input.new_kind;
      binding = input.new_binding;
      body = input.new_body;
      attachment_id = input.new_attachment_id;
      attachment_scope_id = input.new_attachment_scope_id;
      mandatory = input.new_mandatory;
      state = prepared;
      receipt = none;
      attempt_count = 0;
      created_at = now;
      updated_at = now;
    } in
    (row, record s { deliveries = s.deliveries ++ row ∷ []; announcing = true })

unfoldable pub prepare_found :
    Option DeliveryRecord
    → String
    → NewDelivery
    → ℕ
    → DeliveryStore
    → DeliveryRecord × DeliveryStore
prepare_found (some existing) id input now s = (existing, s)
prepare_found none id input now s = insert id input now s

unfoldable pub prepare : String → NewDelivery → ℕ → DeliveryStore → DeliveryRecord × DeliveryStore
unfolding prepare_found insert
prepare id input now s = prepare_found (find id s) id input now s

-- UPDATE attachments SET ref_count = ref_count + 1 WHERE id = ? AND scope_id = ?
unfoldable pub retain : String → String → List Attachment → List Attachment
retain handle scope_id =
    modify handle_of handle (λ a. str_eq a.scope_id scope_id)
      (λ a. record a { ref_count = a.ref_count + 1 })

-- The transaction takes the row back when the handle is missing; the wakeup stays requested.
unfoldable pub prepare_attachment_found :
    Option DeliveryRecord
    → String
    → NewDelivery
    → String
    → String
    → ℕ
    → DeliveryStore
    → Result DeliveryRecord × DeliveryStore
unfolding insert retain
prepare_attachment_found (some existing) id input handle scope_id now s = (ok existing, s)
prepare_attachment_found none id input handle scope_id now s =
    let (row, inserted) = insert id input now s in
    if changes handle_of handle (λ (a : Attachment). str_eq a.scope_id scope_id) s.attachments
    then (ok row, record inserted { attachments = retain handle scope_id s.attachments })
    else (error, record s { announcing = true })

unfoldable pub prepare_attachment :
    String
    → NewDelivery
    → String
    → String
    → ℕ
    → DeliveryStore
    → Result DeliveryRecord × DeliveryStore
unfolding prepare_attachment_found
prepare_attachment id input handle scope_id now s =
    prepare_attachment_found (find id s) id
      (record input { new_attachment_id = some handle; new_attachment_scope_id = some scope_id })
      handle scope_id now s

unfoldable pub append_to_body : String → String → ℕ → DeliveryStore → DeliveryStore
append_to_body id suffix now =
    update id (λ _. true) (λ d. record d { body = str_append d.body suffix; updated_at = now })

unfoldable pub mark_dispatched : String → ℕ → DeliveryStore → Bool × DeliveryStore
mark_dispatched id now s = (
  updates id (λ d. is_ready d.state) s,
  update id (λ d. is_ready d.state)
      (λ d. record d { state = dispatched; attempt_count = d.attempt_count + 1; updated_at = now })
      s,
)

-- UPDATE attachments SET ref_count = MAX(ref_count - 1, 0)
unfoldable pub release_attachment : String → List Attachment → List Attachment
release_attachment handle =
    modify handle_of handle (λ _. true) (λ a. record a { ref_count = a.ref_count - 1 })

unfoldable pub release_handle : String → Option String → DeliveryStore → DeliveryStore
unfolding release_attachment
release_handle id none s = s
release_handle id (some handle) s =
    if str_eq handle "" || any (λ r. str_eq r id) s.releases then s else record s {
      releases = s.releases ++ id ∷ [];
      attachments = release_attachment handle s.attachments;
    }

unfoldable pub release_row : String → Option DeliveryRecord → DeliveryStore → DeliveryStore
unfolding release_handle
release_row id none s = s
release_row id (some d) s = release_handle id d.attachment_id s

unfoldable pub release_attachment_once : String → DeliveryStore → DeliveryStore
unfolding release_row
release_attachment_once id s = release_row id (find id s) s

unfoldable pub confirm : String → String → ℕ → DeliveryStore → DeliveryStore
unfolding release_attachment_once
confirm id receipt now s =
    if updates id (λ d. not (is_settled d.state)) s
    then release_attachment_once id (
        update id (λ _. true)
          (λ d. record d { state = confirmed; receipt = some receipt; updated_at = now }) s)
    else s

unfoldable pub fail_in_transaction : String → ℕ → DeliveryStore → Bool × DeliveryStore
unfolding release_attachment_once
fail_in_transaction id now s =
    if updates id (λ d. not (is_settled d.state)) s
    then (
      true,
      release_attachment_once id
          (update id (λ _. true) (λ d. record d { state = failed; updated_at = now }) s),
    )
    else (false, s)

unfoldable pub mark_uncertain : String → ℕ → DeliveryStore → DeliveryStore
mark_uncertain id now =
    update id (λ d. not (is_uncertain d.state))
      (λ d. record d { state = uncertain; updated_at = now })

unfoldable pub resume_uncertain : String → ℕ → DeliveryStore → Bool × DeliveryStore
resume_uncertain id now s = (
  updates id (λ d. is_uncertain d.state) s,
  update id (λ d. is_uncertain d.state) (λ d. record d { state = prepared; updated_at = now }) s,
)

unfoldable pub abandon_uncertain : String → DeliveryStore → DeliveryStore
unfolding release_attachment_once
abandon_uncertain id s =
    if updates id (λ d. is_uncertain d.state) s then release_attachment_once id s else s

unfoldable pub mark_prepared : String → ℕ → DeliveryStore → DeliveryStore
mark_prepared id now = update id (λ _. true) (λ d. record d { state = prepared; updated_at = now })

unfoldable pub recover_row : ℕ → DeliveryRecord → DeliveryRecord
recover_row now d =
    if is_dispatched d.state then record d { state = uncertain; updated_at = now } else d

-- The list of the recovered rows, which the code also returns, has no reader.
unfoldable pub recover_after_crash : ℕ → DeliveryStore → DeliveryStore
unfolding recover_row
recover_after_crash now s = record s { deliveries = map (recover_row now) s.deliveries }

unfoldable pub list_ready : DeliveryStore → List DeliveryRecord
list_ready s = sort_by (λ d. d.created_at) (keep (λ d. is_ready d.state) s.deliveries)
