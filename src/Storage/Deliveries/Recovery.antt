-- ===== src/Storage/Deliveries/Recovery.antt =====
-- src/storage/delivery-store.ts: what a crash and a failed preparation leave behind.
use qiyan_bot.Core.{error}
use qiyan_bot.Prelude.{
  ℕ, ◌+◌, suc, ◌≡◌, refl, inl, inr, ◌⊎◌, String, str_eq, true, false, none, some, List, [], ◌∷◌,
  map, arith, any, keep, get, get-modify, get-append, changes, eq_refl, any-sort_by, ◌∙◌,
  Bool-cases, Option-cases, is_some,
}
use qiyan_bot.Storage.Deliveries.Rows.{
  DeliveryStore, DeliveryRecord, NewDelivery, Attachment, id_of, handle_of, find, is_settled,
  is_ready,
}
use qiyan_bot.Storage.Deliveries.{
  recover_after_crash, recover_row, list_ready, prepare_attachment, prepare_attachment_found,
  insert, retain,
}
use qiyan_bot.Storage.Deliveries.Releases.{ref_count_of, count_of}

any-ready :
    (id : String) (now : ℕ) (d : DeliveryRecord) (rows : List DeliveryRecord)
    → get id_of id rows ≡ some d
    → is_settled d.state ≡ false
    → any (λ r. str_eq r.id id) (keep (λ r. is_ready r.state) (map (recover_row now) rows)) ≡ true
unfolding get recover_row
any-ready id now d [] found h = absurd (ground arith)
any-ready id now d (r ∷ rows) found h = ground (arith, any-ready id now d rows)

-- After a crash every delivery that had not settled, dispatched ones included, is in the list of
-- those to send.
recover_lists :
    (id : String) (now : ℕ) (d : DeliveryRecord) (s : DeliveryStore)
    → find id s ≡ some d
    → is_settled d.state ≡ false
    → any (λ r. str_eq r.id id) (list_ready (recover_after_crash now s)) ≡ true
unfolding list_ready recover_after_crash
recover_lists id now d s found h = any-sort_by _ _ _ ∙ any-ready id now d s.deliveries found h

-- A new delivery with an attachment either holds one more reference to an attachment of its scope,
-- and is stored, or fails and leaves the tables as they were.
prepare_attachment_lem :
    (id handle scope_id : String) (input : NewDelivery) (now : ℕ) (s : DeliveryStore)
    → find id s ≡ none
    → ((is_some (find id (prepare_attachment id input handle scope_id now s).1) ≡ true)
        × (ref_count_of handle (prepare_attachment id input handle scope_id now s).1
            ≡ suc (ref_count_of handle s)))
      ⊎ ((prepare_attachment id input handle scope_id now s).0 ≡ error)
        × ((prepare_attachment id input handle scope_id now s).1.deliveries ≡ s.deliveries)
        × ((prepare_attachment id input handle scope_id now s).1.attachments ≡ s.attachments)
unfolding prepare_attachment
prepare_attachment_lem id handle scope_id input now s free =
    rw (free, prepare_attachment_found)
      (elim (Bool-cases
        (changes handle_of handle (λ (a : Attachment). str_eq a.scope_id scope_id) s.attachments)) [
          | inl held ↦ rw held (inl (stored, retained held))
          | inr missing ↦ rw missing (inr (refl, refl, refl))
        ])
  where
    stored :
        is_some (
          find id
            (insert id
              (record input {
                new_attachment_id = some handle;
                new_attachment_scope_id = some scope_id;
              })
              now
              s).1)
        ≡ true
    stored =
        unfold insert in
        ground (
          arith,
          eq_refl id,
          get-append id_of id
              (insert id
                (record input {
                  new_attachment_id = some handle;
                  new_attachment_scope_id = some scope_id;
                })
                now s).0
              s.deliveries,
        )

    retained :
        changes handle_of handle (λ (a : Attachment). str_eq a.scope_id scope_id) s.attachments
          ≡ true
        → count_of (get handle_of handle (retain handle scope_id s.attachments))
          ≡ suc (ref_count_of handle s)
    retained held =
        unfold retain in
        elim (Option-cases (get handle_of handle s.attachments)) [
          | inl none_ ↦ absurd (ground arith)
          | inr (a, found) ↦ ground (
            arith,
            eq_refl handle,
            get-modify handle_of handle handle (λ (a : Attachment). str_eq a.scope_id scope_id)
                (λ a. record a { ref_count = a.ref_count + 1 }) s.attachments (λ r. refl),
          )
        ]
