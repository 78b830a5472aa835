-- ===== src/Storage/Deliveries/Releases.antt =====
-- src/storage/delivery-store.ts: the attachments that deliveries retain and release.
use qiyan_bot.Prelude.{
  ℕ, ◌≤◌, ◌-◌, suc, ◌≡◌, refl, inl, inr, String, str_eq, Bool, true, false, not, ◌||◌, Option, none,
  some, List, [], ◌∷◌, ◌++◌, arith, any, get, get-modify, eq_iff, eq_refl, Bool-cases, Option-cases,
}
use qiyan_bot.Storage.Deliveries.Calls.{fail_lem}
use qiyan_bot.Storage.Deliveries.Rows.{
  DeliveryStore, Attachment, handle_of, find, update, updates, is_settled, is_uncertain,
}
use qiyan_bot.Storage.Deliveries.{
  mark_dispatched, confirm, fail_in_transaction, resume_uncertain, abandon_uncertain,
  release_attachment_once, release_row, release_handle, release_attachment, mark_uncertain,
  mark_prepared, append_to_body,
}

-- the writes of the worker about one delivery
pub data Write : Type 0 where
  write_dispatch write_uncertain write_prepared write_resume write_abandon write_fail : Write
  write_confirm write_append : String → Write

unfoldable pub apply : String → ℕ → Write → DeliveryStore → DeliveryStore
apply id now write_dispatch s = (mark_dispatched id now s).1
apply id now write_uncertain s = mark_uncertain id now s
apply id now write_prepared s = mark_prepared id now s
apply id now write_resume s = (resume_uncertain id now s).1
apply id now write_abandon s = abandon_uncertain id s
apply id now write_fail s = (fail_in_transaction id now s).1
apply id now (write_confirm receipt) s = confirm id receipt now s
apply id now (write_append suffix) s = append_to_body id suffix now s

unfoldable pub apply_all : String → List (ℕ × Write) → DeliveryStore → DeliveryStore
unfolding apply
apply_all id [] s = s
apply_all id ((now, write) ∷ writes) s = apply_all id writes (apply id now write s)

abbrev pub count_of : Option Attachment → ℕ
count_of none = 0
count_of (some a) = a.ref_count

-- how many deliveries and messages still hold the attachment
abbrev pub ref_count_of : String → DeliveryStore → ℕ
ref_count_of handle s = count_of (get handle_of handle s.attachments)

abbrev pub is_released : String → DeliveryStore → Bool
is_released id s = any (λ r. str_eq r id) s.releases

-- what a step may do: it keeps a released delivery's mark and the attachments; it may release
-- once otherwise
abbrev Held : String → String → DeliveryStore → DeliveryStore → Type 0
Held handle id s t =
    (is_released id s ≡ true
      → (is_released id t ≡ true) × (ref_count_of handle t ≡ ref_count_of handle s))
    × (is_released id t ≡ false → ref_count_of handle t ≡ ref_count_of handle s)
    × (ref_count_of handle s ≤ suc (ref_count_of handle t))

Held-same :
    (handle id : String) (s t : DeliveryStore)
    → t.attachments ≡ s.attachments
    → t.releases ≡ s.releases
    → Held handle id s t
Held-same handle id s t a r = (λ h. (rw r h, rw a refl), λ h. rw a refl, ground (arith, a))

any-mark : (id : String) (rs : List String) → any (λ r. str_eq r id) (rs ++ id ∷ []) ≡ true
any-mark id [] = ground (arith, eq_refl id)
any-mark id (r ∷ rs) = ground (arith, any-mark id rs)

count-release :
    (handle h : String) (rows : List Attachment)
    → count_of (get handle_of handle rows)
      ≤ suc (count_of (get handle_of handle (release_attachment h rows)))
unfolding release_attachment
count-release handle h rows = elim (Option-cases (get handle_of handle rows)) [
  | inl missing ↦ rw missing (ground arith)
  | inr (a, found) ↦ ground (
    arith,
    eq_iff h handle,
    get-modify handle_of handle h (λ _. true) (λ a. record a { ref_count = a.ref_count - 1 }) rows
        (λ r. refl),
  )
]

Held-release_handle :
    (handle id : String) (h : Option String) (s : DeliveryStore)
    → Held handle id s (release_handle id h s)
unfolding release_handle
Held-release_handle handle id none s = Held-same handle id s s refl refl
Held-release_handle handle id (some h) s =
    elim (Bool-cases (str_eq h "" || any (λ r. str_eq r id) s.releases)) [
      | inl done ↦ rw done (Held-same handle id s s refl refl)
      | inr fresh ↦ rw fresh (
        λ k. absurd (ground arith),
        λ k. absurd (ground (arith, any-mark id s.releases)),
        count-release handle h s.attachments,
      )
    ]

Held-release :
    (handle id : String) (s : DeliveryStore) → Held handle id s (release_attachment_once id s)
unfolding release_attachment_once
Held-release handle id s = elim (Option-cases (find id s)) [
  | inl missing ↦ rw missing (unfold release_row in Held-same handle id s s refl refl)
  | inr (d, found) ↦
      rw found (unfold release_row in Held-release_handle handle id d.attachment_id s)
]

Held-apply :
    (handle id : String) (now : ℕ) (write : Write) (s : DeliveryStore)
    → Held handle id s (apply id now write s)
unfolding apply append_to_body confirm mark_dispatched resume_uncertain abandon_uncertain
    mark_uncertain mark_prepared
Held-apply handle id now write_dispatch s =
    Held-same handle id s (apply id now write_dispatch s) refl refl
Held-apply handle id now write_uncertain s =
    Held-same handle id s (apply id now write_uncertain s) refl refl
Held-apply handle id now write_prepared s =
    Held-same handle id s (apply id now write_prepared s) refl refl
Held-apply handle id now write_resume s =
    Held-same handle id s (apply id now write_resume s) refl refl
Held-apply handle id now (write_append suffix) s =
    Held-same handle id s (apply id now (write_append suffix) s) refl refl
Held-apply handle id now write_abandon s =
    elim (Bool-cases (updates id (λ d. is_uncertain d.state) s)) [
      | inl live ↦ rw live (Held-release handle id s)
      | inr closed ↦ rw closed (Held-same handle id s s refl refl)
    ]
Held-apply handle id now write_fail s =
    rw (fail_lem id now s) (elim (Bool-cases (updates id (λ d. not (is_settled d.state)) s)) [
      | inl live ↦ rw live (Held-release handle id (update id _ _ s))
      | inr closed ↦ rw closed (Held-same handle id s s refl refl)
    ])
Held-apply handle id now (write_confirm receipt) s =
    elim (Bool-cases (updates id (λ d. not (is_settled d.state)) s)) [
      | inl live ↦ rw live (Held-release handle id (update id _ _ s))
      | inr closed ↦ rw closed (Held-same handle id s s refl refl)
    ]

Held-trans :
    (handle id : String) (s t u : DeliveryStore)
    → Held handle id s t
    → Held handle id t u
    → Held handle id s u
Held-trans handle id s t u h k = elim (Bool-cases (is_released id t)) [
  | inl marked ↦ (
    λ e. ((k.0 marked).0, ground (arith, (k.0 marked).1, (h.0 e).1)),
    λ e. absurd (ground (arith, (k.0 marked).0)),
    ground (arith, (k.0 marked).1, h.2),
  )
  | inr unmarked ↦ (
    λ e. absurd (ground (arith, (h.0 e).0)),
    λ e. ground (arith, h.1 unmarked, k.1 e),
    ground (arith, h.1 unmarked, k.2),
  )
]

Held-apply_all :
    (handle id : String) (writes : List (ℕ × Write)) (s : DeliveryStore)
    → Held handle id s (apply_all id writes s)
unfolding apply_all
Held-apply_all handle id [] s = Held-same handle id s s refl refl
Held-apply_all handle id ((now, write) ∷ writes) s =
    Held-trans handle id s (apply id now write s) (apply_all id writes (apply id now write s))
      (Held-apply handle id now write s) (Held-apply_all handle id writes (apply id now write s))

-- Whatever the writes about one delivery are, in any order and number, confirmations, failures and
-- abandonments included, they take at most one reference off an attachment.
pub released_once :
    (handle id : String) (writes : List (ℕ × Write)) (s : DeliveryStore)
    → ref_count_of handle s ≤ suc (ref_count_of handle (apply_all id writes s))
released_once handle id writes s = (Held-apply_all handle id writes s).2
