-- ===== src/Storage/Operations/Fences.antt =====
-- src/storage/operation-store.ts: calls whose attempt lost its fence, repeated preparations, and the
-- streak of failed recoveries.
use qiyan_bot.Core.{ok, app_error, operation_uncertain}
use qiyan_bot.Prelude.{
  ℕ, ◌≡◌, refl, inl, inr, ap, String, str_eq, Bool, true, false, not, ◌||◌, Option, none, some,
  List, [], ◌∷◌, ◌++◌, arith, any, modify-refused, changes, eq_refl, Bool-cases, ◌∙◌, ◌≢◌, ◌&&◌,
  ◌==◌, get, passes,
}
use qiyan_bot.Storage.Operations.Rows.{
  Attempt, attempt_of, OperationStore, OperationRecord, OperationState, EffectClass, id_of, find,
  is_live, is_running, is_in_doubt, is_dispatched, is_prepared, same_effect, read_only,
  side_effecting,
}
use qiyan_bot.Storage.Operations.Writes.{
  NewOperation, may_write, accepts, write, prepare, prepare_found, find_operation, new_row,
  is_same_call, effect_of, fence_holds, assert_tool_fence,
}
use qiyan_bot.Storage.Operations.{
  mark_dispatched, checkpoint, succeed, fail, fail_and_unbind, and_unbind,
}

-- the attempt is missing, takes no tool calls any more, or has another fence
pub data HasLost (fence : ℕ) : Option Attempt → Type 0 where
  missing : HasLost fence none
  closed : {a : Attempt} → a.accepting_tools ≡ false → HasLost fence (some a)
  moved : {a : Attempt} → a.tool_fence ≢ fence → HasLost fence (some a)

refuses :
    (fence : ℕ) (o : Option Attempt)
    → HasLost fence o
    → passes (λ a. a.accepting_tools && (a.tool_fence == fence)) o ≡ false
refuses fence none missing = refl
refuses fence (some a) (closed h) = ground (arith, h)
refuses fence (some a) (moved h) = ground (arith, h)

write_refused :
    (id : String) (free fenced : OperationState → Bool) (fence : ℕ)
    (f : OperationRecord → OperationRecord) (s : OperationStore) (r : OperationRecord)
    → find id s ≡ some r
    → accepts r.attempt_id fence s ≡ false
    → write id free fenced (some fence) f s ≡ (app_error operation_uncertain, s)
unfolding write
write_refused id free fenced fence f s r found lost =
    rw
      (
        modify-refused id_of id (may_write free fenced (some fence) s) f s.operations refused,
        refused,
      )
      refl
  where
    refused : changes id_of id (may_write free fenced (some fence) s) s.operations ≡ false
    refused = ground arith

-- Where an operation's attempt is missing, is closed to tool calls or has moved on to another fence,
-- a dispatch, a checkpoint, a success and a failure under the old fence all throw and change
-- nothing, whatever the operation's state; so does the failure that also gives the directive back.
pub lost_fence :
    (id text : String) (is_uncertain : Bool) (fence now : ℕ) (s : OperationStore)
    (r : OperationRecord)
    → find id s ≡ some r
    → HasLost fence (get attempt_of r.attempt_id s.attempts)
    → (mark_dispatched id (some fence) now s ≡ (app_error operation_uncertain, s))
      × (checkpoint id text (some fence) now s ≡ (app_error operation_uncertain, s))
      × (succeed id text (some fence) now s ≡ (app_error operation_uncertain, s))
      × (fail id text is_uncertain (some fence) now s ≡ (app_error operation_uncertain, s))
      × (fail_and_unbind id text (some fence) now s ≡ (app_error operation_uncertain, s))
unfolding mark_dispatched checkpoint succeed fail fail_and_unbind
lost_fence id text is_uncertain fence now s r found over =
    let lost : accepts r.attempt_id fence s ≡ false =
      refuses fence (get attempt_of r.attempt_id s.attempts) over in
    (
      write_refused id is_prepared is_prepared fence _ s r found lost,
      write_refused id is_in_doubt is_dispatched fence _ s r found lost,
      write_refused id is_live is_running fence _ s r found lost,
      write_refused id is_live is_running fence _ s r found lost,
      ap (λ w. and_unbind id w s) (write_refused id is_live is_running fence _ s r found lost)
          ∙ (unfold and_unbind in refl),
    )

find_operation-append :
    (input : NewOperation) (r : OperationRecord) (rs : List OperationRecord)
    → find_operation input rs ≡ none
    → r.context_id ≡ input.new_context
    → is_same_call input r ≡ true
    → find_operation input (rs ++ r ∷ []) ≡ some r
unfolding find_operation
find_operation-append input r [] h c k = ground (arith, eq_refl input.new_context)
find_operation-append input r (x ∷ rs) h c k = ground (arith, find_operation-append input r rs)

same_effect_refl : (e : EffectClass) → same_effect e e ≡ true
same_effect_refl read_only = refl
same_effect_refl side_effecting = refl

-- what a preparation that returns an operation leaves in the ledger
found_after :
    (hash : String → String) (o : Option OperationRecord) (id : String) (input : NewOperation)
    (now : ℕ) (s : OperationStore) (r : OperationRecord)
    → find_operation input s.operations ≡ o
    → (prepare_found hash o id input now s).0 ≡ ok r
    → (find_operation input (prepare_found hash o id input now s).1.operations ≡ some r)
      × (str_eq r.args_hash (hash input.new_args) ≡ true)
      × (same_effect r.effect_class (effect_of input) ≡ true)
      × ((prepare_found hash o id input now s).1.attempts ≡ s.attempts)
unfolding prepare_found
found_after hash (some q) id input now s r h e =
    elim (Bool-cases (
      not (str_eq q.args_hash (hash input.new_args))
      || not (same_effect q.effect_class (effect_of input)))) [
        | inl conflict ↦ absurd (ground arith)
        | inr agree ↦ (ground arith, ground arith, ground arith, ground arith)
      ]
found_after hash none id input now s r h e =
    elim (Bool-cases (any (is_same_call input) s.operations)) [
      | inl clash ↦ absurd (ground arith)
      | inr fresh ↦ (
        ground (
          arith,
          eq_refl input.new_attempt,
          eq_refl input.new_call,
          eq_refl input.new_kind,
          find_operation-append input (new_row hash id input now s) s.operations h refl,
        ),
        ground (arith, eq_refl (hash input.new_args)),
        ground (arith, same_effect_refl (effect_of input)),
        ground arith,
      )
    ]

prepare_known :
    (hash : String → String) (id : String) (input : NewOperation) (fence : Option ℕ) (now : ℕ)
    (t : OperationStore) (r : OperationRecord)
    → fence_holds input.new_attempt fence t ≡ true
    → find_operation input t.operations ≡ some r
    → str_eq r.args_hash (hash input.new_args) ≡ true
    → same_effect r.effect_class (effect_of input) ≡ true
    → prepare hash id input fence now t ≡ (ok r, t)
unfolding prepare
prepare_known hash id input fence now t r holds found same_args same =
    rw (holds, found, prepare_found, same_args, same) refl

fence_holds-attempts :
    (attempt_id : String) (fence : Option ℕ) (s t : OperationStore)
    → t.attempts ≡ s.attempts
    → fence_holds attempt_id fence t ≡ fence_holds attempt_id fence s
fence_holds-attempts attempt_id none s t e = refl
fence_holds-attempts attempt_id (some fence) s t e = unfold assert_tool_fence in ground (arith, e)

-- A call that was prepared is prepared again, under another identifier and at another time, to the
-- same operation, and nothing is written: repeated tool calls have one operation.
pub prepare_again :
    (hash : String → String) (id id' : String) (input : NewOperation) (fence : Option ℕ)
    (now now' : ℕ) (s : OperationStore) (r : OperationRecord)
    → (prepare hash id input fence now s).0 ≡ ok r
    → prepare hash id' input fence now' (prepare hash id input fence now s).1
      ≡ (ok r, (prepare hash id input fence now s).1)
unfolding prepare
prepare_again hash id id' input fence now now' s r h =
    elim (Bool-cases (fence_holds input.new_attempt fence s)) [
      | inl holds ↦
          let o = find_operation input s.operations in
          let t = (prepare_found hash o id input now s).1 in
          let after = found_after hash o id input now s r refl (ground arith) in
          rw holds (
            prepare_known hash id' input fence now' t r
              (fence_holds-attempts input.new_attempt fence s t after.3 ∙ holds) after.0 after.1
              after.2)
      | inr lost ↦ absurd (ground arith)
    ]
