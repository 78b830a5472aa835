-- ===== src/Storage/Operations/Directives.antt =====
-- src/storage/operation-store.ts: the authorization of a directive is consumed once.
use qiyan_bot.Core.{Result, ok, app_error, error, directive_already_consumed, operation_uncertain}
use qiyan_bot.Prelude.{
  ℕ, ◌≡◌, get-modify, modify, modify-refused, ◌⊎◌, refl, ap, ◌∙◌, inl, inr, String, str_eq, Bool,
  true, false, not, ◌&&◌, Option, none, some, List, [], ◌∷◌, arith, if◌then◌else◌, any, keep, get,
  get-append, changes, is_some, eq_refl, Bool-cases, Option-cases,
}
use qiyan_bot.Storage.Operations.Rows.{
  OperationStore, OperationRecord, Consumption, context_of, id_of, find, OperationState, failed,
  is_live, is_running,
}
use qiyan_bot.Storage.Operations.Writes.{write, may_write}
use qiyan_bot.Storage.Operations.{
  fail, fail_and_unbind, and_unbind, bind_directive, bind_replayed, replay_directive, replay_found,
  unbind_directive,
}

abbrev pub state_of : Option OperationRecord → Option OperationState
state_of none = none
state_of (some r) = some r.state

-- who consumed the context's directive
consumed :
    (hash : String → String) (context_id kind binding operation_id : String) (s : OperationStore)
    → get context_of context_id s.consumptions ≡ none
    → is_some (find operation_id s) ≡ true
    → get context_of context_id
        (bind_directive hash context_id kind binding operation_id s).1.consumptions
      ≡ some (record {
        context = context_id;
        consumed_kind = kind;
        binding_hash = hash binding;
        operation_id = operation_id;
      })
unfolding bind_directive replay_directive
consumed hash context_id kind binding operation_id s free there =
    rw (free, there, replay_found, bind_replayed)
      (ground (
        arith,
        eq_refl context_id,
        get-append context_of context_id
            (record {
              context = context_id;
              consumed_kind = kind;
              binding_hash = hash binding;
              operation_id = operation_id;
            })
            s.consumptions,
      ))

operations-bind :
    (hash : String → String) (context_id kind binding operation_id : String) (s : OperationStore)
    → (bind_directive hash context_id kind binding operation_id s).1.operations ≡ s.operations
unfolding bind_directive
operations-bind hash context_id kind binding operation_id s =
    replayed (replay_directive hash context_id kind binding s)
  where
    replayed :
        (a : Result (Option OperationRecord))
        → (bind_replayed hash a context_id kind binding operation_id s).1.operations ≡ s.operations
    replayed (app_error code) = unfold bind_replayed in refl
    replayed error = unfold bind_replayed in refl
    replayed (ok (some r)) = unfold bind_replayed in refl
    replayed (ok none) = unfold bind_replayed in ground arith

bind_bound :
    (hash : String → String) (context_id kind binding operation_id : String) (t : OperationStore)
    (c : Consumption) (r : OperationRecord)
    → get context_of context_id t.consumptions ≡ some c
    → find c.operation_id t ≡ some r
    → bind_directive hash context_id kind binding operation_id t ≡ (
      if str_eq c.consumed_kind kind && str_eq c.binding_hash (hash binding)
          then ok tt
          else app_error directive_already_consumed,
      t,
    )
unfolding bind_directive replay_directive
bind_bound hash context_id kind binding operation_id t c r bound found =
    rw (bound, replay_found)
      (elim (Bool-cases (str_eq c.consumed_kind kind)) [
        | inl same_kind ↦ elim (Bool-cases (str_eq c.binding_hash (hash binding))) [
          | inl same ↦ rw (same_kind, same, found, bind_replayed) refl
          | inr other ↦ rw (same_kind, other, bind_replayed) refl
        ]
        | inr other ↦ rw (other, bind_replayed) refl
      ])

-- A directive authorizes one action: once its context is bound to an operation, a bind with another
-- kind or with arguments of another hash throws and changes nothing, and a bind with the same ones
-- finds the operation, if it is there, and changes nothing.
pub bind_once :
    (hash : String → String)
    (context_id kind binding operation_id kind' binding' operation_id' : String)
    (s : OperationStore) (r : OperationRecord)
    → get context_of context_id s.consumptions ≡ none
    → find operation_id s ≡ some r
    → bind_directive hash context_id kind' binding' operation_id'
        (bind_directive hash context_id kind binding operation_id s).1
      ≡ (
        if str_eq kind kind' && str_eq (hash binding) (hash binding')
            then ok tt
            else app_error directive_already_consumed,
        (bind_directive hash context_id kind binding operation_id s).1,
      )
bind_once hash context_id kind binding operation_id kind' binding' operation_id' s r free found =
    bind_bound hash context_id kind' binding' operation_id'
      (bind_directive hash context_id kind binding operation_id s).1
      (record {
        context = context_id;
        consumed_kind = kind;
        binding_hash = hash binding;
        operation_id = operation_id;
      })
      r (consumed hash context_id kind binding operation_id s free (ap is_some found))
      (ap (get id_of operation_id) (operations-bind hash context_id kind binding operation_id s)
        ∙ found)

any-keep_others :
    (id : String) (cs : List Consumption)
    → any (λ c. str_eq c.operation_id id) (keep (λ c. not (str_eq c.operation_id id)) cs) ≡ false
any-keep_others id [] = refl
any-keep_others id (c ∷ cs) = ground (arith, any-keep_others id cs)

state-write :
    (id : String) (free fenced : OperationState → Bool) (fence : Option ℕ)
    (f : OperationRecord → OperationRecord) (s : OperationStore) (st : OperationState)
    → ((r : OperationRecord) → (f r).id ≡ r.id)
    → ((r : OperationRecord) → (f r).state ≡ st)
    → ((write id free fenced fence f s).0 ≡ ok tt)
        × (state_of (find id (write id free fenced fence f s).1) ≡ some st)
      ⊎ (write id free fenced fence f s ≡ (app_error operation_uncertain, s))
unfolding write
state-write id free fenced fence f s st same moves =
    let guard = may_write free fenced fence s in
    elim (Bool-cases (changes id_of id guard s.operations)) [
      | inl changed ↦ inl (rw changed refl, state_after changed)
      | inr refused ↦ inr (rw (modify-refused id_of id guard f s.operations refused, refused) refl)
    ]
  where
    state_after :
        changes id_of id (may_write free fenced fence s) s.operations ≡ true
        → state_of (get id_of id (modify id_of id (may_write free fenced fence s) f s.operations))
          ≡ some st
    state_after changed = elim (Option-cases (find id s)) [
      | inl missing ↦ absurd (ground arith)
      | inr (r, found) ↦ ground (
        arith,
        eq_refl id,
        moves r,
        get-modify id_of id id (may_write free fenced fence s) f s.operations same,
      )
    ]

fail_lem :
    (id reason : String) (fence : Option ℕ) (now : ℕ) (s : OperationStore)
    → ((fail id reason false fence now s).0 ≡ ok tt)
        × (state_of (find id (fail id reason false fence now s).1) ≡ some failed)
      ⊎ (fail id reason false fence now s ≡ (app_error operation_uncertain, s))
unfolding fail
fail_lem id reason fence now s =
    state-write id is_live is_running fence
      (λ r. record r { state = failed; error_json = some reason; updated_at = now }) s failed
      (λ r. refl) (λ r. refl)

and_unbind_lem :
    (id : String) (w : Result (Unit {0}) × OperationStore) (s : OperationStore)
    → ((w.0 ≡ ok tt) × (state_of (find id w.1) ≡ some failed))
      ⊎ (w ≡ (app_error operation_uncertain, s))
    → ((and_unbind id w s).0 ≡ ok tt)
        × (state_of (find id (and_unbind id w s).1) ≡ some failed)
        × (any (λ c. str_eq c.operation_id id) (and_unbind id w s).1.consumptions ≡ false)
      ⊎ (and_unbind id w s ≡ (app_error operation_uncertain, s))
unfolding and_unbind unbind_directive
and_unbind_lem id (ok _, t) s (inl (done, moved)) =
    inl (refl, moved, any-keep_others id t.consumptions)
and_unbind_lem id (ok _, t) s (inr e) = absurd (ground arith)
and_unbind_lem id (app_error code, t) s (inl (done, moved)) = absurd (ground arith)
and_unbind_lem id (app_error code, t) s (inr e) = inr (ground (arith, e))
and_unbind_lem id (error, t) s (inl (done, moved)) = absurd (ground arith)
and_unbind_lem id (error, t) s (inr e) = absurd (ground arith)

-- Giving a failed operation's directive back is one transaction: either the operation is failed and
-- no directive is consumed by it any more, or the call throws and nothing changed.
pub fail_and_unbind_lem :
    (id reason : String) (fence : Option ℕ) (now : ℕ) (s : OperationStore)
    → ((fail_and_unbind id reason fence now s).0 ≡ ok tt)
        × (state_of (find id (fail_and_unbind id reason fence now s).1) ≡ some failed)
        × (any
              (λ c. str_eq c.operation_id id)
              (fail_and_unbind id reason fence now s).1.consumptions
            ≡ false)
      ⊎ (fail_and_unbind id reason fence now s ≡ (app_error operation_uncertain, s))
unfolding fail_and_unbind
fail_and_unbind_lem id reason fence now s =
    and_unbind_lem id (fail id reason false fence now s) s (fail_lem id reason fence now s)
