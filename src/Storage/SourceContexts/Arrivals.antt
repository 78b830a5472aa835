-- ===== src/Storage/SourceContexts/Arrivals.antt =====
-- src/storage/operation-store.ts: contexts are numbered in the order of their arrival.
use qiyan_bot.Prelude.{
  ℕ, ◌≤◌, suc, ◌≡◌, refl, inl, inr, String, str_eq, Bool, true, Option, none, some, List, [], ◌∷◌,
  ◌++◌, arith, any, modify, Bool-cases, Option-cases,
}
use qiyan_bot.Storage.SourceContexts.Intents.{create_web_goal_intent_stores}
use qiyan_bot.Storage.SourceContexts.{
  ContextStore, ContextRow, ContextState, SourceContext, id_of, find, conflicts,
  insert_source_context, create_web_goal_intent, release_held_source_context, set_source_state,
  supersede_with_recovery, supersede_found, supersede_source, superseded_already, recovery_context,
  pending, completed, held, superseded,
}

-- the arrivals from `low` up to `high` rise along the table
unfoldable pub Rises : ℕ → ℕ → List ContextRow → Type 0
Rises low high [] = low ≤ high
Rises low high (r ∷ rs) = (low ≤ r.arrival_sequence) × Rises (suc r.arrival_sequence) high rs

unfoldable pub IsSequenced : ContextStore → Type 0
unfolding Rises
IsSequenced s = Rises 0 s.next_value s.contexts

Rises-append :
    (low high : ℕ) (r : ContextRow) (rs : List ContextRow)
    → r.arrival_sequence ≡ high
    → Rises low high rs
    → Rises low (suc high) (rs ++ r ∷ [])
unfolding Rises
Rises-append low high r [] e h = (omega (arith, e, h), omega (arith, e))
Rises-append low high r (x ∷ rs) e h = (h.0, Rises-append (suc x.arrival_sequence) high r rs e h.1)

Rises-modify :
    (low high : ℕ) (k : String) (guard : ContextRow → Bool) (f : ContextRow → ContextRow)
    (rs : List ContextRow)
    → ((r : ContextRow) → (f r).arrival_sequence ≡ r.arrival_sequence)
    → Rises low high rs
    → Rises low high (modify id_of k guard f rs)
unfolding modify Rises
Rises-modify low high k guard f [] same h = h
Rises-modify low high k guard f (r ∷ rs) same h = elim (Bool-cases (str_eq r.source.id k)) [
  | inl here ↦ rw here (elim (Bool-cases (guard r)) [
    | inl passed ↦ rw passed (omega (arith, same r, h.0), rw (same r) h.1)
    | inr refused ↦ rw refused h
  ])
  | inr there ↦ rw there (h.0, Rises-modify (suc r.arrival_sequence) high k guard f rs same h.1)
]

insert-IsSequenced :
    (c : SourceContext) (state : ContextState) (now : ℕ) (s : ContextStore)
    → IsSequenced s
    → IsSequenced (insert_source_context c state now s).1
unfolding insert_source_context IsSequenced
insert-IsSequenced c state now s h = elim (Bool-cases (any (conflicts c s.next_value) s.contexts)) [
  | inl clash ↦ rw clash h
  | inr fresh ↦ rw fresh (Rises-append 0 s.next_value _ s.contexts refl h)
]

supersede-IsSequenced :
    (o : Option ContextRow) (recovery_id receipts : String) (now : ℕ) (s : ContextStore)
    → IsSequenced s
    → IsSequenced (supersede_found o recovery_id receipts now s).1
unfolding supersede_found
supersede-IsSequenced none recovery_id receipts now s h = h
supersede-IsSequenced (some r) recovery_id receipts now s h = elim (Option-cases r.superseded_by) [
  | inl first ↦ rw first marked
  | inr (earlier, known) ↦ rw known (unchanged (find earlier s))
]
  where
    unchanged : (o : Option ContextRow) → IsSequenced (superseded_already o s).1
    unchanged none = unfold superseded_already in h
    unchanged (some x) = unfold superseded_already in h

    marked : IsSequenced (supersede_source r recovery_id receipts now s).1
    marked =
        let context = recovery_context r recovery_id receipts in
        let inserted = (insert_source_context context pending now s).1 in
        unfold supersede_source IsSequenced in
        Rises-modify 0 inserted.next_value r.source.id (λ _. true)
          (λ x. record x { state = superseded; superseded_by = some recovery_id }) inserted.contexts
          (λ x. refl) (insert-IsSequenced context pending now s h)

-- every call that writes the contexts
pub data Call : Type 0 where
  creates : SourceContext → ContextState → Call
  intends : SourceContext → SourceContext → Call
  releases : String → String → Call
  sets_state : String → ContextState → Call
  supersedes : String → String → String → Call

unfoldable pub step : ℕ → Call → ContextStore → ContextStore
step now (creates c state) s = (insert_source_context c state now s).1
step now (intends operation awareness) s = (create_web_goal_intent operation awareness now s).1
step now (releases id raw_text) s = (release_held_source_context id raw_text s).1
step now (sets_state id state) s = set_source_state id state s
step now (supersedes id recovery_id receipts) s =
    (supersede_with_recovery id recovery_id receipts now s).1

unfoldable pub run : List (ℕ × Call) → ContextStore → ContextStore
unfolding step
run [] s = s
run ((now, call) ∷ calls) s = run calls (step now call s)

intent-IsSequenced :
    (operation awareness : SourceContext) (now : ℕ) (s : ContextStore)
    → IsSequenced s
    → IsSequenced (create_web_goal_intent operation awareness now s).1
intent-IsSequenced operation awareness now s h =
    elim (create_web_goal_intent_stores operation awareness now s) [
      | inl stored ↦ rw stored (
          insert-IsSequenced awareness held now (insert_source_context operation completed now s).1
            (insert-IsSequenced operation completed now s h))
      | inr refused ↦ rw refused h
    ]

step-IsSequenced :
    (now : ℕ) (call : Call) (s : ContextStore) → IsSequenced s → IsSequenced (step now call s)
unfolding step release_held_source_context set_source_state supersede_with_recovery
step-IsSequenced now (creates c state) s h = insert-IsSequenced c state now s h
step-IsSequenced now (intends operation awareness) s h =
    intent-IsSequenced operation awareness now s h
step-IsSequenced now (releases id raw_text) s h =
    unfold IsSequenced in Rises-modify 0 s.next_value id _ _ s.contexts (λ r. refl) h
step-IsSequenced now (sets_state id state) s h =
    unfold IsSequenced in Rises-modify 0 s.next_value id _ _ s.contexts (λ r. refl) h
step-IsSequenced now (supersedes id recovery_id receipts) s h =
    supersede-IsSequenced (find id s) recovery_id receipts now s h

-- From a table whose arrivals rise with the insertions and stay below the next one, every sequence
-- of calls leads to such a table: no two contexts share an arrival, and a later context has a
-- greater one.
pub run-IsSequenced :
    (calls : List (ℕ × Call)) (s : ContextStore) → IsSequenced s → IsSequenced (run calls s)
unfolding run
run-IsSequenced [] s h = h
run-IsSequenced ((now, call) ∷ calls) s h =
    run-IsSequenced calls (step now call s) (step-IsSequenced now call s h)
