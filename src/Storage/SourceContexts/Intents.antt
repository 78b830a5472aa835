-- ===== src/Storage/SourceContexts/Intents.antt =====
-- src/storage/operation-store.ts: the two contexts of a goal command are stored together.
use qiyan_bot.Prelude.{
  ℕ, ◌≡◌, refl, ap, ◌∙◌, inl, inr, ◌⊎◌, String, Bool, true, false, ◌&&◌, Option, none, some, arith,
  get-append, is_some, Bool-cases, eq_iff,
}
use qiyan_bot.Storage.SourceContexts.{
  ContextStore, ContextRow, kind_text, ContextState, SourceContext, id_of, find, held, completed,
  is_completed, is_held, row_is, is_chat_kind, insert_source_context, same_source_identity,
  create_web_goal_intent,
}

-- an insertion leaves the rows that are there
find-insert :
    (j : String) (c : SourceContext) (state : ContextState) (now : ℕ) (s : ContextStore)
    → is_some (find j s) ≡ true
    → find j (insert_source_context c state now s).1 ≡ find j s
unfolding insert_source_context
find-insert j c state now s there = ground (
  arith,
  get-append id_of j
      (record {
        source = c;
        arrival_sequence = s.next_value;
        is_chat = is_chat_kind c.kind;
        state = state;
        superseded_by = none;
        created_at = now;
      })
      s.contexts,
)

no_identity : (c : SourceContext) (b : Bool) → same_source_identity none c b ≡ false
unfolding same_source_identity
no_identity c b = refl

stored_of_identity :
    (o : Option ContextRow) (c : SourceContext) (b : Bool)
    → same_source_identity o c b ≡ true
    → is_some o ≡ true
unfolding same_source_identity
stored_of_identity none c b h = h
stored_of_identity (some r) c b h = refl

-- what the transaction leaves: both insertions, or nothing
pub create_web_goal_intent_stores :
    (operation awareness : SourceContext) (now : ℕ) (s : ContextStore)
    → ((create_web_goal_intent operation awareness now s).1
        ≡ (insert_source_context awareness held now
            (insert_source_context operation completed now s).1).1)
      ⊎ ((create_web_goal_intent operation awareness now s).1 ≡ s)
unfolding create_web_goal_intent
create_web_goal_intent_stores operation awareness now s =
    let first = (insert_source_context operation completed now s).1 in
    let second = (insert_source_context awareness held now first).1 in
    let stored = find operation.id first in
    let aware = find awareness.id second in
    let same = same_source_identity stored operation true in
    let same_aware = same_source_identity aware awareness (row_is is_held aware) in
    elim (Bool-cases (same && row_is is_completed stored && same_aware)) [
      | inl agree ↦ inl (rw agree refl)
      | inr differ ↦ inr (rw differ refl)
    ]

-- the row is the context's, as far as its identity goes
pub record IsOf (c : SourceContext) (r : ContextRow) : Type 0 where
  pub same_text : kind_text r.source.kind ≡ kind_text c.kind
  pub same_source : r.source.source_id ≡ c.source_id
  pub same_attachments : r.source.attachment_ids ≡ c.attachment_ids

-- what is stored under the identifiers of a goal command
pub record IsIntent (operation awareness : SourceContext) (s : ContextStore) : Type 0 where
  pub stored : ContextRow
  pub stored_there : find operation.id s ≡ some stored
  pub stored-IsOf : IsOf operation stored
  pub stored_text : stored.source.raw_text ≡ operation.raw_text
  pub stored_done : is_completed stored.state ≡ true
  pub aware : ContextRow
  pub aware_there : find awareness.id s ≡ some aware
  pub aware-IsOf : IsOf awareness aware
  pub aware_text : is_held aware.state ≡ true → aware.source.raw_text ≡ awareness.raw_text

all_three : (a b c : Bool) → (a && b && c) ≡ true → (a ≡ true) × (b ≡ true) × (c ≡ true)
all_three true true true h = (refl, refl, refl)
all_three true true false h = absurd (ground (arith, h))
all_three true false c h = absurd (ground (arith, h))
all_three false b c h = absurd (ground (arith, h))

identity-IsOf :
    (r : ContextRow) (c : SourceContext) (b : Bool)
    → same_source_identity (some r) c b ≡ true
    → IsOf c r
unfolding same_source_identity
identity-IsOf r c b h = record {
  same_text = ground (arith, h, eq_iff (kind_text r.source.kind) (kind_text c.kind));
  same_source = ground (arith, h, eq_iff r.source.source_id c.source_id);
  same_attachments = ground (arith, h, eq_iff r.source.attachment_ids c.attachment_ids);
}

identity_text :
    (r : ContextRow) (c : SourceContext) (b : Bool)
    → same_source_identity (some r) c b ≡ true
    → b ≡ true
    → r.source.raw_text ≡ c.raw_text
unfolding same_source_identity
identity_text r c b h e = ground (arith, h, e, eq_iff r.source.raw_text c.raw_text)

accepted-IsIntent :
    (operation awareness : SourceContext) (s : ContextStore) (r q : ContextRow)
    → find operation.id s ≡ some r
    → find awareness.id s ≡ some q
    → same_source_identity (some r) operation true ≡ true
    → is_completed r.state ≡ true
    → same_source_identity (some q) awareness (is_held q.state) ≡ true
    → IsIntent operation awareness s
accepted-IsIntent operation awareness s r q found found' same done same' = record {
  stored = r;
  stored_there = found;
  stored-IsOf = identity-IsOf r operation true same;
  stored_text = identity_text r operation true same refl;
  stored_done = done;
  aware = q;
  aware_there = found';
  aware-IsOf = identity-IsOf q awareness (is_held q.state) same';
  aware_text = identity_text q awareness (is_held q.state) same';
}

-- A goal command is stored as a whole or not at all. Either the call answers true, and under the
-- operation's identifier a completed context is stored with this operation's kind, source, text and
-- attachments, and under the awareness context's identifier one with its kind, source and
-- attachments, and with its text while it is held; or it answers false and changes nothing.
pub create_web_goal_intent_lem :
    (operation awareness : SourceContext) (now : ℕ) (s : ContextStore)
    → ((create_web_goal_intent operation awareness now s).0 ≡ true)
        × IsIntent operation awareness (create_web_goal_intent operation awareness now s).1
      ⊎ (create_web_goal_intent operation awareness now s ≡ (false, s))
unfolding create_web_goal_intent
create_web_goal_intent_lem operation awareness now s =
    let first = (insert_source_context operation completed now s).1 in
    let second = (insert_source_context awareness held now first).1 in
    let stored = find operation.id first in
    let aware = find awareness.id second in
    let same = same_source_identity stored operation true in
    let same_aware = same_source_identity aware awareness (row_is is_held aware) in
    elim (Bool-cases (same && row_is is_completed stored && same_aware)) [
      | inl agree ↦
          rw agree (inl (refl, intent_stored first second refl stored refl aware refl agree))
      | inr differ ↦ rw differ (inr refl)
    ]
  where
    intent_stored :
        (first second : ContextStore)
        → second ≡ (insert_source_context awareness held now first).1
        → (o : Option ContextRow) → find operation.id first ≡ o
        → (a : Option ContextRow) → find awareness.id second ≡ a
        → (same_source_identity o operation true
            && row_is is_completed o
            && same_source_identity a awareness (row_is is_held a))
          ≡ true
        → IsIntent operation awareness second
    intent_stored first second e none f a g h =
        absurd (ground (arith, h, no_identity operation true))
    intent_stored first second e (some r) f none g h =
        absurd (ground (arith, h, no_identity awareness false))
    intent_stored first second e (some r) f (some q) g h =
        let parts = all_three _ _ _ h in
        accepted-IsIntent operation awareness second r q
          (ap (find operation.id) e
            ∙ find-insert operation.id awareness held now first (ap is_some f)
            ∙ f)
          g parts.0 parts.1 parts.2
