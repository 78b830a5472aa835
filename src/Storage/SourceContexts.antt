-- ===== src/Storage/SourceContexts.antt =====
-- src/storage/operation-store.ts: the source contexts, which are the inputs of the assistant, with
-- the order of their arrival. Lists that the code stores as JSON are their texts.
pub mod Intents
pub mod Arrivals
mod Tests
use qiyan_bot.Core.{Result, ok, error}
use qiyan_bot.Prelude.{
  ℕ, ◌+◌, suc, String, str_eq, Bool, true, false, not, ◌&&◌, ◌||◌, Option, none, some, List, [],
  ◌∷◌, ◌++◌, if◌then◌else◌, ◌==◌, any, keep, get, modify, changes, sort_by,
}
use qiyan_bot.Storage.Deliveries.Rows.{ConversationBinding}

pub data SourceKind : Type 0 where
  telegram slack event_batch recovery direct_to web_goal system_notice : SourceKind

pub data ContextState : Type 0 where
  held pending active completed superseded : ContextState

pub record SourceContext : Type 0 where
  pub id : String
  pub kind : SourceKind
  pub source_id : String
  pub raw_text : String
  pub attachment_ids : String
  pub failed_attachments : String
  pub binding : Option ConversationBinding

pub record ContextRow : Type 0 where
  pub source : SourceContext
  pub arrival_sequence : ℕ
  pub is_chat : Bool
  pub state : ContextState
  pub superseded_by : Option String
  pub created_at : ℕ

pub record ContextStore : Type 0 where
  pub contexts : List ContextRow
  pub next_value : ℕ

abbrev pub id_of : ContextRow → String
id_of r = r.source.id

abbrev pub find : String → ContextStore → Option ContextRow
find id s = get id_of id s.contexts

-- the text in which a kind is stored
abbrev pub kind_text : SourceKind → String
kind_text telegram = "telegram"
kind_text slack = "slack"
kind_text event_batch = "event_batch"
kind_text recovery = "recovery"
kind_text direct_to = "direct_to"
kind_text web_goal = "web_goal"
kind_text system_notice = "system_notice"

abbrev pub same_kind : SourceKind → SourceKind → Bool
same_kind k k' = str_eq (kind_text k) (kind_text k')

abbrev pub is_chat_kind : SourceKind → Bool
is_chat_kind telegram = true
is_chat_kind slack = true
is_chat_kind _ = false

abbrev pub is_held : ContextState → Bool
is_held held = true
is_held _ = false

abbrev pub is_pending : ContextState → Bool
is_pending pending = true
is_pending _ = false

abbrev pub is_completed : ContextState → Bool
is_completed completed = true
is_completed _ = false

abbrev pub same_adapter : Option ConversationBinding → Option ConversationBinding → Bool
same_adapter none none = true
same_adapter (some b) (some c) = str_eq b.adapter_id c.adapter_id
same_adapter _ _ = false

abbrev pub needs_kind : Option ConversationBinding → Bool
needs_kind none = true
needs_kind (some b) = false

-- the unique keys: the identifier, the arrival, and the native source within its adapter, or within
-- its kind where there is no adapter
abbrev pub conflicts : SourceContext → ℕ → ContextRow → Bool
conflicts c arrival r =
    str_eq r.source.id c.id
    || (r.arrival_sequence == arrival)
    || (same_adapter r.source.binding c.binding
        && str_eq r.source.source_id c.source_id
        && (not (needs_kind c.binding) || same_kind r.source.kind c.kind))

-- INSERT OR IGNORE, and the next arrival where it inserted
unfoldable pub insert_source_context :
    SourceContext → ContextState → ℕ → ContextStore → Bool × ContextStore
insert_source_context c state now s =
    if any (conflicts c s.next_value) s.contexts then (false, s) else (
      true,
      record {
        contexts =
            s.contexts
            ++ record {
              source = c;
              arrival_sequence = s.next_value;
              is_chat = is_chat_kind c.kind;
              state = state;
              superseded_by = none;
              created_at = now;
            }
              ∷ [];
        next_value = suc s.next_value;
      },
    )

abbrev pub create_source_context : SourceContext → ℕ → ContextStore → Bool × ContextStore
create_source_context c = insert_source_context c pending

abbrev pub create_completed_source_context : SourceContext → ℕ → ContextStore → Bool × ContextStore
create_completed_source_context c = insert_source_context c completed

unfoldable pub same_source_identity : Option ContextRow → SourceContext → Bool → Bool
same_source_identity none expected compare_raw_text = false
same_source_identity (some r) expected compare_raw_text =
    same_kind r.source.kind expected.kind
    && str_eq r.source.source_id expected.source_id
    && (not compare_raw_text || str_eq r.source.raw_text expected.raw_text)
    && str_eq r.source.attachment_ids expected.attachment_ids

abbrev pub row_is : (ContextState → Bool) → Option ContextRow → Bool
row_is test none = false
row_is test (some r) = test r.state

-- One transaction, which a conflict takes back. The second test of the state allows all five.
unfoldable pub create_web_goal_intent :
    SourceContext → SourceContext → ℕ → ContextStore → Bool × ContextStore
unfolding insert_source_context same_source_identity
create_web_goal_intent operation awareness now s =
    let first = (insert_source_context operation completed now s).1 in
    let second = (insert_source_context awareness held now first).1 in
    let stored = find operation.id first in
    let aware = find awareness.id second in
    if same_source_identity stored operation true
      && row_is is_completed stored
      && same_source_identity aware awareness (row_is is_held aware)
    then (true, second)
    else (false, s)

unfoldable pub list_held_source_contexts : SourceKind → ContextStore → List ContextRow
list_held_source_contexts kind s =
    sort_by (λ r. r.arrival_sequence)
      (keep (λ r. is_held r.state && same_kind r.source.kind kind) s.contexts)

unfoldable pub list_pending_source_contexts : List SourceKind → ContextStore → List ContextRow
list_pending_source_contexts kinds s =
    sort_by (λ r. r.arrival_sequence)
      (keep (λ r. is_pending r.state && any (λ k. same_kind r.source.kind k) kinds) s.contexts)

unfoldable pub release_held_source_context : String → String → ContextStore → Bool × ContextStore
release_held_source_context id raw_text s = (
  changes id_of id (λ r. is_held r.state) s.contexts,
  record s {
    contexts =
        modify id_of id (λ r. is_held r.state)
          (λ r. record r { source = record (r.source) { raw_text = raw_text }; state = pending })
          s.contexts;
  },
)

unfoldable pub set_source_state : String → ContextState → ContextStore → ContextStore
set_source_state id state s = record s {
  contexts = modify id_of id (λ _. true) (λ r. record r { state = state }) s.contexts;
}

abbrev pub recovery_context : ContextRow → String → String → SourceContext
recovery_context r recovery_id receipts = record {
  id = recovery_id;
  kind = recovery;
  source_id = r.source.id;
  raw_text = receipts;
  attachment_ids = "[]";
  failed_attachments = "[]";
  binding = r.source.binding;
}

-- `supersedeWithRecovery`: the context of the recovery, and the mark on the one it replaces
unfoldable pub supersede_source :
    ContextRow → String → String → ℕ → ContextStore → SourceContext × ContextStore
unfolding insert_source_context
supersede_source r recovery_id receipts now s =
    let context = recovery_context r recovery_id receipts in
    let inserted = (create_source_context context now s).1 in
    (
      context,
      record inserted {
        contexts =
            modify id_of r.source.id (λ _. true)
              (λ x. record x { state = superseded; superseded_by = some recovery_id })
              inserted.contexts;
      },
    )

unfoldable pub superseded_already :
    Option ContextRow → ContextStore → Result SourceContext × ContextStore
superseded_already none s = (error, s)
superseded_already (some r) s = (ok r.source, s)

unfoldable pub supersede_found :
    Option ContextRow → String → String → ℕ → ContextStore → Result SourceContext × ContextStore
unfolding supersede_source superseded_already
supersede_found none recovery_id receipts now s = (error, s)
supersede_found (some r) recovery_id receipts now s = not_yet r.superseded_by
  where
    not_yet : Option String → Result SourceContext × ContextStore
    not_yet (some earlier) = superseded_already (find earlier s) s
    not_yet none =
        let (context, after) = supersede_source r recovery_id receipts now s in (ok context, after)

unfoldable pub supersede_with_recovery :
    String → String → String → ℕ → ContextStore → Result SourceContext × ContextStore
unfolding supersede_found
supersede_with_recovery context_id recovery_id receipts now s =
    supersede_found (find context_id s) recovery_id receipts now s
