-- ===== src/Assistant/AttemptScope/Sources.antt =====
-- src/assistant/attempt-scope.ts: the sources of an attempt and what a directive of one decides.
use qiyan_bot.Prelude.{
  ℕ, String, str_eq, Bool, true, false, Option, List, keep, is_some, get, sort_by, length,
}
use qiyan_bot.Storage.Operations.Rows.{OperationStore, context_of}
use qiyan_bot.Directives.Parser.{
  Text, ParsedDirective, nothing, passes, sends_to, collects, malformed, parse_directive,
}

pub data GuardedTool : Type 0 where
  send_to_session collect_messages : GuardedTool

pub data MemberState : Type 0 where
  pending start_submitting steer_submitting uncertain : MemberState
  submitted completed failed superseded : MemberState

pub record AttemptSource : Type 0 where
  pub attempt_id : String
  pub context_id : String
  pub source_ordinal : ℕ
  pub state : MemberState

-- the columns of `source_contexts` that are read; of the failed attachments, their number
pub record Source : Type 0 where
  pub id : String
  pub raw_text : Text
  pub attachment_ids : List String
  pub failed_attachments : ℕ

pub record Scope : Type 0 where
  pub members : List AttemptSource
  pub sources : List Source
  pub store : OperationStore

pub record ToolArgs : Type 0 where
  pub content : Option Text
  pub attachment_ids : Option (List String)
  pub count : Option ℕ

abbrev pub source_id : Source → String
source_id s = s.id

unfoldable pub admitted_sources : String → Scope → List AttemptSource
admitted_sources attempt_id s =
    sort_by (λ m. m.source_ordinal) (keep (λ m. str_eq m.attempt_id attempt_id) s.members)

-- not pending, failed or superseded
abbrev pub is_admitted : MemberState → Bool
is_admitted pending = false
is_admitted failed = false
is_admitted superseded = false
is_admitted _ = true

unfoldable pub find_source : String → Scope → Option Source
find_source context_id s = get source_id context_id s.sources

unfoldable pub parse : ℕ → Source → ParsedDirective
parse max_collect_count source =
    parse_directive source.raw_text (length source.attachment_ids) max_collect_count

unfoldable pub is_consumed : String → Scope → Bool
is_consumed context_id s = is_some (get context_of context_id s.store.consumptions)

pub data Selection : Type 0 where
  directive : String → ParsedDirective → Selection
  ordinary : String → Selection
  malformed_directive mismatch exhausted : Selection

-- `parsed.kind === expected`
abbrev pub is_expected : GuardedTool → ParsedDirective → Bool
is_expected send_to_session (passes prefix payload) = true
is_expected send_to_session _ = false
is_expected collect_messages (collects prefix count) = true
is_expected collect_messages _ = false

abbrev pub is_none : ParsedDirective → Bool
is_none nothing = true
is_none _ = false

-- what an unconsumed directive of the source decides
unfoldable pub choose : GuardedTool → String → ParsedDirective → Selection
choose tool context_id nothing = mismatch
choose tool context_id (malformed reason) = malformed_directive
choose tool context_id (sends_to prefix target payload) = malformed_directive
choose send_to_session context_id (passes prefix payload) =
    directive context_id (passes prefix payload)
choose send_to_session context_id (collects prefix count) = mismatch
choose collect_messages context_id (passes prefix payload) = mismatch
choose collect_messages context_id (collects prefix count) =
    directive context_id (collects prefix count)
