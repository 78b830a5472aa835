-- ===== src/Assistant/AttemptScope.antt =====
-- src/assistant/attempt-scope.ts: which of the owner's messages authorizes a guarded tool call. The
-- code after each await is a definition of its own; what other code does in between is the change of
-- the arguments. The ledger is that of Storage/Operations.antt, the parser that of
-- Directives/Parser.antt; the texts of the messages are code units. The arguments of a tool call are
-- read as far as the code looks: a content that is a text, an array of attachments, a count.
pub mod Sources
pub mod Selections
pub mod Authority
pub mod Commits
mod Tests
use qiyan_bot.Core.{
  Result, ok, app_error, error, operation_conflict, directive_already_consumed, directive_mismatch,
  attachment_invalid,
}
use qiyan_bot.Prelude.{
  ℕ, suc, String, str_eq, Bool, true, false, not, ◌&&◌, ◌||◌, Option, none, some, List, [], ◌∷◌,
  ◌++◌, if◌then◌else◌, ltb, ◌==◌, any, keep, is_some, get, sort_by, length,
}
use qiyan_bot.Storage.Operations.Rows.{OperationStore, OperationRecord, context_of}
use qiyan_bot.Storage.Operations.Writes.{NewOperation, prepare}
use qiyan_bot.Storage.Operations.{bind_directive}
use qiyan_bot.Directives.Parser.{
  Text, ParsedDirective, nothing, passes, sends_to, collects, malformed, Reason, parse_directive,
}
use qiyan_bot.Assistant.AttemptScope.Sources.{
  AttemptSource, GuardedTool, MemberState, Scope, Selection, Source, ToolArgs, admitted_sources,
  choose, collect_messages, completed, directive, exhausted, failed, find_source, is_admitted,
  is_consumed, is_expected, is_none, malformed_directive, mismatch, ordinary, parse, pending,
  send_to_session, source_id, start_submitting, steer_submitting, submitted, superseded, uncertain,
}

-- one round of the loop, with what the rest of it comes to if this source is passed over
unfoldable pub select_at :
    ℕ
    → GuardedTool
    → Scope
    → String
    → Option Source
    → (Bool → Result Selection)
    → Bool
    → Result Selection
select_at m tool s context_id none rest saw = app_error operation_conflict
select_at m tool s context_id (some source) rest saw =
    if is_none (parse m source) || is_consumed context_id s
    then rest (saw || is_expected tool (parse m source))
    else ok (choose tool context_id (parse m source))

-- The loop of `select`, with `saw` for `sawExpected`. A source without a row is an error.
unfoldable pub select_loop :
    ℕ → GuardedTool → Scope → String → List AttemptSource → Bool → Result Selection
select_loop m tool s primary [] saw = ok (if saw then exhausted else ordinary primary)
select_loop m tool s primary (member ∷ members) saw =
    select_at m tool s member.context_id (find_source member.context_id s)
      (select_loop m tool s primary members) saw

unfoldable pub select_members : ℕ → GuardedTool → Scope → List AttemptSource → Result Selection
select_members m tool s [] = app_error operation_conflict
select_members m tool s (first ∷ rest) = select_loop m tool s first.context_id (first ∷ rest) false

unfoldable pub select : ℕ → String → GuardedTool → Scope → Result Selection
unfolding select_members
select m attempt_id tool s =
    select_members m tool s (keep (λ x. is_admitted x.state) (admitted_sources attempt_id s))

unfoldable pub same_text : Text → Text → Bool
same_text [] [] = true
same_text [] (y ∷ ys) = false
same_text (x ∷ xs) [] = false
same_text (x ∷ xs) (y ∷ ys) = x == y && same_text xs ys

unfoldable pub same_ids : List String → List String → Bool
same_ids [] [] = true
same_ids [] (y ∷ ys) = false
same_ids (x ∷ xs) [] = false
same_ids (x ∷ xs) (y ∷ ys) = str_eq x y && same_ids xs ys

abbrev pub has_content : Text → Option Text → Bool
has_content payload none = false
has_content payload (some content) = same_text content payload

abbrev pub has_attachments : List String → Option (List String) → Bool
has_attachments ids none = false
has_attachments ids (some given) = same_ids given ids

abbrev pub has_count : ℕ → Option ℕ → Bool
has_count n none = false
has_count n (some given) = given == n

pub data DirectiveKind : Type 0 where
  pass collect : DirectiveKind

unfoldable pub validate :
    GuardedTool → ToolArgs → ParsedDirective → List String → Bool → Result (Option DirectiveKind)
validate tool args (malformed reason) ids required = app_error directive_mismatch
validate tool args nothing ids required = if required then app_error directive_mismatch else ok none
validate send_to_session args (passes prefix payload) ids required =
    if has_content payload args.content && has_attachments ids args.attachment_ids
    then ok (some pass)
    else app_error directive_mismatch
validate send_to_session args (sends_to prefix target payload) ids required =
    app_error directive_mismatch
validate send_to_session args (collects prefix count) ids required = app_error directive_mismatch
validate collect_messages args (collects prefix count) ids required =
    if has_count count args.count then ok (some collect) else app_error directive_mismatch
validate collect_messages args (passes prefix payload) ids required = app_error directive_mismatch
validate collect_messages args (sends_to prefix target payload) ids required =
    app_error directive_mismatch

-- a source that was chosen, with the kind of the directive that it must repeat
pub record Choice : Type 0 where
  pub context_id : String
  pub kind : Option DirectiveKind

abbrev pub is_pass : ParsedDirective → Bool
is_pass (passes prefix payload) = true
is_pass _ = false

unfoldable pub chosen : String → Result (Option DirectiveKind) → Result Choice
chosen context_id (ok kind) = ok (record { context_id = context_id; kind = kind })
chosen context_id (app_error code) = app_error code
chosen context_id error = error

unfoldable pub check_source :
    GuardedTool → ToolArgs → String → ParsedDirective → Option Source → Result Choice
unfolding chosen
check_source tool args context_id parsed none = app_error operation_conflict
check_source tool args context_id parsed (some source) =
    if is_pass parsed && ltb 0 source.failed_attachments
    then app_error attachment_invalid
    else chosen context_id (validate tool args parsed source.attachment_ids true)

unfoldable pub ordinary_source : String → Option Source → Result Choice
ordinary_source context_id none = app_error operation_conflict
ordinary_source context_id (some source) = ok (record { context_id = context_id; kind = none })

unfoldable pub check_selection : GuardedTool → ToolArgs → Scope → Result Selection → Result Choice
unfolding check_source ordinary_source
check_selection tool args s (app_error code) = app_error code
check_selection tool args s error = error
check_selection tool args s (ok exhausted) = app_error directive_already_consumed
check_selection tool args s (ok mismatch) = app_error directive_mismatch
check_selection tool args s (ok malformed_directive) = app_error directive_mismatch
check_selection tool args s (ok (ordinary context_id)) =
    ordinary_source context_id (find_source context_id s)
check_selection tool args s (ok (directive context_id parsed)) =
    check_source tool args context_id parsed (find_source context_id s)

-- `resolveSafeguard` from its choice of a source up to the wait for that source
unfoldable pub choose_source : ℕ → String → GuardedTool → ToolArgs → Scope → Result Choice
unfolding check_selection
choose_source m attempt_id tool args s = check_selection tool args s (select m attempt_id tool s)

abbrev pub kind_text : DirectiveKind → String
kind_text pass = "pass"
kind_text collect = "collect"

-- a transaction that throws takes its writes back
unfoldable pub with_binding :
    OperationRecord
    → Scope
    → Result {0} Unit × OperationStore
    → Result (Option OperationRecord) × Scope
with_binding operation s (ok _, store) = (ok (some operation), record s { store = store })
with_binding operation s (app_error code, store) = (app_error code, s)
with_binding operation s (error, store) = (error, s)

unfoldable pub with_operation :
    (String → String)
    → String
    → Option DirectiveKind
    → String
    → Scope
    → Result OperationRecord × OperationStore
    → Result (Option OperationRecord) × Scope
unfolding with_binding
with_operation hash context_id kind binding s (app_error code, store) = (app_error code, s)
with_operation hash context_id kind binding s (error, store) = (error, s)
with_operation hash context_id none binding s (ok operation, store) =
    (ok (some operation), record s { store = store })
with_operation hash context_id (some kind) binding s (ok operation, store) =
    with_binding operation s
      (bind_directive hash context_id (kind_text kind) binding operation.id store)

-- The transaction that takes the choice. No operation means that the selection is made again, since
-- another call has consumed the directive meanwhile.
unfoldable pub commit :
    (String → String)
    → String
    → NewOperation
    → Option ℕ
    → ℕ
    → Choice
    → String
    → Scope
    → Result (Option OperationRecord) × Scope
unfolding with_operation
commit hash id input fence now choice binding s =
    if is_some choice.kind && is_consumed choice.context_id s
    then (ok none, s)
    else with_operation hash choice.context_id choice.kind binding s
        (prepare hash id input fence now s.store)
