-- ===== src/Assistant/AttemptScope/Authority.antt =====
-- src/assistant/attempt-scope.ts: what a guarded call may do once its source is chosen.
use mathlib.Core.Path.{subst}
use qiyan_bot.Core.{Result, ok, app_error, error}
use qiyan_bot.Prelude.{
  ℕ, String, true, false, ◌&&◌, ◌≡◌, refl, ap, inl, inr, Option, none, some, List, [], ◌∷◌, ◌++◌,
  ltb, keep, arith, Bool-cases, eq_iff, length,
}
use qiyan_bot.Directives.Parser.{
  ParsedDirective, Text, nothing, passes, sends_to, collects, malformed, marker,
  pass as pass_marker,
}
use qiyan_bot.Directives.Parser.Inverse.{Verbatim, parse_directive-Verbatim}
use qiyan_bot.Assistant.AttemptScope.Sources.{
  Scope, Source, AttemptSource, GuardedTool, send_to_session, collect_messages, ToolArgs, Selection,
  directive, ordinary, malformed_directive, mismatch, exhausted, find_source, parse, is_consumed,
  is_expected, is_admitted, admitted_sources,
}
use qiyan_bot.Assistant.AttemptScope.{
  select, same_text, same_ids, has_content, has_attachments, has_count, validate, pass, Choice,
  chosen, check_source, ordinary_source, check_selection, choose_source,
}
use qiyan_bot.Assistant.AttemptScope.Selections.{OnOk, IsOpen, Says, select-Says, FirstOpen-IsOpen}

same_text_eq : (xs ys : Text) → same_text xs ys ≡ true → xs ≡ ys
unfolding same_text
same_text_eq [] [] h = refl
same_text_eq [] (y ∷ ys) h = absurd (ground (arith, h))
same_text_eq (x ∷ xs) [] h = absurd (ground (arith, h))
same_text_eq (x ∷ xs) (y ∷ ys) h = ground (arith, h, same_text_eq xs ys (ground (arith, h)))

same_ids_eq : (xs ys : List String) → same_ids xs ys ≡ true → xs ≡ ys
unfolding same_ids
same_ids_eq [] [] h = refl
same_ids_eq [] (y ∷ ys) h = absurd (ground (arith, h))
same_ids_eq (x ∷ xs) [] h = absurd (ground (arith, h))
same_ids_eq (x ∷ xs) (y ∷ ys) h =
    ground (arith, h, eq_iff x y, same_ids_eq xs ys (ground (arith, h)))

has_content_eq :
    (payload : Text) (o : Option Text) → has_content payload o ≡ true → o ≡ some payload
has_content_eq payload none h = absurd (ground (arith, h))
has_content_eq payload (some c) h = ap (λ x. some x) (same_text_eq c payload h)

has_attachments_eq :
    (ids : List String) (o : Option (List String)) → has_attachments ids o ≡ true → o ≡ some ids
has_attachments_eq ids none h = absurd (ground (arith, h))
has_attachments_eq ids (some given) h = ap (λ x. some x) (same_ids_eq given ids h)

-- The call repeats the owner's message: after the text before the marker, the marker and a space
-- comes the content of the call, unit by unit; its attachments are the message's; none of them
-- failed; and no other call has consumed the message's directive.
pub record IsVerbatim (args : ToolArgs) (s : Scope) (context_id : String) : Type 0 where
  pub source : Source
  pub prefix : Text
  pub payload : Text
  pub found : find_source context_id s ≡ some source
  pub text : source.raw_text ≡ prefix ++ (marker pass_marker ++ 32 ∷ payload)
  pub content : args.content ≡ some payload
  pub attachments : args.attachment_ids ≡ some source.attachment_ids
  pub intact : source.failed_attachments ≡ 0
  pub free : is_consumed context_id s ≡ false

-- what a choice with the kind `pass` says
abbrev pub Repeats : ToolArgs → Scope → Choice → Type 0
Repeats args s choice = choice.kind ≡ some pass → IsVerbatim args s choice.context_id

passes_text :
    (m : ℕ) (source : Source) (prefix payload : Text)
    → parse m source ≡ passes prefix payload
    → source.raw_text ≡ prefix ++ (marker pass_marker ++ 32 ∷ payload)
unfolding parse Verbatim
passes_text m source prefix payload r =
    subst (Verbatim m source.raw_text) r
      (parse_directive-Verbatim source.raw_text (length source.attachment_ids) m)

check_source-Repeats :
    (m : ℕ) (args : ToolArgs) (s : Scope) (c : String) (p : ParsedDirective) (tool : GuardedTool)
    (source : Source)
    → find_source c s ≡ some source
    → parse m source ≡ p
    → is_consumed c s ≡ false
    → is_expected tool p ≡ true
    → OnOk (Repeats args s) (check_source tool args c p (some source))
unfolding check_source chosen validate
check_source-Repeats m args s c nothing send_to_session source f r free e =
    absurd (ground (arith, e))
check_source-Repeats m args s c (passes prefix payload) send_to_session source f r free e =
    elim (Bool-cases (ltb 0 source.failed_attachments)) [
      | inl failed ↦ rw failed tt
      | inr whole ↦
          elim (Bool-cases (
            has_content payload args.content
            && has_attachments source.attachment_ids args.attachment_ids)) [
              | inr differs ↦ rw (whole, differs) tt
              | inl repeats ↦
                  rw (whole, repeats)
                    (λ k. record {
                      source = source;
                      prefix = prefix;
                      payload = payload;
                      found = f;
                      text = passes_text m source prefix payload r;
                      content = has_content_eq payload args.content (ground (arith, repeats));
                      attachments =
                          has_attachments_eq source.attachment_ids args.attachment_ids
                            (ground (arith, repeats));
                      intact = ground (arith, whole);
                      free = free;
                    })
            ]
    ]
check_source-Repeats m args s c (sends_to prefix target payload) send_to_session source f r free e =
    absurd (ground (arith, e))
check_source-Repeats m args s c (collects prefix count) send_to_session source f r free e =
    absurd (ground (arith, e))
check_source-Repeats m args s c (malformed reason) send_to_session source f r free e =
    absurd (ground (arith, e))
check_source-Repeats m args s c nothing collect_messages source f r free e =
    absurd (ground (arith, e))
check_source-Repeats m args s c (passes prefix payload) collect_messages source f r free e =
    absurd (ground (arith, e))
check_source-Repeats m args s c (sends_to prefix target payload) collect_messages source f r free
      e =
    absurd (ground (arith, e))
check_source-Repeats m args s c (collects prefix count) collect_messages source f r free e =
    elim (Bool-cases (has_count count args.count)) [
      | inl same ↦ rw same (λ k. absurd (ground (arith, k)))
      | inr other ↦ rw other tt
    ]
check_source-Repeats m args s c (malformed reason) collect_messages source f r free e =
    absurd (ground (arith, e))

open_source-Repeats :
    (m : ℕ) (tool : GuardedTool) (args : ToolArgs) (s : Scope) (c : String) (p : ParsedDirective)
    → IsOpen m tool s c p
    → OnOk (Repeats args s) (check_source tool args c p (find_source c s))
open_source-Repeats m tool args s c p v =
    rw (v.found)
      (check_source-Repeats m args s c p tool (v.source) (v.found) (v.reads) (v.free) (v.expected))

ordinary-Repeats :
    (args : ToolArgs) (s : Scope) (c : String) (o : Option Source)
    → OnOk (Repeats args s) (ordinary_source c o)
unfolding ordinary_source
ordinary-Repeats args s c none = tt
ordinary-Repeats args s c (some source) = λ k. absurd (ground (arith, k))

check_selection-Repeats :
    (m : ℕ) (tool : GuardedTool) (args : ToolArgs) (s : Scope) (xs : List AttemptSource)
    (r : Result Selection)
    → OnOk (Says m tool s xs false) r
    → OnOk (Repeats args s) (check_selection tool args s r)
unfolding check_selection
check_selection-Repeats m tool args s xs (app_error code) h = tt
check_selection-Repeats m tool args s xs error h = tt
check_selection-Repeats m tool args s xs (ok exhausted) h = tt
check_selection-Repeats m tool args s xs (ok mismatch) h = tt
check_selection-Repeats m tool args s xs (ok malformed_directive) h = tt
check_selection-Repeats m tool args s xs (ok (ordinary c)) h =
    ordinary-Repeats args s c (find_source c s)
check_selection-Repeats m tool args s xs (ok (directive c p)) h =
    open_source-Repeats m tool args s c p (FirstOpen-IsOpen m tool s c p xs h)

-- A guarded call whose source is chosen under a directive to pass a message on repeats the owner's
-- message of that source: its content stands after the marker and a space, unit by unit, its
-- attachments are the message's, of which none failed, and no other call has consumed the directive.
pub choose_source-Repeats :
    (m : ℕ) (attempt_id : String) (tool : GuardedTool) (args : ToolArgs) (s : Scope)
    → OnOk (Repeats args s) (choose_source m attempt_id tool args s)
unfolding choose_source
choose_source-Repeats m attempt_id tool args s =
    check_selection-Repeats m tool args s
      (keep (λ x. is_admitted x.state) (admitted_sources attempt_id s)) (select m attempt_id tool s)
      (select-Says m attempt_id tool s)
