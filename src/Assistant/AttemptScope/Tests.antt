-- ===== src/Assistant/AttemptScope/Tests.antt =====
-- The scope of an attempt on concrete sources, and its theorems at concrete inputs.
use qiyan_bot.Core.{ok, app_error, directive_mismatch}
use qiyan_bot.Prelude.{ℕ, List, ◌≡◌, refl, false, none, some, [], ◌∷◌, keep, get, sort_by}
use qiyan_bot.Storage.Operations.Writes.{NewOperation}
use qiyan_bot.Directives.Parser.{
  Text, parse_directive, first_candidate, scan, candidate_at, marked, after, parse_pass,
}
use qiyan_bot.Assistant.AttemptScope.Sources.{
  Scope, ToolArgs, send_to_session, submitted, is_admitted, admitted_sources, find_source, parse,
  is_consumed, choose,
}
use qiyan_bot.Assistant.AttemptScope.{
  Choice, pass, choose_source, select, check_selection, check_source, chosen, select_members,
  select_loop, select_at, validate, same_text, same_ids,
}
use qiyan_bot.Assistant.AttemptScope.Selections.{OnOk, Says, select-Says}
use qiyan_bot.Assistant.AttemptScope.Authority.{Repeats, choose_source-Repeats}
use qiyan_bot.Storage.Operations.Ledger.{Call, call_dispatch, call_succeed}

-- "hi", and "/pass hi"
abbrev hi : Text
hi = 104 ∷ 105 ∷ []

abbrev scope : Scope
scope = record {
  members =
      record { attempt_id = "a"; context_id = "c1"; source_ordinal = 1; state = submitted }
      ∷ record { attempt_id = "a"; context_id = "c2"; source_ordinal = 2; state = submitted }
      ∷ [];
  sources =
      record { id = "c1"; raw_text = hi; attachment_ids = []; failed_attachments = 0 }
      ∷ record {
        id = "c2";
        raw_text = 47 ∷ 112 ∷ 97 ∷ 115 ∷ 115 ∷ 32 ∷ hi;
        attachment_ids = [];
        failed_attachments = 0;
      }
      ∷ [];
  store = record { operations = []; attempts = []; consumptions = [] };
}

abbrev args : ToolArgs
args = record { content = some hi; attachment_ids = some []; count = none }

abbrev choice : Choice
choice = record { context_id = "c2"; kind = some pass }

-- the second source has the directive, and a call with another content is refused
scope_chosen :
    (choose_source 5 "a" send_to_session args scope ≡ ok choice)
    × (choose_source 5 "a" send_to_session (record args { content = none }) scope
        ≡ app_error directive_mismatch)
unfolding choose_source select admitted_sources find_source check_selection check_source chosen
    select_members select_loop select_at parse is_consumed choose validate same_text same_ids
    parse_directive first_candidate scan candidate_at marked after parse_pass get sort_by
scope_chosen = (refl, refl)

select-Says_example :
    OnOk
      (Says 5 send_to_session scope
        (keep (λ x. is_admitted x.state) (admitted_sources "a" scope))
        false)
      (select 5 "a" send_to_session scope)
select-Says_example = select-Says 5 "a" send_to_session scope

choose_source-Repeats_example :
    OnOk (Repeats args scope) (choose_source 5 "a" send_to_session args scope)
choose_source-Repeats_example = choose_source-Repeats 5 "a" send_to_session args scope

abbrev input : NewOperation
input = record {
  new_context = "c2";
  new_attempt = "a";
  new_call = "1";
  new_kind = "send_to_session";
  new_args = "{}";
  new_effect = none;
}

-- the operation is dispatched and its result is recorded
abbrev between : List (ℕ × Call)
between = (2, call_dispatch "o1" none) ∷ (3, call_succeed "o1" "r" none) ∷ []
