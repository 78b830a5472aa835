-- ===== src/Storage/SourceContexts/Tests.antt =====
-- Source contexts on concrete inputs, and their theorems at concrete inputs.
use qiyan_bot.Prelude.{ℕ, ◌≡◌, ◌⊎◌, refl, String, true, false, none, List, [], ◌∷◌, get, arith}
use qiyan_bot.Storage.SourceContexts.{
  SourceContext, SourceKind, ContextStore, web_goal, system_notice, pending, create_web_goal_intent,
  insert_source_context, same_source_identity,
}
use qiyan_bot.Storage.SourceContexts.Intents.{IsIntent, create_web_goal_intent_lem}
use qiyan_bot.Storage.SourceContexts.Arrivals.{
  Call, creates, intends, releases, supersedes, run, IsSequenced, run-IsSequenced,
}

abbrev context : String → SourceKind → SourceContext
context id kind = record {
  id = id;
  kind = kind;
  source_id = id;
  raw_text = "goal";
  attachment_ids = "[]";
  failed_attachments = "[]";
  binding = none;
}

abbrev empty : ContextStore
empty = record { contexts = []; next_value = 1 }

stored :
    (create_web_goal_intent (context "a" web_goal) (context "b" system_notice) 5 empty).0 ≡ true
unfolding create_web_goal_intent insert_source_context same_source_identity get
stored = refl

create_web_goal_intent_lem_example :
    ((create_web_goal_intent (context "a" web_goal) (context "b" system_notice) 5 empty).0 ≡ true)
      × IsIntent
          (context "a" web_goal)
          (context "b" system_notice)
          (create_web_goal_intent (context "a" web_goal) (context "b" system_notice) 5 empty).1
    ⊎ (create_web_goal_intent (context "a" web_goal) (context "b" system_notice) 5 empty
        ≡ (false, empty))
create_web_goal_intent_lem_example =
    create_web_goal_intent_lem (context "a" web_goal) (context "b" system_notice) 5 empty

abbrev calls : List (ℕ × Call)
calls =
    (5, intends (context "a" web_goal) (context "b" system_notice))
    ∷ (6, releases "b" "done")
    ∷ (7, creates (context "c" web_goal) pending)
    ∷ (8, supersedes "c" "r" "{}")
    ∷ []

empty-IsSequenced : IsSequenced empty
unfolding IsSequenced
empty-IsSequenced = omega arith

run-IsSequenced_example : IsSequenced (run calls empty)
run-IsSequenced_example = run-IsSequenced calls empty empty-IsSequenced
