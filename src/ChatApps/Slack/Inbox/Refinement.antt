-- ===== src/ChatApps/Slack/Inbox/Refinement.antt =====
-- src/chat-apps/slack/inbox-store.ts: the inbox answers as the queue does.
use qiyan_bot.Prelude.{
  ℕ, String, str_eq, true, List, [], ◌∷◌, any, ◌≡◌, refl, ap, ◌∙◌, get, modify, arith, inl, inr,
  Bool-cases, Option-cases,
}
use qiyan_bot.Core.{ok, error}
use qiyan_bot.ChatApps.Slack.Inbox.Records.{Inbox, Row, SlackFileState, id_of, is_processed, new}
use qiyan_bot.ChatApps.Slack.Inbox.{in_processing, done, with_file, update_file_state}
use qiyan_bot.ChatApps.Slack.Inbox.Queue.{
  empty, Call, accepts, claims, recovers, retries, marks_processed, marks_file, serve, serve_all,
  step, run, calls_of, view, HeadOnly, IsOrderly, returned,
}
use qiyan_bot.ChatApps.Slack.Inbox.Rows.{
  has-get, waiting-modify, seen-modify, Distinct-modify, Rises-modify,
}
use qiyan_bot.ChatApps.Slack.Inbox.Agreement.{
  Agrees, agrees, accept-Agrees, retry-Agrees, mark_processed-Agrees, recover-Agrees,
}
use qiyan_bot.ChatApps.Slack.Inbox.Claims.{claim-Agrees}

-- What a record of the files of a row leaves as it was.
module _ (f : Row → Row) (same_state : (r : Row) → (f r).state ≡ r.state)
    (same_id : (r : Row) → (f r).event_id ≡ r.event_id) where
  any_marked :
      (k : String) (rs : List Row)
      → any in_processing (modify id_of k (λ r. true) f rs) ≡ any in_processing rs
  unfolding modify
  any_marked k [] = refl
  any_marked k (r ∷ rs) = ground (arith, same_state r, any_marked k rs)

  HeadOnly-marked :
      (k : String) (rs : List Row) → HeadOnly rs → HeadOnly (modify id_of k (λ r. true) f rs)
  unfolding modify
  HeadOnly-marked k [] h = tt
  HeadOnly-marked k (r ∷ rs) h = elim (Bool-cases (str_eq r.event_id k)) [
    | inl here ↦ rw (here, same_state r) h
    | inr later ↦ rw later (elim (Bool-cases (is_processed r.state)) [
      | inl done ↦ rw done (HeadOnly-marked k rs (rw done at h))
      | inr waits ↦ rw waits (any_marked k rs ∙ (rw waits at h))
    ])
  ]

mark_file-Agrees :
    (now : ℕ) (id file : String) (state : SlackFileState) (s : Inbox)
    → IsOrderly s.next_value s.rows
    → Agrees (marks_file id file state) s (step now (marks_file id file state) s)
unfolding step serve update_file_state view with_file
mark_file-Agrees now id file state s v =
    let c : Call = marks_file id file state in
    let f : Row → Row = with_file now (record { slack_file_id = file; state = state }) in
    let known = has-get id s.rows in
    elim (Option-cases (get id_of id s.rows)) [
      | inl unknown ↦
          agrees c s (step now c s) (returned error) s (view s) (rw unknown refl)
            (rw (known, unknown) refl) refl v
      | inr (r, there) ↦
          agrees c s (step now c s) (returned (ok tt))
            (record s { rows = modify id_of id (λ r. true) f s.rows }) (view s) (rw there refl)
            (rw (known, there) refl)
            (rw
              (
                waiting-modify (λ r. true) f (λ r. refl) id s.rows (λ r on. refl),
                any_marked f (λ r. refl) (λ r. refl) id s.rows,
                seen-modify (λ r. true) f (λ r. refl) id s.rows,
              )
              refl)
            (record {
              rises =
                  Rises-modify (λ r. true) f (λ r. refl) 0 s.next_value id s.rows (λ r. refl)
                    (v.rises);
              head_only = HeadOnly-marked f (λ r. refl) (λ r. refl) id s.rows (v.head_only);
              distinct = Distinct-modify (λ r. true) f (λ r. refl) id s.rows (v.distinct);
            })
    ]

step-Agrees :
    (now : ℕ) (c : Call) (s : Inbox) → IsOrderly s.next_value s.rows → Agrees c s (step now c s)
step-Agrees now (accepts event) s v = accept-Agrees now event s v
step-Agrees now claims s v = claim-Agrees now s v
step-Agrees now recovers s v = recover-Agrees now s v
step-Agrees now (retries id) s v = retry-Agrees now id s v
step-Agrees now (marks_processed id) s v = mark_processed-Agrees now id s v
step-Agrees now (marks_file id file state) s v = mark_file-Agrees now id file state s v

run_agrees :
    (calls : List (ℕ × Call)) (s : Inbox)
    → IsOrderly s.next_value s.rows
    → ((run calls s).0 ≡ (serve_all (calls_of calls) (view s)).0)
      × (view (run calls s).1 ≡ (serve_all (calls_of calls) (view s)).1)
unfolding run serve_all
run_agrees [] s v = (refl, refl)
run_agrees ((now, c) ∷ calls) s v =
    let here : Agrees c s (step now c s) = step-Agrees now c s v in
    let rest = run_agrees calls (step now c s).1 (here.orderly) in
    (
      ap (λ a. a ∷ (run calls (step now c s).1).0) (here.answer)
          ∙ ap (λ as_. (serve c (view s)).0 ∷ as_)
              (rest.0 ∙ ap (λ q. (serve_all (calls_of calls) q).0) (here.next)),
      rest.1 ∙ ap (λ q. (serve_all (calls_of calls) q).1) (here.next),
    )

-- The inbox is a queue: from an empty one on, whatever calls are made, each answer is the queue's
-- (an event is stored once; a claim hands out the oldest event that is not processed, and nothing
-- while one is out; only the event that is out is ended or put back), and the rows stand for the
-- queue's state.
pub run-new-serve_all :
    (calls : List (ℕ × Call))
    → ((run calls new).0 ≡ (serve_all (calls_of calls) empty).0)
      × (view (run calls new).1 ≡ (serve_all (calls_of calls) empty).1)
unfolding new view
run-new-serve_all calls =
    run_agrees calls new (record { rises = omega arith; head_only = tt; distinct = tt })
