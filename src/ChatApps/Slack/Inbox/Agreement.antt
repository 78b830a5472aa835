-- ===== src/ChatApps/Slack/Inbox/Agreement.antt =====
-- src/chat-apps/slack/inbox-store.ts: arrivals, ends and recoveries answer as the queue does.
use qiyan_bot.Prelude.{
  ℕ, String, true, false, ◌&&◌, List, [], ◌∷◌, ◌++◌, if◌then◌else◌, any, map, ◌≡◌, refl, ap, sym,
  ◌∙◌, suc, get, modify, changes, arith, inl, inr, Bool-cases, Option-cases, modify-refused,
}
use qiyan_bot.Core.{ok, error}
use qiyan_bot.ChatApps.Slack.Events.Shapes.{NormalizedSlackEvent}
use qiyan_bot.ChatApps.Slack.Inbox.Records.{
  Inbox, Row, inserted, duplicate, id_of, is_processed, is_processing, row_of,
}
use qiyan_bot.ChatApps.Slack.Inbox.Reading.{activate, accept}
use qiyan_bot.ChatApps.Slack.Inbox.{
  in_processing, put_back, recovered_row, done, retry, recover_processing,
  mark_processed_in_transaction,
}
use qiyan_bot.ChatApps.Slack.Inbox.Queue.{
  Queue, Call, accepts, recovers, retries, marks_processed, Answer, serve, step, view, held, tail,
  waiting_of, IsOrderly, accepted, nothing, returned, recovered,
}
use qiyan_bot.ChatApps.Slack.Inbox.Rows.{
  not_both, is_head_lem, has-get, changes_held, any-modify, idle-HeadOnly, waiting-modify,
  seen-modify, Distinct-modify, Rises-modify,
}
use qiyan_bot.ChatApps.Slack.Inbox.Updates.{waiting_done}
use qiyan_bot.ChatApps.Slack.Inbox.Growth.{
  waiting-append, any-append, seen-append, append-IsOrderly, any_put_back, waiting_put_back,
  seen_put_back, put_back-IsOrderly, count_held,
}

-- One call: the answer is the queue's, the inbox stands for the queue's next state, and it is
-- orderly again.
pub record Agrees (c : Call) (s : Inbox) (p : Answer × Inbox) : Type 0 where
  pub answer : p.0 ≡ (serve c (view s)).0
  pub next : view p.1 ≡ (serve c (view s)).1
  pub orderly : IsOrderly p.1.next_value p.1.rows

-- the row that an UPDATE by identifier would find in processing is that of the queue's head
held_lem :
    (id : String) (s : Inbox)
    → IsOrderly s.next_value s.rows
    → changes id_of id in_processing s.rows ≡ held id (view s)
unfolding view
held_lem id s v =
    changes_held id s.rows (v.head_only) (v.distinct)
    ∙ ap (λ b. any in_processing s.rows && b) (is_head_lem id s.rows)

pub agrees :
    (c : Call) (s : Inbox) (p : Answer × Inbox) (a : Answer) (s' : Inbox) (q : Queue)
    → p ≡ (a, s')
    → serve c (view s) ≡ (a, q)
    → view s' ≡ q
    → IsOrderly s'.next_value s'.rows
    → Agrees c s p
agrees c s p a s' q e served same v = rw e (record {
  answer = sym (ap (λ x. x.0) served);
  next = same ∙ sym (ap (λ x. x.1) served);
  orderly = v;
})

pub accept-Agrees :
    (now : ℕ) (event : NormalizedSlackEvent) (s : Inbox)
    → IsOrderly s.next_value s.rows
    → Agrees (accepts event) s (step now (accepts event) s)
unfolding step serve accept view row_of
accept-Agrees now event s v =
    let x : Row = row_of now s.next_value event in
    let known = has-get event.event_id s.rows in
    elim (Option-cases (get id_of event.event_id s.rows)) [
      | inl fresh ↦
          agrees (accepts event) s (step now (accepts event) s) (accepted inserted)
            (record {
              rows = s.rows ++ x ∷ [];
              next_value = suc s.next_value;
              activated = activate event s.activated;
            })
            (record {
              waiting = waiting_of s.rows ++ event.event_id ∷ [];
              in_hand = any in_processing s.rows;
              seen = map id_of s.rows ++ event.event_id ∷ [];
            })
            (rw fresh refl) (ground (arith, known, fresh))
            (rw
              (
                waiting-append x refl refl s.rows,
                any-append x refl refl s.rows,
                seen-append x refl refl s.rows,
              )
              refl)
            (append-IsOrderly x refl refl s.rows fresh v)
      | inr (r, there) ↦
          agrees (accepts event) s (step now (accepts event) s) (accepted duplicate) s (view s)
            (rw there refl) (ground (arith, known, there)) refl v
    ]

-- an UPDATE of the row in processing
update-IsOrderly :
    (next : ℕ) (id : String) (f : Row → Row) (rs : List Row)
    → ((r : Row) → (f r).event_id ≡ r.event_id)
    → ((r : Row) → (f r).arrival_sequence ≡ r.arrival_sequence)
    → ((r : Row) → is_processing ((f r).state) ≡ false)
    → changes id_of id in_processing rs ≡ true
    → IsOrderly next rs
    → IsOrderly next (modify id_of id in_processing f rs)
update-IsOrderly next id f rs same_id same_arrival off found v = record {
  rises = Rises-modify in_processing f same_id 0 next id rs same_arrival (v.rises);
  head_only =
      idle-HeadOnly (modify id_of id in_processing f rs)
        (any-modify id f rs off (v.head_only) ∙ ground (arith, found));
  distinct = Distinct-modify in_processing f same_id id rs (v.distinct);
}

pub retry-Agrees :
    (now : ℕ) (id : String) (s : Inbox)
    → IsOrderly s.next_value s.rows
    → Agrees (retries id) s (step now (retries id) s)
unfolding step serve retry view put_back
retry-Agrees now id s v =
    let f : Row → Row = put_back "Slack ingress retry" now in
    let holds = held_lem id s v in
    elim (Bool-cases (changes id_of id in_processing s.rows)) [
      | inl found ↦
          agrees (retries id) s (step now (retries id) s) nothing (retry now id s)
            (record (view s) { in_hand = false }) refl (ground (arith, holds, found))
            (rw
              (
                waiting-modify in_processing f (λ r. refl) id s.rows
                    (λ r on. ground (arith, not_both r.state on)),
                any-modify id f s.rows (λ r. refl) (v.head_only),
                seen-modify in_processing f (λ r. refl) id s.rows,
                found,
              )
              refl)
            (update-IsOrderly s.next_value id f s.rows (λ r. refl) (λ r. refl) (λ r. refl) found v)
      | inr refused ↦
          agrees (retries id) s (step now (retries id) s) nothing s (view s)
            (ap (λ rs. (nothing, record s { rows = rs }))
              (modify-refused id_of id in_processing f s.rows refused))
            (ground (arith, holds, refused)) refl v
    ]

pub mark_processed-Agrees :
    (now : ℕ) (id : String) (s : Inbox)
    → IsOrderly s.next_value s.rows
    → Agrees (marks_processed id) s (step now (marks_processed id) s)
unfolding step serve mark_processed_in_transaction view done
mark_processed-Agrees now id s v =
    let holds = held_lem id s v in
    elim (Bool-cases (changes id_of id in_processing s.rows)) [
      | inl found ↦
          agrees (marks_processed id) s (step now (marks_processed id) s) (returned (ok tt))
            (record s { rows = modify id_of id in_processing (done now) s.rows })
            (record (view s) { waiting = tail (waiting_of s.rows); in_hand = false })
            (rw found refl) (ground (arith, holds, found))
            (rw
              (
                waiting_done id (done now) s.rows (λ r. refl) (v.head_only),
                any-modify id (done now) s.rows (λ r. refl) (v.head_only),
                seen-modify in_processing (done now) (λ r. refl) id s.rows,
                found,
              )
              refl)
            (update-IsOrderly s.next_value id (done now) s.rows (λ r. refl) (λ r. refl) (λ r. refl)
              found v)
      | inr refused ↦
          agrees (marks_processed id) s (step now (marks_processed id) s) (returned error) s
            (view s) (rw refused refl) (ground (arith, holds, refused)) refl v
    ]

recovered_row_lem :
    (now : ℕ) (r : Row)
    → ((recovered_row now r).event_id ≡ r.event_id)
      × ((recovered_row now r).arrival_sequence ≡ r.arrival_sequence)
      × (is_processing ((recovered_row now r).state) ≡ false)
      × (is_processed ((recovered_row now r).state) ≡ is_processed r.state)
unfolding recovered_row put_back
recovered_row_lem now r = elim (Bool-cases (is_processing r.state)) [
  | inl on ↦ rw on (refl, refl, refl, sym (not_both r.state on))
  | inr off ↦ rw off (refl, refl, off, refl)
]

pub recover-Agrees :
    (now : ℕ) (s : Inbox) → IsOrderly s.next_value s.rows → Agrees recovers s (step now recovers s)
unfolding step serve recover_processing view
recover-Agrees now s v =
    let f : Row → Row = recovered_row now in
    let same_id : (r : Row) → (f r).event_id ≡ r.event_id = λ r. (recovered_row_lem now r).0 in
    let same_arrival : (r : Row) → (f r).arrival_sequence ≡ r.arrival_sequence =
      λ r. (recovered_row_lem now r).1 in
    let off : (r : Row) → is_processing ((f r).state) ≡ false = λ r. (recovered_row_lem now r).2 in
    let waits : (r : Row) → is_processed ((f r).state) ≡ is_processed r.state =
      λ r. (recovered_row_lem now r).3 in
    agrees recovers s (step now recovers s) (recovered (if any in_processing s.rows then 1 else 0))
      (record s { rows = map f s.rows }) (record (view s) { in_hand = false })
      (ap (λ n. (recovered n, record s { rows = map f s.rows })) (count_held s.rows (v.head_only)))
      refl
      (rw
        (
          waiting_put_back f same_id same_arrival off waits s.rows,
          any_put_back f same_id same_arrival off waits s.rows,
          seen_put_back f same_id same_arrival off waits s.rows,
        )
        refl)
      (put_back-IsOrderly f same_id same_arrival off waits s.next_value s.rows v)
