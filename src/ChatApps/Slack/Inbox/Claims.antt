-- ===== src/ChatApps/Slack/Inbox/Claims.antt =====
-- src/chat-apps/slack/inbox-store.ts: a claim answers as the queue does.
use qiyan_bot.Prelude.{
  ℕ, true, false, none, some, List, any, ◌≡◌, refl, ap, ◌∙◌, modify, arith, eq_refl, inl, inr,
  Bool-cases, Option-cases, get-modify,
}
use qiyan_bot.ChatApps.Slack.Inbox.Records.{Inbox, Row, id_of, is_processing}
use qiyan_bot.ChatApps.Slack.Inbox.Reading.{parse, parsed, get_record}
use qiyan_bot.ChatApps.Slack.Inbox.{in_processing, claim_found, may_claim, claimed, claim_next}
use qiyan_bot.ChatApps.Slack.Inbox.Queue.{
  claims, serve, step, view, first, waiting_of, Distinct, IsOrderly, id_of_record, handed,
}
use qiyan_bot.ChatApps.Slack.Inbox.Rows.{waiting-modify, seen-modify, Distinct-modify, Rises-modify}
use qiyan_bot.ChatApps.Slack.Inbox.Updates.{
  first_waiting, oldest_lem, id_of_found, found_processing, first_waiting_id, first_waiting_held,
  first_waiting-get, claim_changes, claim_head,
}
use qiyan_bot.ChatApps.Slack.Inbox.Agreement.{Agrees, agrees}

claimed_id :
    (now : ℕ) (s : Inbox) (x : Row)
    → Distinct s.rows
    → first_waiting s.rows ≡ some x
    → id_of_record (
        get_record x.event_id
          (record s { rows = modify id_of x.event_id may_claim (claimed now) s.rows }))
      ≡ some x.event_id
unfolding get_record parsed parse claimed
claimed_id now s x d e =
    rw
      (
        get-modify id_of x.event_id x.event_id may_claim (claimed now) s.rows (λ r. refl),
        eq_refl x.event_id,
        first_waiting-get s.rows x d e,
      )
      (ground arith)

claim-Agrees_found :
    (now : ℕ) (s : Inbox) (x : Row)
    → first_waiting s.rows ≡ some x
    → is_processing x.state ≡ false
    → IsOrderly s.next_value s.rows
    → Agrees claims s (step now claims s)
unfolding step serve claim_next claim_found view claimed
claim-Agrees_found now s x e off v =
    let rs : List Row = modify id_of x.event_id may_claim (claimed now) s.rows in
    let s' : Inbox = record s { rows = rs } in
    let first_id : first (waiting_of s.rows) ≡ some x.event_id =
      first_waiting_id s.rows ∙ ap id_of_found e in
    let idle : any in_processing s.rows ≡ false =
      first_waiting_held s.rows (v.head_only) ∙ ap found_processing e ∙ off in
    let head = claim_head now s.rows x (v.distinct) (v.head_only) e off in
    agrees claims s (step now claims s) (handed (some x.event_id)) s'
      (record (view s) { in_hand = true })
      (rw
        (
          oldest_lem 0 s.next_value s.rows (v.rises),
          e,
          off,
          claim_changes s.rows x (v.distinct) e off,
          claimed_id now s x (v.distinct) e,
        )
        refl)
      (rw (idle, first_id) refl)
      (rw
        (
          waiting-modify may_claim (claimed now) (λ r. refl) x.event_id s.rows
              (λ r on. ground (arith, on)),
          head.0,
          seen-modify may_claim (claimed now) (λ r. refl) x.event_id s.rows,
        )
        refl)
      (record {
        rises =
            Rises-modify may_claim (claimed now) (λ r. refl) 0 s.next_value x.event_id s.rows
              (λ r. refl) (v.rises);
        head_only = head.1;
        distinct =
            Distinct-modify may_claim (claimed now) (λ r. refl) x.event_id s.rows (v.distinct);
      })

pub claim-Agrees :
    (now : ℕ) (s : Inbox) → IsOrderly s.next_value s.rows → Agrees claims s (step now claims s)
unfolding step serve claim_next claim_found view
claim-Agrees now s v =
    let oldest_ = oldest_lem 0 s.next_value s.rows (v.rises) in
    let held_ = first_waiting_held s.rows (v.head_only) in
    elim (Option-cases (first_waiting s.rows)) [
      | inl none_ ↦
          agrees claims s (step now claims s) (handed none) s (record (view s) { in_hand = false })
            (rw (oldest_, none_) refl) (rw (held_, none_, first_waiting_id s.rows, none_) refl)
            (rw (held_, none_) refl) v
      | inr (x, some_) ↦ elim (Bool-cases (is_processing x.state)) [
        | inl on ↦
            agrees claims s (step now claims s) (handed none) s (view s)
              (rw (oldest_, some_, on) refl) (rw (held_, some_, on) refl) refl v
        | inr off ↦ claim-Agrees_found now s x some_ off v
      ]
    ]
