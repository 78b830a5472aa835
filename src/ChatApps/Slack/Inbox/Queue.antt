-- ===== src/ChatApps/Slack/Inbox/Queue.antt =====
-- src/chat-apps/slack/inbox-store.ts: what the inbox promises, a queue that hands out one entry at a
-- time and takes each identifier once.
use qiyan_bot.Prelude.{
  ℕ, String, str_eq, Bool, false, not, ◌&&◌, Option, none, some, List, [], ◌∷◌, ◌++◌, if◌then◌else◌,
  any, map, keep, is_some, ◌≡◌, ◌≤◌, suc, get,
}
use qiyan_bot.Core.{Result, ok, error}
use qiyan_bot.ChatApps.Slack.Events.Shapes.{NormalizedSlackEvent}
use qiyan_bot.ChatApps.Slack.Inbox.Records.{
  Inbox, Row, SlackFileState, Acceptance, inserted, duplicate, id_of, is_processed,
}
use qiyan_bot.ChatApps.Slack.Inbox.Reading.{SlackInboxRecord, accept}
use qiyan_bot.ChatApps.Slack.Inbox.{
  in_processing, claim_next, retry, recover_processing, mark_processed_in_transaction,
  update_file_state,
}

pub record Queue : Type 0 where
  pub waiting : List String
  pub in_hand : Bool
  pub seen : List String

abbrev pub empty : Queue
empty = record { waiting = []; in_hand = false; seen = [] }

pub data Call : Type 0 where
  accepts : NormalizedSlackEvent → Call
  claims recovers : Call
  retries marks_processed : String → Call
  marks_file : String → String → SlackFileState → Call

pub data Answer : Type 0 where
  nothing : Answer
  accepted : Acceptance → Answer
  handed : Option String → Answer
  recovered : ℕ → Answer
  returned : Result {0} Unit → Answer

abbrev pub has : String → List String → Bool
has id ids = any (λ x. str_eq x id) ids

abbrev pub is_first : String → List String → Bool
is_first id [] = false
is_first id (x ∷ xs) = str_eq x id

abbrev pub first : List String → Option String
first [] = none
first (x ∷ xs) = some x

abbrev pub tail : List String → List String
tail [] = []
tail (x ∷ xs) = xs

abbrev pub held : String → Queue → Bool
held id q = q.in_hand && is_first id q.waiting

-- what the queue does
unfoldable pub serve : Call → Queue → Answer × Queue
serve (accepts event) q = if has event.event_id q.seen then (accepted duplicate, q) else (
  accepted inserted,
  record q { waiting = q.waiting ++ event.event_id ∷ []; seen = q.seen ++ event.event_id ∷ [] },
)
serve claims q =
    if q.in_hand
    then (handed none, q)
    else (handed (first q.waiting), record q { in_hand = is_some (first q.waiting) })
serve recovers q = (recovered (if q.in_hand then 1 else 0), record q { in_hand = false })
serve (retries id) q = (nothing, if held id q then record q { in_hand = false } else q)
serve (marks_processed id) q =
    if held id q
    then (returned (ok tt), record q { waiting = tail q.waiting; in_hand = false })
    else (returned error, q)
serve (marks_file id file state) q = (returned (if has id q.seen then ok tt else error), q)

unfoldable pub serve_all : List Call → Queue → List Answer × Queue
serve_all [] q = ([], q)
serve_all (c ∷ cs) q = let rest = serve_all cs (serve c q).1 in ((serve c q).0 ∷ rest.0, rest.1)

abbrev pub id_of_record : Option SlackInboxRecord → Option String
id_of_record none = none
id_of_record (some r) = some r.event.event_id

-- what the inbox does, with its answers in the same terms
unfoldable pub step : ℕ → Call → Inbox → Answer × Inbox
step now (accepts event) s = (accepted (accept now event s).0, (accept now event s).1)
step now claims s = (handed (id_of_record (claim_next now s).0), (claim_next now s).1)
step now recovers s = (recovered (recover_processing now s).0, (recover_processing now s).1)
step now (retries id) s = (nothing, retry now id s)
step now (marks_processed id) s = (
  returned (mark_processed_in_transaction now id s).0,
  (mark_processed_in_transaction now id s).1,
)
step now (marks_file id file state) s =
    (returned (update_file_state now id file state s).0, (update_file_state now id file state s).1)

abbrev pub calls_of : List (ℕ × Call) → List Call
calls_of [] = []
calls_of ((now, c) ∷ cs) = c ∷ calls_of cs

unfoldable pub run : List (ℕ × Call) → Inbox → List Answer × Inbox
run [] s = ([], s)
run ((now, c) ∷ cs) s = let rest = run cs (step now c s).1 in ((step now c s).0 ∷ rest.0, rest.1)

abbrev pub is_waiting : Row → Bool
is_waiting r = not (is_processed r.state)

abbrev pub waiting_of : List Row → List String
waiting_of rs = map id_of (keep is_waiting rs)

-- the queue that an inbox stands for
unfoldable pub view : Inbox → Queue
view s = record {
  waiting = waiting_of s.rows;
  in_hand = any in_processing s.rows;
  seen = map id_of s.rows;
}

-- The arrivals rise from `low` and stay below `high`.
abbrev pub Rises : ℕ → ℕ → List Row → Type 0
Rises low high [] = low ≤ high
Rises low high (r ∷ rs) = (low ≤ r.arrival_sequence) × Rises (suc r.arrival_sequence) high rs

-- Only the first row that waits may be in processing.
abbrev pub HeadOnly : List Row → Type 0
HeadOnly [] = Unit
HeadOnly (r ∷ rs) = if is_processed r.state then HeadOnly rs else any in_processing rs ≡ false

-- No event has two rows.
abbrev pub Distinct : List Row → Type 0
Distinct [] = Unit
Distinct (r ∷ rs) = (get id_of r.event_id rs ≡ none) × Distinct rs

pub record IsOrderly (next : ℕ) (rs : List Row) : Type 0 where
  pub rises : Rises 0 next rs
  pub head_only : HeadOnly rs
  pub distinct : Distinct rs
