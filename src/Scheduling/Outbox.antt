-- ===== src/Scheduling/Outbox.antt =====
-- src/scheduling/send-outbox.ts: the ledger `scheduled_sends`, one row for each single-fire key.
pub mod Claims
use qiyan_bot.Prelude.{
  ℕ, ◌+◌, String, Bool, true, false, ◌&&◌, Option, none, some, List, [], ◌∷◌, ◌++◌, if◌then◌else◌,
  ltb, ◌==◌, get, modify, changes, delete,
}

pub data SendState : Type 0 where
  sending sent : SendState

pub record ScheduledSend : Type 0 where
  pub single_fire_key : String
  pub nickname : String
  pub message : String
  pub state : SendState
  pub claimed_at : ℕ

pub data ClaimOutcome : Type 0 where
  claimed in_flight delivered : ClaimOutcome

abbrev pub key_of : ScheduledSend → String
key_of r = r.single_fire_key

abbrev pub is_sending : SendState → Bool
is_sending sending = true
is_sending sent = false

-- the UPDATE that takes over a stale claim, and what its count of changed rows means
unfoldable pub reclaim : String → ℕ → ℕ → List ScheduledSend → ClaimOutcome × List ScheduledSend
reclaim key claimed_at now rows =
    let stale = λ (r : ScheduledSend). is_sending r.state && (r.claimed_at == claimed_at) in
    (
      if changes key_of key stale rows then claimed else in_flight,
      modify key_of key stale (λ r. record r { claimed_at = now }) rows,
    )

-- `claim` once the INSERT met a row with the key
unfoldable pub claim_existing :
    ℕ → ScheduledSend → ℕ → List ScheduledSend → ClaimOutcome × List ScheduledSend
unfolding reclaim
claim_existing stale_ms r now rows =
    if is_sending r.state
    then (if ltb (r.claimed_at + stale_ms) now
        then reclaim r.single_fire_key r.claimed_at now rows
        else (in_flight, rows))
    else (delivered, rows)

unfoldable pub claim_found :
    ℕ
    → Option ScheduledSend
    → String
    → String
    → String
    → ℕ
    → List ScheduledSend
    → ClaimOutcome × List ScheduledSend
claim_found stale_ms none key nickname message now rows = (
  claimed,
  rows
      ++ record {
        single_fire_key = key;
        nickname = nickname;
        message = message;
        state = sending;
        claimed_at = now;
      }
        ∷ [],
)
claim_found stale_ms (some r) key nickname message now rows = claim_existing stale_ms r now rows

-- INSERT ... ON CONFLICT DO NOTHING, then the SELECT of the row that was in the way
unfoldable pub claim :
    ℕ → String → String → String → ℕ → List ScheduledSend → ClaimOutcome × List ScheduledSend
unfolding claim_found claim_existing
claim stale_ms key nickname message now rows =
    claim_found stale_ms (get key_of key rows) key nickname message now rows

unfoldable pub mark_sent : String → List ScheduledSend → List ScheduledSend
mark_sent key = modify key_of key (λ _. true) (λ r. record r { state = sent })

unfoldable pub release : String → List ScheduledSend → List ScheduledSend
release key = delete key_of key (λ r. is_sending r.state)
