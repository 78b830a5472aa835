-- ===== src/Scheduling/Outbox/Claims.antt =====
-- src/scheduling/send-outbox.ts: what the writes of the ledger make of a key's row.
use qiyan_bot.Prelude.{
  ℕ, ◌≡◌, refl, ◌≢◌, inl, inr, String, str_eq, true, ◌&&◌, none, some, List, [], ◌∷◌, ◌++◌, arith,
  if◌then◌else◌, ◌==◌, get, get-modify, get-append, get-delete-append, key-get, eq_iff,
  Option-cases, written,
}
use qiyan_bot.Scheduling.Outbox.{
  ScheduledSend, sending, sent, key_of, is_sending, claim, claim_found, claim_existing, reclaim,
  claimed, delivered, mark_sent, release,
}

pub get-mark_sent :
    (j key : String) (rows : List ScheduledSend)
    → get key_of j (mark_sent key rows) ≡ (
        if str_eq key j
        then written (λ _. true) (λ r. record r { state = sent }) (get key_of key rows)
        else get key_of j rows)
unfolding mark_sent
get-mark_sent j key rows =
    get-modify key_of j key (λ _. true) (λ r. record r { state = sent }) rows (λ r. refl)

unfoldable pub fresh_row : String → String → String → ℕ → ScheduledSend
fresh_row key nickname message now = record {
  single_fire_key = key;
  nickname = nickname;
  message = message;
  state = sending;
  claimed_at = now;
}

pub claim_free :
    (stale : ℕ) (key nickname message : String) (now : ℕ) (rows : List ScheduledSend)
    → get key_of key rows ≡ none
    → claim stale key nickname message now rows
      ≡ (claimed, rows ++ fresh_row key nickname message now ∷ [])
unfolding claim fresh_row
claim_free stale key nickname message now rows h = rw (h, claim_found)

pub claim-sent :
    (stale : ℕ) (key nickname message : String) (now : ℕ) (rows : List ScheduledSend)
    (r : ScheduledSend)
    → get key_of key rows ≡ some r
    → r.state ≡ sent
    → claim stale key nickname message now rows ≡ (delivered, rows)
unfolding claim
claim-sent stale key nickname message now rows r h s = rw (h, claim_found) (ground arith)

pub get-fresh :
    (j key nickname message : String) (now : ℕ) (rows : List ScheduledSend)
    → get key_of key rows ≡ none
    → get key_of j (rows ++ fresh_row key nickname message now ∷ [])
      ≡ (if str_eq key j then some (fresh_row key nickname message now) else get key_of j rows)
unfolding fresh_row
get-fresh j key nickname message now rows h =
    ground (arith, eq_iff key j, get-append key_of j (fresh_row key nickname message now) rows)

pub get-release-fresh :
    (key nickname message : String) (now : ℕ) (rows : List ScheduledSend)
    → get key_of key rows ≡ none
    → get key_of key (release key (rows ++ fresh_row key nickname message now ∷ [])) ≡ none
unfolding release fresh_row
get-release-fresh key nickname message now rows h =
    get-delete-append key_of key (λ r. is_sending r.state) (fresh_row key nickname message now) rows
      h refl refl

get-reclaim_ne :
    (j key : String) (at now : ℕ) (rows : List ScheduledSend)
    → key ≢ j
    → get key_of j (reclaim key at now rows).1 ≡ get key_of j rows
unfolding reclaim
get-reclaim_ne j key at now rows d = ground (
  arith,
  eq_iff key j,
  get-modify key_of j key (λ r. is_sending r.state && (r.claimed_at == at))
      (λ r. record r { claimed_at = now }) rows (λ r. refl),
)

pub get-claim_ne :
    (stale : ℕ) (j key nickname message : String) (now : ℕ) (rows : List ScheduledSend)
    → key ≢ j
    → get key_of j (claim stale key nickname message now rows).1 ≡ get key_of j rows
unfolding claim claim_existing
get-claim_ne stale j key nickname message now rows d = elim (Option-cases (get key_of key rows)) [
  | inl free ↦
      rw (claim_free stale key nickname message now rows free)
        (ground (arith, eq_iff key j, get-fresh j key nickname message now rows free))
  | inr (r, held) ↦
      rw (held, claim_found)
        (ground (
          arith,
          key-get key_of key r rows held,
          get-reclaim_ne j r.single_fire_key r.claimed_at now rows,
        ))
]
