-- ===== src/ChatApps/Slack/Inbox/Updates.antt =====
-- src/chat-apps/slack/inbox-store.ts: claims, ends, recoveries and arrivals, seen on the rows.
use qiyan_bot.Prelude.{
  ℕ, String, str_eq, Bool, true, false, Option, none, some, List, [], ◌∷◌, if◌then◌else◌, any, ◌≡◌,
  refl, ◌≤◌, suc, get, modify, changes, arith, eq_iff, eq_refl, inl, inr, Bool-cases, Option-cases,
}
use qiyan_bot.ChatApps.Slack.Inbox.Records.{
  Row, id_of, is_processed, is_processing, InboxState, is_claimable, pending, processing, processed,
  to_retry,
}
use qiyan_bot.ChatApps.Slack.Inbox.{in_processing, oldest, earlier, may_claim, claimed}
use qiyan_bot.ChatApps.Slack.Inbox.Queue.{first, tail, waiting_of, Rises, HeadOnly, Distinct}
use qiyan_bot.ChatApps.Slack.Inbox.Rows.{not_both, idle_refused, idle-HeadOnly}

-- the end of a row takes it off the head
pub waiting_done :
    (k : String) (f : Row → Row) (rs : List Row)
    → ((r : Row) → is_processed ((f r).state) ≡ true)
    → HeadOnly rs
    → waiting_of (modify id_of k in_processing f rs)
      ≡ (if changes id_of k in_processing rs then tail (waiting_of rs) else waiting_of rs)
unfolding get modify
waiting_done k f [] ends h = refl
waiting_done k f (r ∷ rs) ends h = elim (Bool-cases (is_processed r.state)) [
  | inl done ↦
      ground (arith, done, ends r, not_both r.state, waiting_done k f rs ends (rw done at h))
  | inr waits ↦
      let idle : any in_processing rs ≡ false = rw waits at h in
      ground (
        arith,
        waits,
        idle,
        ends r,
        idle_refused k rs idle,
        waiting_done k f rs ends (idle-HeadOnly rs idle),
      )
]

abbrev pub first_waiting : List Row → Option Row
first_waiting [] = none
first_waiting (r ∷ rs) = if is_processed r.state then first_waiting rs else some r

first_waiting_late :
    (low high : ℕ) (rs : List Row) (x : Row)
    → Rises low high rs
    → first_waiting rs ≡ some x
    → low ≤ x.arrival_sequence
first_waiting_late low high [] x h e = absurd (ground arith)
first_waiting_late low high (r ∷ rs) x h e = elim (Bool-cases (is_processed r.state)) [
  | inl done ↦ omega (
    arith,
    h.0,
    first_waiting_late (suc r.arrival_sequence) high rs x h.1 (ground (arith, done, e)),
  )
  | inr waits ↦ let it : some r ≡ some x = ground (arith, waits, e) in ground (arith, it, h.0)
]

-- the order by arrival is the order of insertion
pub oldest_lem : (low high : ℕ) (rs : List Row) → Rises low high rs → oldest rs ≡ first_waiting rs
unfolding oldest earlier
oldest_lem low high [] h = refl
oldest_lem low high (r ∷ rs) h =
    let rest : oldest rs ≡ first_waiting rs = oldest_lem (suc r.arrival_sequence) high rs h.1 in
    elim (Option-cases (first_waiting rs)) [
      | inl none_ ↦ rw (rest, none_) (ground arith)
      | inr (x, some_) ↦
          rw (rest, some_)
            (ground (arith, first_waiting_late (suc r.arrival_sequence) high rs x h.1 some_))
    ]

abbrev pub id_of_found : Option Row → Option String
id_of_found none = none
id_of_found (some r) = some r.event_id

abbrev pub found_processing : Option Row → Bool
found_processing none = false
found_processing (some r) = is_processing r.state

pub first_waiting_id : (rs : List Row) → first (waiting_of rs) ≡ id_of_found (first_waiting rs)
first_waiting_id [] = refl
first_waiting_id (r ∷ rs) = ground (arith, first_waiting_id rs)

pub first_waiting_held :
    (rs : List Row) → HeadOnly rs → any in_processing rs ≡ found_processing (first_waiting rs)
first_waiting_held [] h = refl
first_waiting_held (r ∷ rs) h = elim (Bool-cases (is_processed r.state)) [
  | inl done ↦ ground (arith, done, not_both r.state, first_waiting_held rs (rw done at h))
  | inr waits ↦
      let idle : any in_processing rs ≡ false = rw waits at h in ground (arith, waits, idle)
]

pub first_waiting-get :
    (rs : List Row) (x : Row)
    → Distinct rs
    → first_waiting rs ≡ some x
    → get id_of x.event_id rs ≡ some x
unfolding get
first_waiting-get [] x d e = absurd (ground arith)
first_waiting-get (r ∷ rs) x d e = elim (Bool-cases (is_processed r.state)) [
  | inl done ↦
      let later : get id_of x.event_id rs ≡ some x =
        first_waiting-get rs x d.1 (ground (arith, done, e)) in
      ground (arith, later, d.0, eq_iff r.event_id x.event_id)
  | inr waits ↦
      let it : some r ≡ some x = ground (arith, waits, e) in ground (arith, it, eq_refl r.event_id)
]

claimable :
    (st : InboxState) → is_processed st ≡ false → is_processing st ≡ false → is_claimable st ≡ true
claimable pending p q = refl
claimable processing p q = absurd (ground (arith, q))
claimable processed p q = absurd (ground (arith, p))
claimable to_retry p q = refl

first_waiting_waits :
    (rs : List Row) (x : Row) → first_waiting rs ≡ some x → is_processed x.state ≡ false
first_waiting_waits [] x e = absurd (ground arith)
first_waiting_waits (r ∷ rs) x e = elim (Bool-cases (is_processed r.state)) [
  | inl done ↦ first_waiting_waits rs x (ground (arith, done, e))
  | inr waits ↦ let it : some r ≡ some x = ground (arith, waits, e) in ground (arith, it, waits)
]

-- a claim of the first row that waits finds it, and puts it in processing
pub claim_changes :
    (rs : List Row) (x : Row)
    → Distinct rs
    → first_waiting rs ≡ some x
    → is_processing x.state ≡ false
    → changes id_of x.event_id may_claim rs ≡ true
claim_changes rs x d e off =
    rw (first_waiting-get rs x d e) (claimable x.state (first_waiting_waits rs x e) off)

pub claim_head :
    (now : ℕ) (rs : List Row) (x : Row)
    → Distinct rs
    → HeadOnly rs
    → first_waiting rs ≡ some x
    → is_processing x.state ≡ false
    → (any in_processing (modify id_of x.event_id may_claim (claimed now) rs) ≡ true)
      × HeadOnly (modify id_of x.event_id may_claim (claimed now) rs)
unfolding modify claimed
claim_head now [] x d h e off = absurd (ground arith)
claim_head now (r ∷ rs) x d h e off = elim (Bool-cases (is_processed r.state)) [
  | inl done ↦
      let e' : first_waiting rs ≡ some x = ground (arith, done, e) in
      let rest = claim_head now rs x d.1 (rw done at h) e' off in
      let apart : str_eq r.event_id x.event_id ≡ false =
        ground (arith, eq_iff r.event_id x.event_id, d.0, first_waiting-get rs x d.1 e') in
      rw (apart, done) (ground (arith, done, rest.0), rest.1)
  | inr waits ↦
      let it : some r ≡ some x = ground (arith, waits, e) in
      let idle : any in_processing rs ≡ false = rw waits at h in
      let may : may_claim r ≡ true = ground (arith, claimable r.state waits, it, off) in
      let here : str_eq r.event_id x.event_id ≡ true = ground (arith, it, eq_refl r.event_id) in
      rw (here, may) (refl, idle)
]
