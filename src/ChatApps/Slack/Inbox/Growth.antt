-- ===== src/ChatApps/Slack/Inbox/Growth.antt =====
-- src/chat-apps/slack/inbox-store.ts: a new row at the end, and an UPDATE of every row.
use qiyan_bot.Prelude.{
  ℕ, String, false, none, List, [], ◌∷◌, ◌++◌, if◌then◌else◌, any, map, ◌≡◌, refl, ap, ◌∙◌, suc,
  get, arith, eq_iff, eq_refl, inl, inr, Bool-cases, get-append, count,
}
use qiyan_bot.ChatApps.Slack.Inbox.Records.{Row, id_of, is_processed, is_processing}
use qiyan_bot.ChatApps.Slack.Inbox.{in_processing}
use qiyan_bot.ChatApps.Slack.Inbox.Queue.{waiting_of, Rises, HeadOnly, Distinct, IsOrderly}
use qiyan_bot.ChatApps.Slack.Inbox.Rows.{not_both, idle-HeadOnly}

module _ (x : Row) (idle_x : is_processing x.state ≡ false)
    (waits_x : is_processed x.state ≡ false) where
  pub waiting-append :
      (rs : List Row) → waiting_of (rs ++ x ∷ []) ≡ waiting_of rs ++ x.event_id ∷ []
  waiting-append [] = ground (arith, waits_x)
  waiting-append (r ∷ rs) = ground (arith, waiting-append rs)

  pub any-append : (rs : List Row) → any in_processing (rs ++ x ∷ []) ≡ any in_processing rs
  any-append [] = ground (arith, idle_x)
  any-append (r ∷ rs) = ground (arith, any-append rs)

  pub seen-append : (rs : List Row) → map id_of (rs ++ x ∷ []) ≡ map id_of rs ++ x.event_id ∷ []
  seen-append [] = refl
  seen-append (r ∷ rs) = ap (λ ids. r.event_id ∷ ids) (seen-append rs)

  HeadOnly-append : (rs : List Row) → HeadOnly rs → HeadOnly (rs ++ x ∷ [])
  HeadOnly-append [] h = rw waits_x refl
  HeadOnly-append (r ∷ rs) h = elim (Bool-cases (is_processed r.state)) [
    | inl done ↦ rw done (HeadOnly-append rs (rw done at h))
    | inr waits ↦ rw waits (any-append rs ∙ (rw waits at h))
  ]

  Rises-append :
      (low : ℕ) (rs : List Row)
      → Rises low x.arrival_sequence rs
      → Rises low (suc x.arrival_sequence) (rs ++ x ∷ [])
  Rises-append low [] h = (h, omega arith)
  Rises-append low (r ∷ rs) h = (h.0, Rises-append (suc r.arrival_sequence) rs h.1)

  Distinct-append :
      (rs : List Row) → get id_of x.event_id rs ≡ none → Distinct rs → Distinct (rs ++ x ∷ [])
  unfolding get
  Distinct-append [] n d = (refl, tt)
  Distinct-append (r ∷ rs) n d = (
    ground (
      arith,
      n,
      d.0,
      eq_iff x.event_id r.event_id,
      eq_refl r.event_id,
      get-append id_of r.event_id x rs,
    ),
    Distinct-append rs (ground (arith, n)) d.1,
  )

  pub append-IsOrderly :
      (rs : List Row)
      → get id_of x.event_id rs ≡ none
      → IsOrderly x.arrival_sequence rs
      → IsOrderly (suc x.arrival_sequence) (rs ++ x ∷ [])
  append-IsOrderly rs n v = record {
    rises = Rises-append 0 rs (v.rises);
    head_only = HeadOnly-append rs (v.head_only);
    distinct = Distinct-append rs n (v.distinct);
  }

-- a row in processing is put back, the others stay
module _ (f : Row → Row) (same_id : (r : Row) → (f r).event_id ≡ r.event_id)
    (same_arrival : (r : Row) → (f r).arrival_sequence ≡ r.arrival_sequence)
    (off : (r : Row) → is_processing ((f r).state) ≡ false)
    (waits : (r : Row) → is_processed ((f r).state) ≡ is_processed r.state) where
  pub any_put_back : (rs : List Row) → any in_processing (map f rs) ≡ false
  any_put_back [] = refl
  any_put_back (r ∷ rs) = ground (arith, off r, any_put_back rs)

  pub waiting_put_back : (rs : List Row) → waiting_of (map f rs) ≡ waiting_of rs
  waiting_put_back [] = refl
  waiting_put_back (r ∷ rs) = ground (arith, waits r, same_id r, waiting_put_back rs)

  pub seen_put_back : (rs : List Row) → map id_of (map f rs) ≡ map id_of rs
  seen_put_back [] = refl
  seen_put_back (r ∷ rs) = ground (arith, same_id r, seen_put_back rs)

  Rises-put_back : (low high : ℕ) (rs : List Row) → Rises low high rs → Rises low high (map f rs)
  Rises-put_back low high [] h = h
  Rises-put_back low high (r ∷ rs) h =
      rw (same_arrival r) (h.0, Rises-put_back (suc r.arrival_sequence) high rs h.1)

  absent_put_back :
      (k : String) (rs : List Row) → get id_of k rs ≡ none → get id_of k (map f rs) ≡ none
  unfolding get
  absent_put_back k [] h = refl
  absent_put_back k (r ∷ rs) h = ground (arith, h, same_id r, absent_put_back k rs)

  Distinct-put_back : (rs : List Row) → Distinct rs → Distinct (map f rs)
  Distinct-put_back [] d = tt
  Distinct-put_back (r ∷ rs) d =
      rw (same_id r) (absent_put_back r.event_id rs d.0, Distinct-put_back rs d.1)

  pub put_back-IsOrderly :
      (next : ℕ) (rs : List Row) → IsOrderly next rs → IsOrderly next (map f rs)
  put_back-IsOrderly next rs v = record {
    rises = Rises-put_back 0 next rs (v.rises);
    head_only = idle-HeadOnly (map f rs) (any_put_back rs);
    distinct = Distinct-put_back rs (v.distinct);
  }

count_idle : (rs : List Row) → any in_processing rs ≡ false → count in_processing rs ≡ 0
count_idle [] h = refl
count_idle (r ∷ rs) h = ground (arith, h, count_idle rs)

pub count_held :
    (rs : List Row) → HeadOnly rs → count in_processing rs ≡ (if any in_processing rs then 1 else 0)
count_held [] h = refl
count_held (r ∷ rs) h = elim (Bool-cases (is_processed r.state)) [
  | inl done ↦ ground (arith, done, not_both r.state, count_held rs (rw done at h))
  | inr waits ↦
      let idle : any in_processing rs ≡ false = rw waits at h in
      ground (arith, waits, idle, count_idle rs idle)
]
