-- ===== src/ChatApps/Slack/Inbox/Rows.antt =====
-- src/chat-apps/slack/inbox-store.ts: what the statements of the inbox do to its rows.
use qiyan_bot.Prelude.{
  ℕ, String, str_eq, Bool, true, false, ◌&&◌, none, List, [], ◌∷◌, if◌then◌else◌, any, map, is_some,
  ◌≡◌, refl, suc, get, modify, changes, arith, eq_iff, inl, inr, Bool-cases,
}
use qiyan_bot.ChatApps.Slack.Inbox.Records.{
  Row, id_of, is_processed, is_processing, InboxState, pending, processing, processed, to_retry,
}
use qiyan_bot.ChatApps.Slack.Inbox.{in_processing}
use qiyan_bot.ChatApps.Slack.Inbox.Queue.{has, is_first, waiting_of, Rises, HeadOnly, Distinct}

pub not_both : (st : InboxState) → is_processing st ≡ true → is_processed st ≡ false
not_both pending h = refl
not_both processing h = refl
not_both processed h = absurd (ground (arith, h))
not_both to_retry h = refl

-- the identifier belongs to the first row that waits
abbrev pub is_head : String → List Row → Bool
is_head k [] = false
is_head k (r ∷ rs) = if is_processed r.state then is_head k rs else str_eq r.event_id k

pub is_head_lem : (k : String) (rs : List Row) → is_head k rs ≡ is_first k (waiting_of rs)
is_head_lem k [] = refl
is_head_lem k (r ∷ rs) = ground (arith, is_head_lem k rs)

pub has-get : (k : String) (rs : List Row) → has k (map id_of rs) ≡ is_some (get id_of k rs)
unfolding get
has-get k [] = refl
has-get k (r ∷ rs) = ground (arith, has-get k rs)

pub head_absent : (k : String) (rs : List Row) → get id_of k rs ≡ none → is_head k rs ≡ false
unfolding get
head_absent k [] h = refl
head_absent k (r ∷ rs) h = ground (arith, h, head_absent k rs)

pub idle_refused :
    (k : String) (rs : List Row)
    → any in_processing rs ≡ false
    → changes id_of k in_processing rs ≡ false
unfolding get
idle_refused k [] h = refl
idle_refused k (r ∷ rs) h = ground (arith, h, idle_refused k rs)

pub idle-HeadOnly : (rs : List Row) → any in_processing rs ≡ false → HeadOnly rs
idle-HeadOnly [] h = tt
idle-HeadOnly (r ∷ rs) h = elim (Bool-cases (is_processed r.state)) [
  | inl done ↦ rw done (idle-HeadOnly rs (ground (arith, h)))
  | inr waits ↦ rw waits (ground (arith, h))
]

-- an UPDATE of the row in processing finds one just when the identifier is that of the first row
pub changes_held :
    (k : String) (rs : List Row)
    → HeadOnly rs
    → Distinct rs
    → changes id_of k in_processing rs ≡ (any in_processing rs && is_head k rs)
unfolding get
changes_held k [] h d = refl
changes_held k (r ∷ rs) h d = elim (Bool-cases (is_processed r.state)) [
  | inl done ↦
      let h' : HeadOnly rs = rw done at h in
      let absent : str_eq r.event_id k ≡ true → is_head k rs ≡ false =
        λ e. head_absent k rs (ground (arith, eq_iff r.event_id k, e, d.0)) in
      ground (arith, done, changes_held k rs h' d.1, absent)
  | inr waits ↦
      let idle : any in_processing rs ≡ false = rw waits at h in
      ground (arith, waits, idle, idle_refused k rs idle)
]

-- what such an UPDATE leaves in processing
pub any-modify :
    (k : String) (f : Row → Row) (rs : List Row)
    → ((r : Row) → is_processing ((f r).state) ≡ false)
    → HeadOnly rs
    → any in_processing (modify id_of k in_processing f rs)
      ≡ (if changes id_of k in_processing rs then false else any in_processing rs)
unfolding get modify
any-modify k f [] off h = refl
any-modify k f (r ∷ rs) off h = elim (Bool-cases (is_processed r.state)) [
  | inl done ↦ ground (arith, done, off r, any-modify k f rs off (rw done at h))
  | inr waits ↦
      let idle : any in_processing rs ≡ false = rw waits at h in
      ground (
        arith,
        waits,
        idle,
        off r,
        idle_refused k rs idle,
        any-modify k f rs off (idle-HeadOnly rs idle),
      )
]

module _ (g : Row → Bool) (f : Row → Row) (same_id : (r : Row) → (f r).event_id ≡ r.event_id) where
  -- an UPDATE that does not end a row's wait
  pub waiting-modify :
      (k : String) (rs : List Row)
      → ((r : Row) → g r ≡ true → is_processed ((f r).state) ≡ is_processed r.state)
      → waiting_of (modify id_of k g f rs) ≡ waiting_of rs
  unfolding modify
  waiting-modify k [] keeps = refl
  waiting-modify k (r ∷ rs) keeps = ground (arith, same_id r, keeps r, waiting-modify k rs keeps)

  pub seen-modify : (k : String) (rs : List Row) → map id_of (modify id_of k g f rs) ≡ map id_of rs
  unfolding modify
  seen-modify k [] = refl
  seen-modify k (r ∷ rs) = ground (arith, same_id r, seen-modify k rs)

  pub absent-modify :
      (j k : String) (rs : List Row)
      → get id_of j rs ≡ none
      → get id_of j (modify id_of k g f rs) ≡ none
  unfolding get modify
  absent-modify j k [] h = refl
  absent-modify j k (r ∷ rs) h = ground (arith, same_id r, h, absent-modify j k rs)

  pub Distinct-modify :
      (k : String) (rs : List Row) → Distinct rs → Distinct (modify id_of k g f rs)
  unfolding modify
  Distinct-modify k [] d = tt
  Distinct-modify k (r ∷ rs) d = elim (Bool-cases (str_eq r.event_id k)) [
    | inl here ↦ rw here (ground (arith, same_id r, d.0), d.1)
    | inr later ↦ rw later (absent-modify r.event_id k rs d.0, Distinct-modify k rs d.1)
  ]

  pub Rises-modify :
      (low high : ℕ) (k : String) (rs : List Row)
      → ((r : Row) → (f r).arrival_sequence ≡ r.arrival_sequence)
      → Rises low high rs
      → Rises low high (modify id_of k g f rs)
  unfolding modify
  Rises-modify low high k [] same h = h
  Rises-modify low high k (r ∷ rs) same h = elim (Bool-cases (str_eq r.event_id k)) [
    | inl here ↦
        rw here (elim (Bool-cases (g r)) [ inl on ↦ rw (on, same r) h | inr off ↦ rw off h ])
    | inr later ↦ rw later (h.0, Rises-modify (suc r.arrival_sequence) high k rs same h.1)
  ]
