-- ===== src/Webui/WebBus/Replay/Bounds.antt =====
-- src/webui/web-bus.ts: the replay buffer stays within its limits, and its byte count is exact.
use qiyan_bot.Prelude.{
  ℕ, ◌+◌, ◌≤◌, ◌≡◌, inl, inr, List, [], ◌∷◌, ◌++◌, arith, leb, length, Bool-cases,
}
use qiyan_bot.Webui.WebBus.Replay.{
  Entry, SubscriptionState, Limits, over, trim, entry_for, record_event, record_events,
  max_replay_event_bytes,
}

module _ {E : Type 0} where
  abbrev pub total : List (Entry E) → ℕ
  total [] = 0
  total (e ∷ es) = e.bytes + total es

  total-snoc : (es : List (Entry E)) (e : Entry E) → total (es ++ e ∷ []) ≡ total es + e.bytes
  total-snoc [] e = omega arith
  total-snoc (x ∷ es) e = omega (arith, total-snoc es e)

  pub record IsBounded (lim : Limits) (s : SubscriptionState E) : Type 0 where
    pub exact : s.replay_bytes ≡ total s.replay
    pub few : length s.replay ≤ lim.max_replay_events
    pub small : s.replay_bytes ≤ lim.max_replay_bytes

  trim-IsBounded :
      (lim : Limits) (es : List (Entry E)) (s : SubscriptionState E)
      → s.replay_bytes ≡ total es
      → IsBounded lim (trim lim es s)
  unfolding trim
  trim-IsBounded lim [] s q = omega arith
  trim-IsBounded lim (e ∷ es) s q = elim (Bool-cases (over lim (e ∷ es) s.replay_bytes)) [
    | inl more ↦ rw more (trim-IsBounded lim es _ (omega arith))
    | inr done ↦ rw done (ground arith)
  ]

  record_event-IsBounded :
      (lim : Limits) (json_bytes : E → ℕ) (event : E) (s : SubscriptionState E)
      → IsBounded lim s
      → IsBounded lim (record_event lim json_bytes event s)
  unfolding record_event
  record_event-IsBounded lim json_bytes event s b =
      elim (Bool-cases (leb (entry_for json_bytes event s).bytes max_replay_event_bytes)) [
        | inl fits ↦ rw fits (
            trim-IsBounded lim (s.replay ++ entry_for json_bytes event s ∷ []) _
              (omega (arith, b.exact, total-snoc s.replay (entry_for json_bytes event s))))
        | inr large ↦ rw large (omega (arith, b))
      ]

  -- After any events, the buffer has at most the configured number of entries, and at most the
  -- configured number of bytes, which its counter states exactly.
  record_events-IsBounded :
      (lim : Limits) (json_bytes : E → ℕ) (events : List E) (s : SubscriptionState E)
      → IsBounded lim s
      → IsBounded lim (record_events lim json_bytes events s)
  unfolding record_events
  record_events-IsBounded lim json_bytes [] s b = b
  record_events-IsBounded lim json_bytes (e ∷ es) s b =
      record_events-IsBounded lim json_bytes es (record_event lim json_bytes e s)
        (record_event-IsBounded lim json_bytes e s b)
