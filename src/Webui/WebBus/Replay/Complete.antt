-- ===== src/Webui/WebBus/Replay/Complete.antt =====
-- src/webui/web-bus.ts: when the replay buffer admits no gap, it holds all that a cursor missed.
use mathlib.Core.List.{map-append, append-nil, append_assoc}
use qiyan_bot.Prelude.{
  ℕ, suc, ◌+◌, ◌-◌, ◌≤◌, ◌<◌, ◌≡◌, refl, ap, ◌∙◌, sym, false, Option, String, some, inl, inr, List,
  [], ◌∷◌, ◌++◌, map, max, arith, leb, length, length-append, drop, drop-append, drop_all,
  Bool-cases,
}
use qiyan_bot.Webui.WebBus.Replay.{
  Entry, Subscription, SubscriptionState, Limits, new, over, trim, entry_for, record_event,
  record_events, replay_gap, max_replay_event_bytes, entries_after,
}

module _ {E : Type 0} where
  -- the events that `replay` sends to a cursor
  abbrev pub events_after : ℕ → List (Entry E) → List E
  events_after n es = map (λ e. e.event) (entries_after n es)

  pub SeqsBelow : ℕ → List (Entry E) → Type 0
  SeqsBelow n [] = Unit
  SeqsBelow n (e ∷ es) = (e.seq ≤ n) × SeqsBelow n es

  -- The entries hold the suffix of the history behind each cursor that was not dropped past.
  pub record Covers (history : List E) (latest dropped : ℕ) (es : List (Entry E)) : Type 0 where
    pub counted : latest ≡ length history
    pub behind : dropped ≤ latest
    pub below : SeqsBelow latest es
    pub suffix : (n : ℕ) → dropped ≤ n → n ≤ latest → events_after n es ≡ drop n history

  abbrev pub Records : List E → SubscriptionState E → Type 0
  Records history s = Covers history s.latest_seq s.dropped_through_seq s.replay

  SeqsBelow-mono : (m n : ℕ) (es : List (Entry E)) → m ≤ n → SeqsBelow m es → SeqsBelow n es
  unfolding SeqsBelow
  SeqsBelow-mono m n [] h b = tt
  SeqsBelow-mono m n (e ∷ es) h b = (omega arith, SeqsBelow-mono m n es h b.1)

  SeqsBelow-snoc :
      (n : ℕ) (e : Entry E) (es : List (Entry E))
      → e.seq ≤ n
      → SeqsBelow n es
      → SeqsBelow n (es ++ e ∷ [])
  unfolding SeqsBelow
  SeqsBelow-snoc n e [] h b = (h, tt)
  SeqsBelow-snoc n e (x ∷ es) h b = (b.0, SeqsBelow-snoc n e es h b.1)

  entries_after-top : (n : ℕ) (es : List (Entry E)) → SeqsBelow n es → entries_after n es ≡ []
  unfolding SeqsBelow entries_after
  entries_after-top n [] h = refl
  entries_after-top n (e ∷ es) h = ground (arith, entries_after-top n es h.1)

  entries_after-append :
      (n : ℕ) (xs ys : List (Entry E))
      → entries_after n (xs ++ ys) ≡ entries_after n xs ++ entries_after n ys
  unfolding entries_after
  entries_after-append n [] ys = refl
  entries_after-append n (x ∷ xs) ys = ground (arith, entries_after-append n xs ys)

  entries_after-cons :
      (n : ℕ) (e : Entry E) (es : List (Entry E))
      → e.seq ≤ n
      → entries_after n (e ∷ es) ≡ entries_after n es
  unfolding entries_after
  entries_after-cons n e es h = ground arith

  entries_after-one : (n : ℕ) (e : Entry E) → n < e.seq → entries_after n (e ∷ []) ≡ e ∷ []
  unfolding entries_after
  entries_after-one n e h = ground arith

  SeqsBelow-tail :
      (n : ℕ) (e : Entry E) (es : List (Entry E))
      → SeqsBelow n (e ∷ es)
      → (e.seq ≤ n) × SeqsBelow n es
  unfolding SeqsBelow
  SeqsBelow-tail n e es h = h

  Covers-tail :
      (history : List E) (latest dropped : ℕ) (e : Entry E) (es : List (Entry E))
      → Covers history latest dropped (e ∷ es)
      → Covers history latest (max dropped e.seq) es
  Covers-tail history latest dropped e es c = record {
    counted = c.counted;
    behind = omega (arith, c.behind, SeqsBelow-tail latest e es c.below);
    below = (SeqsBelow-tail latest e es c.below).1;
    suffix = λ n h k.
        ap (map (λ x. x.event)) (sym (entries_after-cons n e es (omega arith)))
        ∙ c.suffix n (omega arith) k;
  }

  -- Shifting entries out of the buffer keeps what it covers.
  Records-trim :
      (lim : Limits) (history : List E) (es : List (Entry E)) (s : SubscriptionState E)
      → Covers history s.latest_seq s.dropped_through_seq es
      → Records history (trim lim es s)
  unfolding trim
  Records-trim lim history [] s c = c
  Records-trim lim history (e ∷ es) s c = elim (Bool-cases (over lim (e ∷ es) s.replay_bytes)) [
    | inl more ↦ rw more (
        Records-trim lim history es
          (record s {
            replay_bytes = s.replay_bytes - e.bytes;
            dropped_through_seq = max s.dropped_through_seq e.seq;
          })
          (Covers-tail history s.latest_seq s.dropped_through_seq e es c))
    | inr done ↦ rw done c
  ]

  Covers-snoc :
      (history : List E) (latest dropped : ℕ) (e : Entry E) (es : List (Entry E))
      → e.seq ≡ suc latest
      → Covers history latest dropped es
      → Covers (history ++ e.event ∷ []) (suc latest) dropped (es ++ e ∷ [])
  Covers-snoc history latest dropped e es q c = record {
    counted = omega (arith, c.counted, length-append history (e.event ∷ []));
    behind = omega (arith, c.behind);
    below =
        SeqsBelow-snoc (suc latest) e es (omega arith)
          (SeqsBelow-mono latest (suc latest) es (omega arith) c.below);
    suffix = λ n h k. snoc_suffix n h k;
  }
    where
      snoc_suffix :
          (n : ℕ)
          → dropped ≤ n
          → n ≤ suc latest
          → events_after n (es ++ e ∷ []) ≡ drop n (history ++ e.event ∷ [])
      snoc_suffix n h k = elim (Bool-cases (leb n latest)) [
        | inl old ↦
            ap (map (λ x. x.event)) (
              entries_after-append n es (e ∷ [])
              ∙ ap (◌++◌ (entries_after n es)) (entries_after-one n e (ground arith)))
            ∙ map-append _ _ _
            ∙ ap (λ l. l ++ e.event ∷ []) (c.suffix n h (ground arith))
            ∙ sym (drop-append n history (e.event ∷ []) (ground (arith, c.counted)))
        | inr top ↦
            ap (map (λ x. x.event)) (
              entries_after-top n (es ++ e ∷ []) (
                SeqsBelow-snoc n e es (ground arith)
                  (SeqsBelow-mono latest n es (ground arith) c.below)))
            ∙ sym (
                drop_all n (history ++ e.event ∷ [])
                  (ground (arith, c.counted, length-append history (e.event ∷ []))))
      ]

  Records-record_event :
      (lim : Limits) (json_bytes : E → ℕ) (history : List E) (event : E) (s : SubscriptionState E)
      → Records history s
      → Records (history ++ event ∷ []) (record_event lim json_bytes event s)
  unfolding record_event
  Records-record_event lim json_bytes history event s c =
      elim (Bool-cases (leb (entry_for json_bytes event s).bytes max_replay_event_bytes)) [
        | inl fits ↦ rw fits (
            Records-trim lim (history ++ event ∷ []) (s.replay ++ entry_for json_bytes event s ∷ [])
              (record s {
                latest_seq = suc s.latest_seq;
                replay_bytes = s.replay_bytes + (entry_for json_bytes event s).bytes;
              })
              (Covers-snoc history s.latest_seq s.dropped_through_seq (entry_for json_bytes event s)
                s.replay refl c))
        | inr large ↦ rw large (record {
          counted = omega (arith, c.counted, length-append history (event ∷ []));
          behind = omega arith;
          below = SeqsBelow-mono s.latest_seq (suc s.latest_seq) s.replay (omega arith) c.below;
          suffix = λ n h k.
              ap (map (λ x. x.event)) (
                entries_after-top n s.replay
                  (SeqsBelow-mono s.latest_seq n s.replay (omega arith) c.below))
              ∙ sym (
                  drop_all n (history ++ event ∷ [])
                    (omega (arith, c.counted, length-append history (event ∷ []))));
        })
      ]

  Records-record_events :
      (lim : Limits) (json_bytes : E → ℕ) (history events : List E) (s : SubscriptionState E)
      → Records history s
      → Records (history ++ events) (record_events lim json_bytes events s)
  unfolding record_events
  Records-record_events lim json_bytes history [] s c = rw append-nil c
  Records-record_events lim json_bytes history (e ∷ es) s c = rw append_assoc at (
      Records-record_events lim json_bytes (history ++ e ∷ []) es (record_event lim json_bytes e s)
        (Records-record_event lim json_bytes history e s c))

  Records-new : (sub : Subscription) (socket : Option String) → Records [] (new sub socket)
  unfolding new SeqsBelow entries_after
  Records-new sub socket = record {
    counted = refl;
    behind = omega arith;
    below = tt;
    suffix = λ n h k. sym (drop_all n [] (omega arith));
  }

  replay_gap_bounds :
      (s : SubscriptionState E) (n : ℕ)
      → replay_gap s (some n) ≡ false
      → (s.dropped_through_seq ≤ n) × (n ≤ s.latest_seq)
  unfolding replay_gap
  replay_gap_bounds s n h = ground arith

  -- For every sequence of events that a subscription was sent, whatever the limits and the sizes:
  -- when the buffer reports no gap for a cursor, the entries that `replay` sends to it are exactly
  -- the events that were published after the cursor, in order.
  pub replay_complete :
      (lim : Limits) (json_bytes : E → ℕ) (sub : Subscription) (socket : Option String)
      (events : List E) (n : ℕ)
      → replay_gap (record_events lim json_bytes events (new sub socket)) (some n) ≡ false
      → events_after n (record_events lim json_bytes events (new sub socket)).replay ≡ drop n events
  replay_complete lim json_bytes sub socket events n h =
      let b = replay_gap_bounds _ n h in
      (Records-record_events lim json_bytes [] events (new sub socket)
          (Records-new sub socket)).suffix
        n b.0 b.1
