-- ===== src/Webui/WebBus/Replay/Tests.antt =====
-- The replay buffer on concrete events, whose JSON length is the event itself.
use qiyan_bot.Prelude.{ℕ, ◌≡◌, refl, true, false, some, none, List, [], ◌∷◌}
use qiyan_bot.Webui.WebBus.Replay.{
  Subscription, SubscriptionState, Limits, new, record_events, record_event, trim, replay_gap,
}
use qiyan_bot.Webui.WebBus.Replay.Complete.{events_after, replay_complete}

abbrev panel : Subscription
panel = record {
  nickname = "payments";
  endpoint_id = "local";
  thread_id = "t";
  mapping_id = "m";
  request_id = "r";
  subscription_id = "s";
}

abbrev two_events : Limits
two_events = record { max_replay_events = 2; max_replay_bytes = 2097152 }

abbrev size : ℕ → ℕ
size n = n

abbrev history : List ℕ
history = 10 ∷ 20 ∷ 300000 ∷ 40 ∷ 50 ∷ 60 ∷ []

abbrev fed : SubscriptionState ℕ
fed = record_events two_events size history (new panel (some "socket"))

-- the large third event and the two entries that were shifted out are lost to a cursor before 4
gaps :
    (replay_gap fed (some 3) ≡ true)
    × (replay_gap fed (some 4) ≡ false)
    × (replay_gap fed (some 7) ≡ true)
    × (replay_gap fed none ≡ true)
unfolding record_events record_event trim new replay_gap
gaps = (refl, refl, refl, refl)

replay_complete_example : events_after 4 fed.replay ≡ 50 ∷ 60 ∷ []
replay_complete_example = replay_complete two_events size panel (some "socket") history 4 gaps.1
