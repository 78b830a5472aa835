-- ===== src/Scheduling/Service/Tests.antt =====
-- Scheduled sends on concrete attempts, and their theorems at concrete inputs.
use qiyan_bot.Core.{ok, app_error, error, thread_not_found}
use qiyan_bot.Prelude.{
  ◌≤◌, ◌≡◌, refl, String, some, none, Option, List, [], ◌∷◌, get, modify, delete,
}
use qiyan_bot.Scheduling.Outbox.{claim, mark_sent, release, key_of}
use qiyan_bot.Scheduling.Schedules.{ScheduleRow, wakeup, armed}
use qiyan_bot.Scheduling.Service.{Ledger, fire, recovery_mapping_id}
use qiyan_bot.Scheduling.Service.AtMostOnce.{Attempt, dispatched_for, fire_all, fire_all_once}

abbrev reminder : ScheduleRow
reminder = record {
  id = "s1";
  nickname = "payments";
  endpoint_id = "local";
  thread_id = "t";
  kind = wakeup;
  spec = "1000";
  message = "check the build";
  state = armed;
  next_fire_at = some 1000;
  interval_ms = none;
  created_at = 1;
}

abbrev restart : ScheduleRow
restart = record reminder { spec = "runtime-recovery:map-1" }

mapping_read : (recovery_mapping_id restart ≡ some "map-1") × (recovery_mapping_id reminder ≡ none)
unfolding recovery_mapping_id
mapping_read = (refl, refl)

abbrev nobody : ScheduleRow → String → Option String
nobody row mapping_id = none

abbrev empty : Ledger
empty = record { outbox = []; sends = [] }

-- the first send provably failed and is released, the second is ambiguous and counts as sent
abbrev attempts : List Attempt
attempts =
    record { row = reminder; key = "s1:1000"; now = 1000; outcome = app_error thread_not_found }
    ∷ record { row = reminder; key = "s1:1000"; now = 2000; outcome = error }
    ∷ record { row = reminder; key = "s1:1000"; now = 900000; outcome = ok tt }
    ∷ []

nothing_claimed : get key_of "s1:1000" empty.outbox ≡ none
unfolding get
nothing_claimed = refl

two_sends : dispatched_for "s1:1000" (fire_all 120000 nobody attempts empty).sends ≡ 1
unfolding fire_all fire recovery_mapping_id claim mark_sent release get modify delete
two_sends = refl

fire_all_once_example : dispatched_for "s1:1000" (fire_all 120000 nobody attempts empty).sends ≤ 1
fire_all_once_example = fire_all_once 120000 nobody "s1:1000" attempts empty nothing_claimed
