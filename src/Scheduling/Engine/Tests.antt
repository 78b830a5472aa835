-- ===== src/Scheduling/Engine/Tests.antt =====
-- The engine on a concrete table, and its theorems at concrete inputs.
use qiyan_bot.Core.{ok, error}
use qiyan_bot.Prelude.{
  ℕ, suc, ◌≡◌, refl, false, some, none, [], ◌∷◌, get, modify, get-modify, sort_by, arith,
}
use qiyan_bot.Scheduling.Schedules.{
  ScheduleRow, wakeup, cron, monitor, armed, done, cancelled, id_of, is_armed, advance, due,
}
use qiyan_bot.Scheduling.Engine.{
  World, Deps, process_all, process, fire_row, fire_key, advance_in, interval, tick,
}
use qiyan_bot.Scheduling.Engine.Process.{IsCalm}
use qiyan_bot.Scheduling.Engine.Cancelled.{Seen, watched, LeavesOver, Respected, tick-Respected}

abbrev wake : ScheduleRow
wake = record {
  id = "wake";
  nickname = "payments";
  endpoint_id = "local";
  thread_id = "t";
  kind = wakeup;
  spec = "1000";
  message = "check the build";
  state = armed;
  next_fire_at = some 1000;
  interval_ms = none;
  created_at = 1;
}

abbrev daily : ScheduleRow
daily = record wake { id = "daily"; kind = cron; interval_ms = some 86400000 }

abbrev watch : ScheduleRow
watch = record wake { id = "watch"; kind = monitor }

abbrev dropped : ScheduleRow
dropped = record wake { id = "dropped"; state = cancelled }

abbrev world : World ℕ
world = record {
  rows = wake ∷ daily ∷ watch ∷ dropped ∷ [];
  stopped = false;
  clock = 5000;
  rest = 0;
}

-- every send succeeds and is counted; no check passes
abbrev deps : Deps ℕ
deps = record {
  fire = λ row key w. (ok tt, record w { rest = suc w.rest });
  run_check = λ row w. (ok false, w);
  render = λ n. "n";
}

calm : IsCalm deps
calm = record {
  fires = λ row key w. refl;
  fire_rows = λ row key w. refl;
  fire_clock = λ row key w. refl;
  fire_going = λ row key w. refl;
  answers = λ row w. false;
  checks = λ row w. refl;
  check_rows = λ row w. refl;
  check_clock = λ row w. refl;
  check_going = λ row w. refl;
}

tick_run : tick deps world ≡ record world {
  rows =
      record wake { state = done; next_fire_at = none }
      ∷ record daily { next_fire_at = some 86405000 }
      ∷ record watch { next_fire_at = some 6000 }
      ∷ dropped
      ∷ [];
  rest = 2;
}
unfolding tick process_all process fire_row fire_key advance_in interval advance due sort_by get
    modify
tick_run = refl

-- each send cancels the monitor
abbrev cancelling : Deps ℕ
cancelling = record deps {
  fire = λ row key w. (
    ok tt,
    record w {
      rows =
          modify id_of "watch" (λ r. is_armed r.state) (λ r. record r { state = cancelled }) w.rows;
    },
  );
}

cancelling-LeavesOver : LeavesOver "watch" cancelling
cancelling-LeavesOver = record {
  firing = λ row key w r a h. ground (
    arith,
    a,
    h,
    get-modify id_of "watch" "watch" (λ r. is_armed r.state) (λ r. record r { state = cancelled })
        w.rows (λ r. refl),
  );
  checking = λ row w r a h. h;
}

abbrev observed_world : World (ℕ × Seen)
observed_world = record {
  rows = world.rows;
  stopped = false;
  clock = world.clock;
  rest = (0, record { sent_unarmed = false; left = none });
}

-- the monitor was due, and the wakeup's send before it cancelled it
cancelled_midway :
    (tick (watched "watch" cancelling) observed_world).rest.1
    ≡ record { sent_unarmed = false; left = some (record watch { state = cancelled }) }
unfolding tick process_all process fire_row fire_key advance_in interval advance due sort_by get
    modify
cancelled_midway = refl

tick-Respected_example : Respected "watch" (tick (watched "watch" cancelling) observed_world)
tick-Respected_example =
    tick-Respected "watch" cancelling observed_world cancelling-LeavesOver
      (record { unsent = refl; kept = λ r e. absurd (ground (arith, e)) })

abbrev failing : Deps ℕ
failing = record deps { fire = λ row key w. (error, record w { rest = suc w.rest }) }
