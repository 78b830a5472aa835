-- ===== src/Scheduling/Engine.antt =====
-- src/scheduling/trigger-engine.ts: one pass over the due schedules.
-- The engine awaits the monitor's check and the send, and while it waits others may write the
-- schedule table and stop the engine. So both operations are functions on the world, which holds
-- the table, the stop flag and all else. `withTimeout` is part of how they end: an operation that
-- timed out ends with an error. The rendering of a number in a template string is a parameter.
pub mod Process
pub mod Tick
pub mod Cancelled
mod Tests
use Prim.Native.String.{◌++◌ as str_append}
use qiyan_bot.Core.{Result, ok, app_error, error}
use qiyan_bot.Prelude.{
  ℕ, ◌+◌, String, Bool, true, false, Option, none, some, List, [], ◌∷◌, if◌then◌else◌, or_else, max,
  get,
}
use qiyan_bot.Scheduling.Schedules.{
  ScheduleRow, ScheduleKind, wakeup, cron, monitor, id_of, is_armed, due, advance,
}

pub record World (S : Type 0) : Type 0 where
  pub rows : List ScheduleRow
  pub stopped : Bool
  pub clock : ℕ
  pub rest : S

pub record Deps (S : Type 0) : Type 0 where
  pub fire : ScheduleRow → String → World S → Result (Unit {0}) × World S
  pub run_check : ScheduleRow → World S → Result Bool × World S
  pub render : ℕ → String

abbrev pub default_poll_ms : ℕ
default_poll_ms = 1000

abbrev pub min_interval_ms : ℕ
min_interval_ms = 1000

unfoldable pub interval : ScheduleRow → ℕ
interval row = max min_interval_ms (or_else row.interval_ms default_poll_ms)

abbrev pub still_armed : Option ScheduleRow → Bool
still_armed none = false
still_armed (some r) = is_armed r.state

abbrev pub is_monitor : ScheduleKind → Bool
is_monitor monitor = true
is_monitor _ = false

abbrev pub is_cron : ScheduleKind → Bool
is_cron cron = true
is_cron _ = false

module _ {S : Type 0} (deps : Deps S) where
  -- the store's write, on the world
  unfoldable pub advance_in : String → Option ℕ → World S → World S
  advance_in id next w = record w { rows = advance id next w.rows }

  unfoldable pub fire_key : ScheduleRow → ℕ → String
  fire_key row now = str_append row.id (str_append ":" (deps.render (or_else row.next_fire_at now)))

  fired : ScheduleRow → ℕ → Result (Unit {0}) → World S → Result (Unit {0}) × World S
  fired row now (ok done) w =
      (ok tt, advance_in row.id (if is_cron row.kind then some (now + interval row) else none) w)
  fired row now (app_error code) w = (app_error code, w)
  fired row now error w = (error, w)

  -- from the computation of the key on: the row is advanced only after the send resolved
  unfoldable pub fire_row : ScheduleRow → ℕ → World S → Result (Unit {0}) × World S
  unfolding fired
  fire_row row now w =
      let (outcome, w') = deps.fire row (fire_key row now) w in fired row now outcome w'

  checked : ScheduleRow → ℕ → Result Bool → World S → Result (Unit {0}) × World S
  unfolding fire_row
  checked row now (ok true) w =
      if still_armed (get id_of row.id w.rows) then fire_row row now w else (ok tt, w)
  checked row now (ok false) w = (ok tt, advance_in row.id (some (now + interval row)) w)
  checked row now (app_error code) w = (app_error code, w)
  checked row now error w = (error, w)

  -- the check of a monitor, which its answer decides
  unfoldable pub check_row : ScheduleRow → ℕ → World S → Result (Unit {0}) × World S
  unfolding checked
  check_row row now w = let (outcome, w') = deps.run_check row w in checked row now outcome w'

  unfoldable pub process : ScheduleRow → World S → Result (Unit {0}) × World S
  unfolding check_row fire_row
  process row w =
      if still_armed (get id_of row.id w.rows)
      then (if is_monitor row.kind then check_row row w.clock w else fire_row row w.clock w)
      else (ok tt, w)

  -- the loop of `tick` over the rows that were due: an error is reported and the next row is taken
  unfoldable pub process_all : List ScheduleRow → World S → World S
  process_all [] w = w
  process_all (row ∷ rows) w =
      let rest = process_all rows (process row w).1 in if w.stopped then w else rest

  unfoldable pub tick : World S → World S
  tick w = process_all (due w.clock w.rows) w
