-- ===== src/Scheduling/Engine/Process.antt =====
-- src/scheduling/trigger-engine.ts: `process`, for any operations and for ones that succeed.
use qiyan_bot.Core.{Result, ok, app_error, error}
use qiyan_bot.Prelude.{
  ℕ, suc, ◌+◌, ◌≡◌, refl, ◌≢◌, ◌⊎◌, inl, inr, ap, ◌∙◌, String, str_eq, Bool, true, false, Option,
  none, some, arith, if◌then◌else◌, leb, or_else, get, Bool-cases, eq_iff,
}
use qiyan_bot.Scheduling.Schedules.{ScheduleRow, id_of, is_armed, advance}
use qiyan_bot.Scheduling.Schedules.Due.{due_now, due_now-advance, get-advance}
use qiyan_bot.Scheduling.Engine.{
  World, Deps, interval, still_armed, is_monitor, is_cron, advance_in, fire_key, fired, fire_row,
  checked, check_row, process,
}

module _ {S : Type 0} (deps : Deps S) where
  pub advance_keeps :
      (j id : String) (next : Option ℕ) (r : ScheduleRow) (w : World S)
      → is_armed r.state ≡ false
      → get id_of j w.rows ≡ some r
      → get id_of j (advance_in deps id next w).rows ≡ some r
  unfolding advance_in
  advance_keeps j id next r w a h = ground (arith, eq_iff id j, get-advance j id next w.rows)

  -- What holds of the world between the engine's own writes: the operations keep it, a send where
  -- its row is armed as it begins, and so does the store's write.
  pub record Keeps (Inv : World S → Type 0) : Type 0 where
    pub firing :
        (row : ScheduleRow) (key : String) (w : World S)
        → still_armed (get id_of row.id w.rows) ≡ true
        → Inv w
        → Inv (deps.fire row key w).1
    pub checking : (row : ScheduleRow) (w : World S) → Inv w → Inv (deps.run_check row w).1
    pub writing :
        (id : String) (next : Option ℕ) (w : World S) → Inv w → Inv (advance_in deps id next w)

  module _ (Inv : World S → Type 0) (k : Keeps Inv) where
    fired-Keeps :
        (row : ScheduleRow) (now : ℕ) (outcome : Result (Unit {0})) (w : World S)
        → Inv w
        → Inv (fired deps row now outcome w).1
    unfolding fired
    fired-Keeps row now (ok u) w h =
        k.writing row.id (if is_cron row.kind then some (now + interval row) else none) w h
    fired-Keeps row now (app_error code) w h = h
    fired-Keeps row now error w h = h

    fire_row-Keeps :
        (row : ScheduleRow) (now : ℕ) (w : World S)
        → still_armed (get id_of row.id w.rows) ≡ true
        → Inv w
        → Inv (fire_row deps row now w).1
    unfolding fire_row
    fire_row-Keeps row now w live h =
        fired-Keeps row now (deps.fire row (fire_key deps row now) w).0
          (deps.fire row (fire_key deps row now) w).1
          (k.firing row (fire_key deps row now) w live h)

    checked-Keeps :
        (row : ScheduleRow) (now : ℕ) (outcome : Result Bool) (w : World S)
        → Inv w
        → Inv (checked deps row now outcome w).1
    unfolding checked
    checked-Keeps row now (ok true) w h =
        elim (Bool-cases (still_armed (get id_of row.id w.rows))) [
          | inl live ↦ rw live (fire_row-Keeps row now w live h)
          | inr dead ↦ rw dead h
        ]
    checked-Keeps row now (ok false) w h = k.writing row.id (some (now + interval row)) w h
    checked-Keeps row now (app_error code) w h = h
    checked-Keeps row now error w h = h

    pub process-Keeps : (row : ScheduleRow) (w : World S) → Inv w → Inv (process deps row w).1
    unfolding process check_row
    process-Keeps row w h = elim (Bool-cases (still_armed (get id_of row.id w.rows))) [
      | inr dead ↦ rw dead h
      | inl live ↦ rw live (elim (Bool-cases (is_monitor row.kind)) [
        | inl polls ↦ rw polls (
            checked-Keeps row w.clock (deps.run_check row w).0 (deps.run_check row w).1
              (k.checking row w h))
        | inr plain ↦ rw plain (fire_row-Keeps row w.clock w live h)
      ])
    ]

  -- A send that fails writes nothing: whatever the monitor's check answered, when the send of an
  -- armed row ends with an error, the table is as the send left it, and the error is passed on.
  fire_row_failed :
      (row : ScheduleRow) (now : ℕ) (w : World S)
      → (deps.fire row (fire_key deps row now) w).0 ≢ ok tt
      → (fire_row deps row now w).1 ≡ (deps.fire row (fire_key deps row now) w).1
  unfolding fire_row
  fire_row_failed row now w h = unwritten _ _ h
    where
      unwritten :
          (outcome : Result (Unit {0})) (w' : World S)
          → outcome ≢ ok tt
          → (fired deps row now outcome w').1 ≡ w'
      unwritten (ok tt_) w' h = absurd (h refl)
      unwritten (app_error code) w' h = refl
      unwritten error w' h = refl

  -- The operations succeed, and leave the table, the clock and the stop flag alone.
  pub record IsCalm : Type 0 where
    pub fires : (row : ScheduleRow) (key : String) (w : World S) → (deps.fire row key w).0 ≡ ok tt
    pub fire_rows :
        (row : ScheduleRow) (key : String) (w : World S) → (deps.fire row key w).1.rows ≡ w.rows
    pub fire_clock :
        (row : ScheduleRow) (key : String) (w : World S) → (deps.fire row key w).1.clock ≡ w.clock
    pub fire_going :
        (row : ScheduleRow) (key : String) (w : World S)
        → (deps.fire row key w).1.stopped ≡ w.stopped
    pub answers : ScheduleRow → World S → Bool
    pub checks : (row : ScheduleRow) (w : World S) → (deps.run_check row w).0 ≡ ok (answers row w)
    pub check_rows : (row : ScheduleRow) (w : World S) → (deps.run_check row w).1.rows ≡ w.rows
    pub check_clock : (row : ScheduleRow) (w : World S) → (deps.run_check row w).1.clock ≡ w.clock
    pub check_going :
        (row : ScheduleRow) (w : World S) → (deps.run_check row w).1.stopped ≡ w.stopped

  -- what a successful pass over one row makes of the world
  record Passed (row : ScheduleRow) (now : ℕ) (w v : World S) : Type 0 where
    same_clock : v.clock ≡ w.clock
    same_flag : v.stopped ≡ w.stopped
    rows_cases :
        ((still_armed (get id_of row.id w.rows) ≡ false) × (v.rows ≡ w.rows))
        ⊎ ((next : Option ℕ) × (leb (or_else next (suc now)) now ≡ false)
            × (v.rows ≡ advance row.id next w.rows))

  later : (row : ScheduleRow) (now : ℕ) → leb (now + interval row) now ≡ false
  unfolding interval
  later row now = ground arith

  next_time : ScheduleRow → ℕ → Option ℕ
  next_time row now = if is_cron row.kind then some (now + interval row) else none

  next_time_later :
      (row : ScheduleRow) (now : ℕ) → leb (or_else (next_time row now) (suc now)) now ≡ false
  unfolding next_time
  next_time_later row now = ground (arith, later row now)

  fired-Passed :
      (row : ScheduleRow) (now : ℕ) (outcome : Result (Unit {0})) (w v : World S)
      → outcome ≡ ok tt
      → v.rows ≡ w.rows
      → v.clock ≡ w.clock
      → v.stopped ≡ w.stopped
      → Passed row now w (fired deps row now outcome v).1
  unfolding fired advance_in next_time
  fired-Passed row now (ok u) w v e r c s = record {
    same_clock = c;
    same_flag = s;
    rows_cases =
        inr (next_time row now, next_time_later row now, ap (advance row.id (next_time row now)) r);
  }
  fired-Passed row now (app_error code) w v e r c s = cc
  fired-Passed row now error w v e r c s = cc

  fire_row-Passed :
      (row : ScheduleRow) (now : ℕ) (w v : World S)
      → IsCalm
      → v.rows ≡ w.rows
      → v.clock ≡ w.clock
      → v.stopped ≡ w.stopped
      → Passed row now w (fire_row deps row now v).1
  unfolding fire_row
  fire_row-Passed row now w v c r t s =
      fired-Passed row now _ w _ (c.fires row (fire_key deps row now) v)
        (c.fire_rows row (fire_key deps row now) v ∙ r)
        (c.fire_clock row (fire_key deps row now) v ∙ t)
        (c.fire_going row (fire_key deps row now) v ∙ s)

  checked-Passed :
      (row : ScheduleRow) (now : ℕ) (b : Bool) (w v : World S)
      → IsCalm
      → v.rows ≡ w.rows
      → v.clock ≡ w.clock
      → v.stopped ≡ w.stopped
      → Passed row now w (checked deps row now (ok b) v).1
  unfolding checked advance_in
  checked-Passed row now true w v c r t s =
      elim (Bool-cases (still_armed (get id_of row.id v.rows))) [
        | inl live ↦ rw live (fire_row-Passed row now w v c r t s)
        | inr dead ↦
            rw dead (record { same_clock = t; same_flag = s; rows_cases = inl (rw r at dead, r) })
      ]
  checked-Passed row now false w v c r t s = record {
    same_clock = t;
    same_flag = s;
    rows_cases = inr (
      some (now + interval row),
      later row now,
      ap (advance row.id (some (now + interval row))) r,
    );
  }

  process-Passed :
      (row : ScheduleRow) (w : World S) → IsCalm → Passed row w.clock w (process deps row w).1
  unfolding process check_row
  process-Passed row w c = elim (Bool-cases (still_armed (get id_of row.id w.rows))) [
    | inr dead ↦
        rw dead (record { same_clock = refl; same_flag = refl; rows_cases = inl (dead, refl) })
    | inl live ↦ rw live (elim (Bool-cases (is_monitor row.kind)) [
      | inr plain ↦ rw plain (fire_row-Passed row w.clock w w c refl refl refl)
      | inl polls ↦
          rw (polls, c.checks row w)
            (checked-Passed row w.clock (c.answers row w) w _ c (c.check_rows row w)
              (c.check_clock row w) (c.check_going row w))
    ])
  ]

  -- A pass over a row leaves that row not due at the time of the pass, and makes no other due.
  pub due_now-process :
      (row : ScheduleRow) (j : String) (w : World S)
      → IsCalm
      → due_now w.clock j (process deps row w).1.rows
        ≡ (if str_eq row.id j then false else due_now w.clock j w.rows)
  due_now-process row j w c = elim (process-Passed row w c).rows_cases [
    | inl (dead, same) ↦ rw same (ground (arith, dead, eq_iff row.id j))
    | inr (next, future, moved) ↦ rw moved (due_now-advance w.clock j row.id next w.rows future)
  ]

  pub clock-process :
      (row : ScheduleRow) (w : World S) → IsCalm → (process deps row w).1.clock ≡ w.clock
  clock-process row w c = (process-Passed row w c).same_clock

  pub stopped-process :
      (row : ScheduleRow) (w : World S) → IsCalm → (process deps row w).1.stopped ≡ w.stopped
  stopped-process row w c = (process-Passed row w c).same_flag
