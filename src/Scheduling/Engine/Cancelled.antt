-- ===== src/Scheduling/Engine/Cancelled.antt =====
-- src/scheduling/trigger-engine.ts: a schedule that is cancelled while a pass runs.
use qiyan_bot.Prelude.{
  ◌≡◌, refl, inl, inr, String, str_eq, Bool, false, not, ◌&&◌, ◌||◌, Option, none, some, ◌⊎◌, arith,
  if◌then◌else◌, get, Bool-cases, eq_iff,
}
use qiyan_bot.Scheduling.Schedules.{ScheduleRow, id_of, is_armed, due}
use qiyan_bot.Scheduling.Engine.{World, Deps, still_armed, advance_in, tick}
use qiyan_bot.Scheduling.Engine.Process.{advance_keeps}
use qiyan_bot.Scheduling.Engine.Tick.{process_all-Keeps}

-- An observer of one schedule: whether a send for it began while it was not armed, and the row as an
-- operation left it, if one left it done or cancelled.
pub record Seen : Type 0 where
  pub sent_unarmed : Bool
  pub left : Option ScheduleRow

-- the row, if it is not armed
abbrev pub over : Option ScheduleRow → Option ScheduleRow
over none = none
over (some r) = if is_armed r.state then none else some r

abbrev pub first_of : Option ScheduleRow → Option ScheduleRow → Option ScheduleRow
first_of none known = known
first_of (some r) known = some r

over_lem :
    (o known : Option ScheduleRow) (r : ScheduleRow)
    → first_of (over o) known ≡ some r
    → ((is_armed r.state ≡ false) × (o ≡ some r)) ⊎ (known ≡ some r)
over_lem none known r h = inr h
over_lem (some q) known r h = elim (Bool-cases (is_armed q.state)) [
  | inl live ↦ inr (rw live at h)
  | inr dead ↦ inl (ground (arith, dead, h), ground (arith, dead, h))
]

module _ {S : Type 0} where
  -- the world without the observer
  abbrev pub plain : World (S × Seen) → World S
  plain w = record { rows = w.rows; stopped = w.stopped; clock = w.clock; rest = w.rest.0 }

  -- the world after an operation, with what the observer saw; an operation that leaves the schedule
  -- armed teaches it nothing
  abbrev pub observed : String → Bool → Seen → World S → World (S × Seen)
  observed j sent seen v = record {
    rows = v.rows;
    stopped = v.stopped;
    clock = v.clock;
    rest = (
      v.rest,
      record {
        sent_unarmed = seen.sent_unarmed || sent;
        left = first_of (over (get id_of j v.rows)) seen.left;
      },
    );
  }

  -- the operations, watched
  abbrev pub watched : String → Deps S → Deps (S × Seen)
  watched j deps = record {
    fire = λ row key w.
        let done = deps.fire row key (plain w) in
        let late = str_eq row.id j && not (still_armed (get id_of j w.rows)) in
        (done.0, observed j late w.rest.1 done.1);
    run_check = λ row w.
        let done = deps.run_check row (plain w) in (done.0, observed j false w.rest.1 done.1);
    render = deps.render;
  }

  -- The operations may cancel the schedule or end it, and do anything else; once it is not armed they
  -- leave it alone.
  pub record LeavesOver (j : String) (deps : Deps S) : Type 0 where
    pub firing :
        (row : ScheduleRow) (key : String) (w : World S) (r : ScheduleRow)
        → is_armed r.state ≡ false
        → get id_of j w.rows ≡ some r
        → get id_of j (deps.fire row key w).1.rows ≡ some r
    pub checking :
        (row : ScheduleRow) (w : World S) (r : ScheduleRow)
        → is_armed r.state ≡ false
        → get id_of j w.rows ≡ some r
        → get id_of j (deps.run_check row w).1.rows ≡ some r

  -- no send for the schedule began while it was not armed, and it is still as the observer saw it
  pub record Respected (j : String) (w : World (S × Seen)) : Type 0 where
    pub unsent : w.rest.1.sent_unarmed ≡ false
    pub kept :
        (r : ScheduleRow)
        → w.rest.1.left ≡ some r
        → (is_armed r.state ≡ false) × (get id_of j w.rows ≡ some r)

  observed-Respected :
      (j : String) (sent : Bool) (w : World (S × Seen)) (v : World S)
      → sent ≡ false
      → ((r : ScheduleRow)
          → is_armed r.state ≡ false
          → get id_of j w.rows ≡ some r
          → get id_of j v.rows ≡ some r)
      → Respected j w
      → Respected j (observed j sent w.rest.1 v)
  observed-Respected j sent w v none_ leaves h = record {
    unsent = ground (arith, h.unsent, none_);
    kept = λ r e. elim (over_lem (get id_of j v.rows) w.rest.1.left r e) [
      | inl now ↦ now
      | inr before ↦ ((h.kept r before).0, leaves r (h.kept r before).0 (h.kept r before).1)
    ];
  }

  -- In a pass of the engine whose operations may cancel or end this schedule at any point, for it or
  -- for other schedules, and leave it alone from then on: no send for it begins while it is done or
  -- cancelled, and it stays exactly as the operation left it that cancelled or ended it, also one of
  -- an earlier pass.
  pub tick-Respected :
      (j : String) (deps : Deps S) (w : World (S × Seen))
      → LeavesOver j deps
      → Respected j w
      → Respected j (tick (watched j deps) w)
  unfolding tick advance_in
  tick-Respected j deps w l =
      process_all-Keeps (watched j deps) (Respected j) (due w.clock w.rows) w (record {
        firing = λ row key v live h.
            observed-Respected j _ v _ (ground (arith, live, eq_iff row.id j))
              (l.firing row key (plain v)) h;
        checking = λ row v h. observed-Respected j false v _ refl (l.checking row (plain v)) h;
        writing = λ id next v h. record {
          unsent = h.unsent;
          kept = λ r e. (
            (h.kept r e).0,
            advance_keeps (watched j deps) j id next r v (h.kept r e).0 (h.kept r e).1,
          );
        };
      })
