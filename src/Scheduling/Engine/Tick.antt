-- ===== src/Scheduling/Engine/Tick.antt =====
-- src/scheduling/trigger-engine.ts: a whole pass of the engine.
use qiyan_bot.Prelude.{
  ℕ, ◌≡◌, refl, inl, inr, ap, ◌∙◌, String, str_eq, true, false, List, [], ◌∷◌, arith, if◌then◌else◌,
  any, Bool-cases,
}
use qiyan_bot.Scheduling.Schedules.{ScheduleRow, due}
use qiyan_bot.Scheduling.Schedules.Due.{due_now, any-due}
use qiyan_bot.Scheduling.Engine.{World, Deps, process, process_all, tick}
use qiyan_bot.Scheduling.Engine.Process.{
  Keeps, process-Keeps, IsCalm, due_now-process, clock-process, stopped-process,
}

module _ {S : Type 0} (deps : Deps S) where
  process_all-cons :
      (row : ScheduleRow) (rows : List ScheduleRow) (w : World S)
      → w.stopped ≡ false
      → process_all deps (row ∷ rows) w ≡ process_all deps rows (process deps row w).1
  unfolding process_all
  process_all-cons row rows w h = ground arith

  process_all_stopped :
      (rows : List ScheduleRow) (w : World S) → w.stopped ≡ true → process_all deps rows w ≡ w
  unfolding process_all
  process_all_stopped [] w h = refl
  process_all_stopped (row ∷ rows) w h = ground arith

  pub process_all-Keeps :
      (Inv : World S → Type 0) (rows : List ScheduleRow) (w : World S)
      → Keeps deps Inv
      → Inv w
      → Inv (process_all deps rows w)
  process_all-Keeps Inv [] w k h = unfold process_all in h
  process_all-Keeps Inv (row ∷ rows) w k h = elim (Bool-cases w.stopped) [
    | inl halted ↦ rw (process_all_stopped (row ∷ rows) w halted) h
    | inr going ↦
        rw (process_all-cons row rows w going)
          (process_all-Keeps Inv rows (process deps row w).1 k (process-Keeps deps Inv k row w h))
  ]

  process_all_clears :
      (now : ℕ) (j : String) (rows : List ScheduleRow) (w : World S)
      → IsCalm deps
      → w.clock ≡ now
      → w.stopped ≡ false
      → due_now now j (process_all deps rows w).rows
        ≡ (if any (λ r. str_eq r.id j) rows then false else due_now now j w.rows)
  process_all_clears now j [] w c t s = unfold process_all in refl
  process_all_clears now j (row ∷ rows) w c t s = rw (process_all-cons row rows w s) (
      process_all_clears now j rows (process deps row w).1 c (clock-process deps row w c ∙ t)
        (stopped-process deps row w c ∙ s)
      ∙ ground (
        arith,
        ap (λ n. due_now n j (process deps row w).1.rows) t,
        ap (λ n. due_now n j w.rows) t,
        due_now-process deps row j w c,
      ))

  -- After a pass in which every check and every send succeeds and nobody else writes, no schedule
  -- is due any more at the time of the pass: those that fired are done or moved to a later time, and
  -- so are the monitors whose check did not pass.
  tick_clears :
      (j : String) (w : World S)
      → IsCalm deps
      → w.stopped ≡ false
      → due_now w.clock j (tick deps w).rows ≡ false
  unfolding tick
  tick_clears j w c s = elim (Bool-cases (due_now w.clock j w.rows)) [
    | inl was ↦
        process_all_clears w.clock j (due w.clock w.rows) w c refl s
        ∙ ground (arith, any-due w.clock j w.rows was)
    | inr never ↦ process_all_clears w.clock j (due w.clock w.rows) w c refl s ∙ ground arith
  ]
