-- ===== src/Core/BackgroundFailure/Cycles.antt =====
-- src/core/background-failure-reporter.ts: what the end of a cycle calls.
use qiyan_bot.Core.{ok, error}
use qiyan_bot.Prelude.{◌≡◌, refl, Bool, true, false, List, [], ◌∷◌, if◌then◌else◌, any, arith}
use qiyan_bot.Core.BackgroundFailure.{
  FailureCycle, Report, failed, inconclusive, Ending, calls_failed, calls_resolved, calls_nothing,
  note, finish, new_cycle,
}

unfoldable pub note_all : List Report → FailureCycle → FailureCycle
unfolding note
note_all [] c = c
note_all (r ∷ rs) c = note_all rs (note r c).1

abbrev pub is_failed : Report → Bool
is_failed failed = true
is_failed _ = false

abbrev pub is_inconclusive : Report → Bool
is_inconclusive inconclusive = true
is_inconclusive _ = false

-- the ending that the reports of a cycle call for
abbrev pub ending_of : Bool → Bool → Ending
ending_of true _ = calls_failed
ending_of false true = calls_nothing
ending_of false false = calls_resolved

noted :
    (rs : List Report) (c : FailureCycle)
    → c.finished ≡ false
    → ((note_all rs c).finished ≡ false)
      × ((note_all rs c).has_failure ≡ (if c.has_failure then true else any is_failed rs))
      × ((note_all rs c).has_inconclusive
          ≡ (if c.has_inconclusive then true else any is_inconclusive rs))
unfolding note_all note
noted [] c going = (going, ground arith, ground arith)
noted (r ∷ rs) c going =
    let rest = noted rs (note r c).1 (ground arith) in
    (ground (arith, rest), ground (arith, rest), ground (arith, rest))

-- The end of a new cycle calls `onFailed` if one of its reports was a failure, nothing if none was
-- but one was inconclusive, and `onResolved` otherwise; a second end throws and calls nothing.
finish_lem :
    (rs : List Report)
    → ((finish (note_all rs new_cycle)).0
        ≡ ok (ending_of (any is_failed rs) (any is_inconclusive rs)))
      × ((finish (finish (note_all rs new_cycle)).1).0 ≡ error)
unfolding finish
finish_lem rs = let all = noted rs new_cycle refl in (ground (arith, all), ground (arith, all))
