-- ===== src/Core/BackgroundFailure/Tests.antt =====
-- The failure reporter on concrete reports, and its theorems at concrete inputs.
use qiyan_bot.Prelude.{◌≤◌, ◌≡◌, refl, true, false, some, List, [], ◌∷◌, get, put}
use qiyan_bot.Core.BackgroundFailure.{new, report, notify, Report, succeeded, failed, inconclusive}
use qiyan_bot.Core.BackgroundFailure.Episodes.{Call, reports, run, notices_of, notified_once}

-- the first notice is due at the second report, and is refused
abbrev calls : List Call
calls =
    reports "poll" (some "e") (some 2) true
    ∷ reports "poll" (some "e") (some 2) false
    ∷ reports "poll" (some "e") (some 2) true
    ∷ reports "poll" (some "e") (some 2) true
    ∷ []

one_notice : notices_of "e" (run calls new) ≡ 1
unfolding run report notify get put
one_notice = refl

notified_once_example : notices_of "e" (run calls new) ≤ 1
notified_once_example = notified_once "e" calls new refl refl tt

abbrev pass : List Report
pass = succeeded ∷ inconclusive ∷ failed ∷ []
