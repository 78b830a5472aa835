-- ===== src/Core/BackgroundFailure.antt =====
-- src/core/background-failure-reporter.ts: the reports of failures that recur, and the cycle that
-- counts the outcomes of one background pass. Whether `onDurable` accepts a notice is an argument.
-- The notice's identifier is its incident number in a text; the log also keeps the episode.
pub mod Episodes
pub mod Cycles
mod Tests
use qiyan_bot.Core.{Result, ok, error}
use qiyan_bot.Prelude.{
  ℕ, ◌+◌, suc, String, str_eq, Bool, true, false, not, ◌&&◌, ◌||◌, Option, none, some, List, [],
  ◌∷◌, ◌++◌, if◌then◌else◌, ◌==◌, leb, ltb, get, put, delete, or_else,
}

pub record EpisodeState : Type 0 where
  pub episode : String
  pub label : String
  pub notify_after : ℕ
  pub attempts : ℕ
  pub notified : Bool

pub record Notice : Type 0 where
  pub notice_label : String
  pub incident_number : ℕ
  pub cause : Option String

pub record Reporter : Type 0 where
  pub episodes : List EpisodeState
  pub incident : ℕ
  pub notices : List Notice
  pub operational : List String

abbrev pub episode_of : EpisodeState → String
episode_of e = e.episode

abbrev pub new : Reporter
new = record { episodes = []; incident = 0; notices = []; operational = [] }

-- `notify`; the flag of the episode is set by the caller, where the notice was accepted
unfoldable pub notify : String → Option String → Bool → Reporter → Reporter
notify label cause accepted s =
    let incident = suc s.incident in
    if accepted
    then record s {
      incident = incident;
      notices =
          s.notices
          ++ record { notice_label = label; incident_number = incident; cause = cause } ∷ [];
    }
    else record s { incident = incident }

-- a report for an episode whose state is `e`
unfoldable pub report_attempt : EpisodeState → Bool → Reporter → Reporter
unfolding notify
report_attempt e accepted s =
    let counted = record e { attempts = suc e.attempts } in
    let told = notify e.label (some e.episode) accepted s in
    if not e.notified && leb e.notify_after counted.attempts
    then record told {
      episodes = put episode_of (record counted { notified = accepted }) s.episodes;
    }
    else record s { episodes = put episode_of counted s.episodes }

unfoldable pub report_episode :
    Option EpisodeState → String → String → ℕ → Bool → Reporter → Result (Unit {0}) × Reporter
unfolding report_attempt
report_episode none label episode notify_after accepted s =
    let e : EpisodeState = record {
      episode = episode;
      label = label;
      notify_after = notify_after;
      attempts = 0;
      notified = false;
    } in
    (ok tt, report_attempt e accepted s)
report_episode (some e) label episode notify_after accepted s =
    if not (str_eq e.label label) || not (e.notify_after == notify_after)
    then (error, s)
    else (ok tt, report_attempt e accepted s)

-- an empty episode is as good as none
unfoldable pub report_for :
    Option String → String → ℕ → Bool → Reporter → Result (Unit {0}) × Reporter
unfolding notify report_episode
report_for none label notify_after accepted s = (ok tt, notify label none accepted s)
report_for (some episode) label notify_after accepted s =
    if str_eq episode ""
    then (ok tt, notify label none accepted s)
    else report_episode (get episode_of episode s.episodes) label episode notify_after accepted s

unfoldable pub report :
    String → Option String → Option ℕ → Bool → Reporter → Result (Unit {0}) × Reporter
unfolding report_for
report label episode notify_after accepted s =
    let threshold = or_else notify_after 1 in
    if ltb threshold 1
    then (error, s)
    else report_for episode label threshold accepted
        (record s { operational = s.operational ++ label ∷ [] })

unfoldable pub resolve : String → Reporter → Reporter
resolve episode s = record s { episodes = delete episode_of episode (λ _. true) s.episodes }

pub record FailureCycle : Type 0 where
  pub has_failure : Bool
  pub has_inconclusive : Bool
  pub finished : Bool

pub data Ending : Type 0 where
  calls_failed calls_resolved calls_nothing : Ending

abbrev pub new_cycle : FailureCycle
new_cycle = record { has_failure = false; has_inconclusive = false; finished = false }

-- `succeeded`, `failed` and `inconclusive`
pub data Report : Type 0 where
  succeeded failed inconclusive : Report

abbrev pub mark : Report → FailureCycle → FailureCycle
mark succeeded c = c
mark failed c = record c { has_failure = true }
mark inconclusive c = record c { has_inconclusive = true }

unfoldable pub note : Report → FailureCycle → Result (Unit {0}) × FailureCycle
note r c = if c.finished then (error, c) else (ok tt, mark r c)

unfoldable pub finish : FailureCycle → Result Ending × FailureCycle
finish c = if c.finished then (error, c) else (
  ok (
      if c.has_failure
      then calls_failed
      else if not c.has_inconclusive
      then calls_resolved
      else calls_nothing),
  record c { finished = true },
)
