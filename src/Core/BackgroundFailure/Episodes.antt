-- ===== src/Core/BackgroundFailure/Episodes.antt =====
-- src/core/background-failure-reporter.ts: how often an episode is notified.
use qiyan_bot.Prelude.{
  ℕ, ◌≤◌, suc, ◌≡◌, ◌≢◌, refl, inl, inr, String, str_eq, Bool, true, false, not, ◌||◌, Option, none,
  some, List, [], ◌∷◌, ◌++◌, if◌then◌else◌, ◌==◌, ltb, get, get-put, key-get, get-delete_all,
  or_else, arith, eq_iff, count, count-append, Bool-cases,
}
use qiyan_bot.Core.BackgroundFailure.{
  Reporter, EpisodeState, episode_of, notify, report_attempt, report_episode, report_for, report,
  resolve,
}

-- a call of the reporter, with whether its notice would be accepted
pub data Call : Type 0 where
  reports : String → Option String → Option ℕ → Bool → Call
  resolves : String → Call

unfoldable pub run : List Call → Reporter → Reporter
unfolding report resolve
run [] s = s
run (reports label episode notify_after accepted ∷ calls) s =
    run calls (report label episode notify_after accepted s).1
run (resolves episode ∷ calls) s = run calls (resolve episode s)

abbrev pub LeavesOpen : String → List Call → Type 0
LeavesOpen episode [] = Unit
LeavesOpen episode (reports label cause notify_after accepted ∷ calls) = LeavesOpen episode calls
LeavesOpen episode (resolves other ∷ calls) = (other ≢ episode) × LeavesOpen episode calls

abbrev pub is_about : String → Option String → Bool
is_about episode none = false
is_about episode (some cause) = str_eq cause episode

-- the notices that were accepted for the episode
abbrev pub notices_of : String → Reporter → ℕ
notices_of episode s = count (λ n. is_about episode n.cause) s.notices

abbrev flagged : Option EpisodeState → Bool
flagged none = false
flagged (some e) = e.notified

-- one notice, with the flag set, or none
Told : String → Reporter → Type 0
Told episode s =
    notices_of episode s ≡ (if flagged (get episode_of episode s.episodes) then 1 else 0)

module _ (episode : String) where
  Told-notify :
      (label : String) (accepted : Bool) (s : Reporter)
      → Told episode s
      → Told episode (notify label none accepted s)
  unfolding Told notify
  Told-notify label accepted s h = ground (
    arith,
    count-append (λ n. is_about episode n.cause)
        (record { notice_label = label; incident_number = suc s.incident; cause = none }) s.notices,
  )

  Told-attempt :
      (e : EpisodeState) (accepted : Bool) (s : Reporter)
      → (str_eq e.episode episode ≡ true → flagged (get episode_of episode s.episodes) ≡ e.notified)
      → Told episode s
      → Told episode (report_attempt e accepted s)
  unfolding Told report_attempt notify
  Told-attempt e accepted s same h = ground (
    arith,
    get-put episode_of episode (record e { attempts = suc e.attempts; notified = accepted })
        s.episodes,
    get-put episode_of episode (record e { attempts = suc e.attempts }) s.episodes,
    count-append (λ n. is_about episode n.cause)
        (record {
          notice_label = e.label;
          incident_number = suc s.incident;
          cause = some e.episode;
        })
        s.notices,
  )

  Told-report_episode :
      (o : Option EpisodeState) (label other : String) (n : ℕ) (accepted : Bool) (s : Reporter)
      → get episode_of other s.episodes ≡ o
      → Told episode s
      → Told episode (report_episode o label other n accepted s).1
  unfolding report_episode
  Told-report_episode none label other n accepted s found h =
      Told-attempt
        (record {
          episode = other;
          label = label;
          notify_after = n;
          attempts = 0;
          notified = false;
        })
        accepted s (λ same. ground (arith, eq_iff other episode)) h
  Told-report_episode (some e) label other n accepted s found h =
      let next =
        Told-attempt e accepted s
          (λ same.
            ground (arith, eq_iff e.episode episode, key-get episode_of other e s.episodes found))
          h in
      elim (Bool-cases (not (str_eq e.label label) || not (e.notify_after == n))) [
        | inl changed ↦ rw changed h
        | inr same ↦ rw same next
      ]

  Told-report_for :
      (cause : Option String) (label : String) (n : ℕ) (accepted : Bool) (s : Reporter)
      → Told episode s
      → Told episode (report_for cause label n accepted s).1
  unfolding report_for
  Told-report_for none label n accepted s h = Told-notify label accepted s h
  Told-report_for (some other) label n accepted s h = elim (Bool-cases (str_eq other "")) [
    | inl empty ↦ rw empty (Told-notify label accepted s h)
    | inr given ↦
        rw given
          (Told-report_episode (get episode_of other s.episodes) label other n accepted s refl h)
  ]

  Told-operational :
      (labels : List String) (s : Reporter)
      → Told episode s
      → Told episode (record s { operational = labels })
  unfolding Told
  Told-operational labels s h = h

  Told-report :
      (label : String) (cause : Option String) (n : Option ℕ) (accepted : Bool) (s : Reporter)
      → Told episode s
      → Told episode (report label cause n accepted s).1
  unfolding report
  Told-report label cause n accepted s h = elim (Bool-cases (ltb (or_else n 1) 1)) [
    | inl bad ↦ rw bad h
    | inr good ↦ rw good (
        Told-report_for cause label (or_else n 1) accepted
          (record s { operational = s.operational ++ label ∷ [] })
          (Told-operational (s.operational ++ label ∷ []) s h))
  ]

  Told-resolve :
      (other : String) (s : Reporter)
      → other ≢ episode
      → Told episode s
      → Told episode (resolve other s)
  unfolding Told resolve
  Told-resolve other s d h =
      ground (arith, eq_iff other episode, get-delete_all episode_of episode other s.episodes)

  Told-run :
      (calls : List Call) (s : Reporter)
      → LeavesOpen episode calls
      → Told episode s
      → Told episode (run calls s)
  unfolding run
  Told-run [] s o h = h
  Told-run (reports label cause n accepted ∷ calls) s o h =
      Told-run calls (report label cause n accepted s).1 o (Told-report label cause n accepted s h)
  Told-run (resolves other ∷ calls) s o h =
      Told-run calls (resolve other s) o.1 (Told-resolve other s o.0 h)

-- From a new reporter on, until the episode is resolved, at most one notice about it is accepted,
-- however often it is reported, whatever the thresholds, and whichever notices are refused.
pub notified_once :
    (episode : String) (calls : List Call) (s : Reporter)
    → s.episodes ≡ []
    → notices_of episode s ≡ 0
    → LeavesOpen episode calls
    → notices_of episode (run calls s) ≤ 1
unfolding Told
notified_once episode calls s empty silent leaves =
    ground (arith, Told-run episode calls s leaves fresh)
  where
    fresh : Told episode s
    fresh = unfold get in ground (arith, empty)
