-- ===== src/Scheduling/Service.antt =====
-- src/scheduling/scheduling-service.ts: `fire`, which sends one scheduled message at most once, and
-- the wakeups that bring a worker back after its runtime restarted. How the session's mapping is
-- resolved and how `send` ends are arguments; the sends that were made are a log.
pub mod AtMostOnce
pub mod Recovery
mod Tests
use text.Mathlib.Text.{starts_with, get?}
use Prim.Native.String.{len, ◌++◌ as str_append}
use qiyan_bot.Core.{
  ErrorCode, Result, ok, app_error, error, configuration_error, unknown_session, ambiguous_session,
  session_detached, session_busy, session_idle, thread_not_found, cwd_mismatch,
  endpoint_unavailable, endpoint_identity_changed, unsupported_capability, operation_uncertain,
  capacity_exceeded, permission_blocked,
}
use qiyan_bot.Prelude.{
  ℕ, String, str_eq, Bool, true, false, ◌&&◌, Option, none, some, List, [], ◌∷◌, ◌++◌,
  if◌then◌else◌, is_some, or_else,
}
use qiyan_bot.Scheduling.Outbox.{
  ScheduledSend, ClaimOutcome, claimed, in_flight, delivered, claim, mark_sent, release,
}
use qiyan_bot.Scheduling.Schedules.{
  ScheduleRow, ScheduleKind, wakeup, NewSchedule, has_armed_spec, create,
}

abbrev pub runtime_recovery_spec : String
runtime_recovery_spec = "runtime-recovery:"

-- a call of `send`, with the way it ended
pub record Sent : Type 0 where
  pub nickname : String
  pub message : String
  pub single_fire_key : String
  pub is_recovery : Bool
  pub outcome : Result (Unit {0})

pub record Ledger : Type 0 where
  pub outbox : List ScheduledSend
  pub sends : List Sent

abbrev pub is_wakeup : ScheduleKind → Bool
is_wakeup wakeup = true
is_wakeup _ = false

-- the mapping id in the private spec of a runtime-restart wakeup
unfoldable pub recovery_mapping_id : ScheduleRow → Option String
recovery_mapping_id row =
    if is_wakeup row.kind && starts_with row.spec runtime_recovery_spec
    then some (or_else (get? row.spec (len runtime_recovery_spec) (len row.spec)) "")
    else none

abbrev pub proven_not_dispatched : ErrorCode → Bool
proven_not_dispatched session_busy = true
proven_not_dispatched session_detached = true
proven_not_dispatched session_idle = true
proven_not_dispatched unknown_session = true
proven_not_dispatched ambiguous_session = true
proven_not_dispatched thread_not_found = true
proven_not_dispatched endpoint_unavailable = true
proven_not_dispatched endpoint_identity_changed = true
proven_not_dispatched cwd_mismatch = true
proven_not_dispatched configuration_error = true
proven_not_dispatched capacity_exceeded = true
proven_not_dispatched permission_blocked = true
proven_not_dispatched unsupported_capability = true
proven_not_dispatched _ = false

abbrev pub is_proven_not_dispatched : Result (Unit {0}) → Bool
is_proven_not_dispatched (app_error code) = proven_not_dispatched code
is_proven_not_dispatched _ = false

abbrev pub is_busy : Result (Unit {0}) → Bool
is_busy (app_error session_busy) = true
is_busy _ = false

-- what `fire` does with the way `send` ended
unfoldable pub settle_send : String → Bool → Result (Unit {0}) → Ledger → Result (Unit {0}) × Ledger
settle_send key is_recovery outcome l =
    if is_recovery && is_busy outcome
    then (ok tt, record l { outbox = mark_sent key l.outbox })
    else if is_proven_not_dispatched outcome
    then (outcome, record l { outbox = release key l.outbox })
    else (ok tt, record l { outbox = mark_sent key l.outbox })

unfoldable pub fire_claimed :
    ClaimOutcome
    → String
    → String
    → String
    → Bool
    → Result (Unit {0})
    → Ledger
    → Result (Unit {0}) × Ledger
unfolding settle_send
fire_claimed delivered nickname message key is_recovery outcome l = (ok tt, l)
fire_claimed in_flight nickname message key is_recovery outcome l =
    (app_error operation_uncertain, l)
fire_claimed claimed nickname message key is_recovery outcome l =
    settle_send key is_recovery outcome (record l {
      sends =
          l.sends
          ++ record {
            nickname = nickname;
            message = message;
            single_fire_key = key;
            is_recovery = is_recovery;
            outcome = outcome;
          }
            ∷ [];
    })

unfoldable pub target_nickname :
    (ScheduleRow → String → Option String) → ScheduleRow → Option String → Option String
target_nickname resolve row none = some row.nickname
target_nickname resolve row (some mapping_id) = resolve row mapping_id

-- an empty nickname is as good as none
abbrev pub is_missing : Option String → Bool
is_missing none = true
is_missing (some nickname) = str_eq nickname ""

-- `resolve` is `deps.resolveRuntimeRecovery`, and `outcome` the way this call's `send` would end.
unfoldable pub fire :
    ℕ
    → (ScheduleRow → String → Option String)
    → ScheduleRow
    → String
    → ℕ
    → Result (Unit {0})
    → Ledger
    → Result (Unit {0}) × Ledger
unfolding fire_claimed target_nickname
fire stale_ms resolve row key now outcome l =
    let mapping_id = recovery_mapping_id row in
    let target = target_nickname resolve row mapping_id in
    if is_missing target
    then (ok tt, l)
    else let (answer, outbox) = claim stale_ms key row.nickname row.message now l.outbox in
      fire_claimed answer (or_else target "") row.message key (is_some mapping_id) outcome
        (record l { outbox = outbox })

-- `enqueueRuntimeRecovery`: one armed wakeup for a session and a mapping, due at once
unfoldable pub enqueue_runtime_recovery :
    String → String → String → String → String → String → ℕ → List ScheduleRow → List ScheduleRow
enqueue_runtime_recovery id nickname endpoint_id thread_id mapping_id message now rows =
    let spec = str_append runtime_recovery_spec mapping_id in
    if has_armed_spec endpoint_id thread_id spec rows
    then rows
    else (create id
        (record {
          nickname = nickname;
          endpoint_id = endpoint_id;
          thread_id = thread_id;
          kind = wakeup;
          spec = spec;
          message = message;
          next_fire_at = some now;
          interval_ms = none;
        })
        now rows).1
